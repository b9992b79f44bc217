-- ===== src/Controllers/Recommend/Best.antt =====
-- From the sorted list to the best priority, and from there to any order of the recommendations.
use mathlib.Core.List.Permᴰ
use mathlib.Core.Option.{some-injective}
use ptp_operator_upstream.Base.{
  ◌∙◌, true, false, Option, none, some, List, [], ◌∷◌, ◌≡◌, ◌↔◌, ◌⊎◌, inl, inr, refl, sym, ap, Go,
  ret, panic, ◌>>=◌, All, Any-perm, All-perm, Any-map, Any-All, All-map, Bool-cases, Option-cases,
}
use ptp_operator_upstream.Base.Int.{ℤ, lt_ℤ_irrefl, eq_of_not_lt}
use ptp_operator_upstream.Base.Text.{Text}
use ptp_operator_upstream.Base.GoMap.{GoMap, lookup, put, MapRange}
use ptp_operator_upstream.Api.PtpConfig.{PtpRecommend, PtpConfig}
use ptp_operator_upstream.Controllers.Recommend.Rules.{applies, round-skip, round-apply}
use ptp_operator_upstream.Controllers.Recommend.Names.{
  IsBest, Recommends, LacksPriority, Joins, Outcome, Outcome-iff, is_name_in-put, skip, choose-none,
  loop-Joins,
}
use ptp_operator_upstream.Controllers.Recommend.{
  Node, all_recommend, priority_less, less, IsSorted, SliceSort, Choice, no_choice, choose,
  recommend_loop, get_recommend_profiles_names, is_name_in,
}

priority_less_irrefl : (o : Option ℤ) → priority_less o o ≡ false
unfolding priority_less
priority_less_irrefl none = refl
priority_less_irrefl (some a) = lt_ℤ_irrefl a

less_self : (a b : PtpRecommend) → a.priority ≡ b.priority → less a b ≡ false
less_self a b e = ap (λ o. priority_less o b.priority) e ∙ priority_less_irrefl b.priority

same_priority :
    (a : ℤ) (o : Option ℤ)
    → priority_less (some a) o ≡ false
    → priority_less o (some a) ≡ false
    → o ≡ some a
unfolding priority_less
same_priority a none h k = cc
same_priority a (some b) h k = ap some (eq_of_not_lt b a k h)

abbrev one_name : Text → GoMap (Unit {0})
one_name p = put p tt []

-- The state after the first recommendation that applies.
first_choice : Text → ℤ → Choice
first_choice p q = record { profiles_names = one_name p; found_policy = true; priority = q }

choose_first : (p : Text) (q : ℤ) → choose no_choice p (some q) ≡ ret (first_choice p q)
unfolding choose first_choice
choose_first p q = refl

first_names : (p n : Text) → (is_name_in (one_name p) n ≡ true) ↔ (p ≡ n)
unfolding is_name_in lookup
first_names p n = (
  λ h. elim ((is_name_in-put [] p n).0 h) [ inl e ↦ e | inr f ↦ cc ],
  λ e. (is_name_in-put [] p n).1 (inl e),
)

module _ (r : MapRange) (node : Node) where
  Recommends-skip :
      (rec : PtpRecommend) (rest : List PtpRecommend) (n : Text)
      → applies r node rec ≡ false
      → Recommends r node rest n ↔ Recommends r node (rec ∷ rest) n
  Recommends-skip rec rest n a = (
    λ h. inr (Any-map _ _ rest (λ x b. ((b.0.0, ((λ applied. cc (a, applied)), b.0.1)), b.1)) h),
    elim [ inl b ↦ cc (a, b.0.0) | inr h ↦ Any-map _ _ rest (λ x b. ((b.0.0, b.0.1.1), b.1)) h ],
  )

  module _ (rec : PtpRecommend) (rest : List PtpRecommend)
      (sorted : All (λ y. less y rec ≡ false) rest) (a : applies r node rec ≡ true) {p : Text}
      (named : rec.profile ≡ some p) {q : ℤ} (set : rec.priority ≡ some q) where
    -- Whatever has the priority of the first one is best.
    first_IsBest :
        (x : PtpRecommend)
        → applies r node x ≡ true
        → x.priority ≡ rec.priority
        → IsBest r node (rec ∷ rest) x
    first_IsBest x ax e =
        let as_rec = λ (y : PtpRecommend). ap (priority_less y.priority) e in
        (ax, ((λ _. less_self rec x (sym e)), All-map _ _ rest (λ y h _. as_rec y ∙ h) sorted))

    best_priority :
        (x : PtpRecommend) → less x rec ≡ false → less rec x ≡ false → x.priority ≡ some q
    best_priority x h k =
        same_priority q x.priority (sym (ap (λ o. priority_less o x.priority) set) ∙ k)
          (sym (ap (priority_less x.priority) set) ∙ h)

    Recommends-first :
        (n : Text)
        → ((is_name_in (first_choice p q).profiles_names n ≡ true) ⊎ Joins r node q rest n)
          ↔ Recommends r node (rec ∷ rest) n
    unfolding first_choice
    Recommends-first n = (
      elim [
        | inl h ↦ inl (first_IsBest rec a refl, named ∙ ap some ((first_names p n).0 h))
        | inr j ↦ inr (Any-map _ _ rest (λ x b. (first_IsBest x b.0 (b.1 ∙ sym set), b.2)) j)
      ],
      elim [
        | inl b ↦ inl ((first_names p n).1 (some-injective p n (sym named ∙ b.1)))
        | inr h ↦ inr (
            Any-All _ _ _ rest (λ x b not_less. (b.0.0, best_priority x not_less (b.0.1.0 a), b.1))
              h sorted)
      ],
    )

  loop-Recommends :
      (l : List PtpRecommend)
      → IsSorted l
      → Outcome (recommend_loop r node no_choice l) (LacksPriority r node l) (Recommends r node l)
  unfolding recommend_loop
  loop-Recommends [] s = ((λ h. h), λ n. (λ h. unfold is_name_in lookup in cc h, λ h. absurd h))
  loop-Recommends (rec ∷ rest) s = elim (Bool-cases (applies r node rec)) [
    | inl a ↦
        let (p, e, round) = round-apply r node no_choice rec a in
        elim (Option-cases rec.priority) [
          | inl unset ↦
              rw (round ∙ ap (choose no_choice p) unset ∙ choose-none no_choice p) (inl (a, unset))
          | inr (q, set) ↦ rw (round ∙ ap (choose no_choice p) set ∙ choose_first p q) (
              Outcome-iff (recommend_loop r node (first_choice p q) rest)
                (skip (λ lacks. cc (lacks.1, set))) (Recommends-first rec rest s.0 a e set)
                (unfold first_choice in loop-Joins r node rest (first_choice p q) refl))
        ]
    | inr a ↦ rw (round-skip r node no_choice rec a) (
        Outcome-iff (recommend_loop r node no_choice rest) (skip (λ lacks. cc (a, lacks.0)))
          (λ n. Recommends-skip rec rest n a) (loop-Recommends rest s.1))
  ]

  -- All three notions look at the list as a bag.
  LacksPriority-perm :
      {l l' : List PtpRecommend}
      → Permᴰ.Permᴰ l l'
      → LacksPriority r node l ↔ LacksPriority r node l'
  LacksPriority-perm p = (Any-perm _ p, Any-perm _ (Permᴰ.symm p))

  Recommends-along :
      {l l' : List PtpRecommend} (n : Text)
      → Permᴰ.Permᴰ l l'
      → Recommends r node l n
      → Recommends r node l' n
  Recommends-along {l} n p h =
      Any-perm _ p (Any-map _ _ l (λ x b. ((b.0.0, All-perm _ p b.0.1), b.1)) h)

  Recommends-perm :
      {l l' : List PtpRecommend} (n : Text)
      → Permᴰ.Permᴰ l l'
      → Recommends r node l n ↔ Recommends r node l' n
  Recommends-perm n p = (Recommends-along n p, Recommends-along n (Permᴰ.symm p))

-- What `getRecommendProfilesNames` promises, over all recommendations of the resources: it panics
-- if one that applies has no priority, and else returns exactly the recommended names.
abbrev pub NamesOutcome : MapRange → Node → List PtpRecommend → Go (GoMap (Unit {0})) → Type 0
NamesOutcome r node l (ret names) =
    (¬ LacksPriority r node l) × ((n : Text) → (is_name_in names n ≡ true) ↔ Recommends r node l n)
NamesOutcome r node l panic = LacksPriority r node l

names_of_choice :
    (r : MapRange) (node : Node) (l : List PtpRecommend) (c : Go Choice)
    → Outcome c (LacksPriority r node l) (Recommends r node l)
    → NamesOutcome r node l (c >>= λ c'. ret c'.profiles_names)
names_of_choice r node l (ret c) h = h
names_of_choice r node l panic h = h

-- Whatever sorting algorithm runs and in whatever order the maps are met,
-- `getRecommendProfilesNames` panics only if a recommendation that applies to the node has no
-- priority. If it returns, then every recommendation that applies has one, and a name is returned
-- exactly if some recommendation that applies gives it and no other that applies has a smaller
-- priority number. A recommendation applies if it has a profile and one of its rules fits the node.
pub get_recommend_profiles_names-Recommends :
    (r : MapRange) (s : SliceSort) (configs : List PtpConfig) (node : Node)
    → NamesOutcome r node (all_recommend configs) (get_recommend_profiles_names r s configs node)
unfolding get_recommend_profiles_names
get_recommend_profiles_names-Recommends r s configs node =
    let l = all_recommend configs in
    let back = Permᴰ.symm (s.sort_perm l) in
    let run = recommend_loop r node no_choice (s.sort l) in
    names_of_choice r node l run (
      Outcome-iff run (LacksPriority-perm r node back) (λ n. Recommends-perm r node n back)
        (loop-Recommends r node (s.sort l) (s.sort_sorted l)))
