-- ===== src/Controllers/Recommend/Names.antt =====
-- The names that a node is recommended: those of the best priority among the recommendations that
-- apply, and a panic if one that applies has no priority.
use mathlib.Core.Option.{some-injective}
use ptp_operator_upstream.Base.{
  ◌∙◌, true, false, none, some, List, [], ◌∷◌, ◌≡◌, ◌↔◌, ◌⊎◌, inl, inr, refl, sym, ap, Go, ret,
  panic, arith, All, Any, Bool-cases, Option-cases,
}
use ptp_operator_upstream.Base.Int.{ℤ, eq_ℤ, eq_ℤ_iff}
use ptp_operator_upstream.Base.Text.{Text, same_iff}
use ptp_operator_upstream.Base.GoMap.{GoMap, put, lookup-put, MapRange}
use ptp_operator_upstream.Api.PtpConfig.{PtpRecommend}
use ptp_operator_upstream.Controllers.Recommend.Rules.{applies, round-skip, round-apply}
use ptp_operator_upstream.Controllers.Recommend.{
  Node, less, Choice, choose, recommend_loop, is_name_in,
}

module _ (r : MapRange) (node : Node) where
  -- A recommendation that applies, with no other that applies in front of it by priority.
  abbrev pub IsBest : List PtpRecommend → PtpRecommend → Type 0
  IsBest l rec =
      (applies r node rec ≡ true)
      × All (λ other. applies r node other ≡ true → less other rec ≡ false) l

  -- The profile `n` is recommended with the best priority.
  abbrev pub Recommends : List PtpRecommend → Text → Type 0
  Recommends l n = Any (λ rec. IsBest l rec × (rec.profile ≡ some n)) l

  -- Some recommendation that applies has no priority.
  abbrev pub LacksPriority : List PtpRecommend → Type 0
  LacksPriority l = Any (λ rec. (applies r node rec ≡ true) × (rec.priority ≡ none)) l

  -- The rest of the list recommends `n` with priority `q`.
  abbrev pub Joins : ℤ → List PtpRecommend → Text → Type 0
  Joins q l n =
      Any (λ rec. (applies r node rec ≡ true) × (rec.priority ≡ some q) × (rec.profile ≡ some n)) l

-- What a run of the loop says: it panics for want of a priority, or it has exactly the names of `N`.
abbrev pub Outcome : Go Choice → Type 0 → (Text → Type 0) → Type 0
Outcome (ret c) L N = ¬ L × ((n : Text) → (is_name_in c.profiles_names n ≡ true) ↔ N n)
Outcome panic L N = L

pub Outcome-iff :
    (c : Go Choice) {L L' : Type 0} {N N' : Text → Type 0}
    → L ↔ L'
    → ((n : Text) → N n ↔ N' n)
    → Outcome c L N
    → Outcome c L' N'
Outcome-iff (ret c) l m (h, k) =
    (λ x. h (l.1 x), λ n. (λ e. (m n).0 ((k n).0 e), λ x. (k n).1 ((m n).1 x)))
Outcome-iff panic l m h = l.0 h

pub is_name_in-put :
    (names : GoMap (Unit {0})) (p n : Text)
    → (is_name_in (put p tt names) n ≡ true) ↔ ((p ≡ n) ⊎ (is_name_in names n ≡ true))
unfolding is_name_in
is_name_in-put names p n = ground (arith, lookup-put p n tt names, same_iff p n)

module _ {A B : Type 0} where
  pub skip : ¬ A → B ↔ (A ⊎ B)
  skip no_a = (λ b. inr b, elim [ inl a ↦ absurd (no_a a) | inr b ↦ b ])

module _ {A B X : Type 0} where
  skip_second : ¬ A → (X ⊎ B) ↔ (X ⊎ (A ⊎ B))
  skip_second no_a = (
    elim [ inl x ↦ inl x | inr b ↦ inr (inr b) ],
    elim [ inl x ↦ inl x | inr (inl a) ↦ absurd (no_a a) | inr (inr b) ↦ inr b ],
  )

  regroup : {P : Type 0} → P ↔ A → ((P ⊎ X) ⊎ B) ↔ (X ⊎ (A ⊎ B))
  regroup e = (
    elim [ inl (inl p) ↦ inr (inl (e.0 p)) | inl (inr x) ↦ inl x | inr b ↦ inr (inr b) ],
    elim [ inl x ↦ inl (inr x) | inr (inl a) ↦ inl (inl (e.1 a)) | inr (inr b) ↦ inr b ],
  )

joined :
    {A B : Type 0} (n p : Text) (names : GoMap (Unit {0}))
    → (p ≡ n → A)
    → (A → p ≡ n)
    → ((is_name_in (put p tt names) n ≡ true) ⊎ B) ↔ ((is_name_in names n ≡ true) ⊎ (A ⊎ B))
joined {A} {B} n p names f g =
    let named = is_name_in-put names p n in
    let (to, from) = regroup {A = A} {B = B} {X = is_name_in names n ≡ true} (f, g) in
    (
      elim [ inl h ↦ to (inl (named.0 h)) | inr b ↦ to (inr b) ],
      λ x. elim (from x) [ inl h ↦ inl (named.1 h) | inr b ↦ inr b ],
    )

pub choose-none : (c : Choice) (p : Text) → choose c p none ≡ panic
unfolding choose
choose-none c p = refl

module _ (c : Choice) (p : Text) (q : ℤ) where
  choose_join :
      c.found_policy ≡ true
      → eq_ℤ q c.priority ≡ true
      → choose c p (some q) ≡ ret (record c { profiles_names = put p tt c.profiles_names })
  unfolding choose
  choose_join f e = ground arith

  choose_other : c.found_policy ≡ true → eq_ℤ q c.priority ≡ false → choose c p (some q) ≡ ret c
  unfolding choose
  choose_other f e = ground arith

module _ (r : MapRange) (node : Node) where
  -- Once a priority is fixed.
  pub loop-Joins :
      (l : List PtpRecommend) (c : Choice)
      → c.found_policy ≡ true
      → Outcome
          (recommend_loop r node c l)
          (LacksPriority r node l)
          (λ n. (is_name_in c.profiles_names n ≡ true) ⊎ Joins r node c.priority l n)
  unfolding recommend_loop
  loop-Joins [] c f = (λ h. h, λ n. (λ h. inl h, elim [ inl h ↦ h | inr h ↦ absurd h ]))
  loop-Joins (rec ∷ rest) c f = elim (Bool-cases (applies r node rec)) [
    | inl a ↦
        let (p, e, round) = round-apply r node c rec a in
        elim (Option-cases rec.priority) [
          | inl unset ↦ rw (round ∙ ap (choose c p) unset ∙ choose-none c p) (inl (a, unset))
          | inr (q, set) ↦
              let priority : LacksPriority r node rest ↔ LacksPriority r node (rec ∷ rest) =
                skip (λ lacks. cc (lacks.1, set)) in
              elim (Bool-cases (eq_ℤ q c.priority)) [
                | inl same_priority ↦
                    let c' = record c { profiles_names = put p tt c.profiles_names } in
                    let q_is = (eq_ℤ_iff q c.priority).0 same_priority in
                    rw (round ∙ ap (choose c p) set ∙ choose_join c p q f same_priority) (
                      Outcome-iff (recommend_loop r node c' rest) priority
                        (λ n.
                          joined n p c.profiles_names (λ h. (a, set ∙ ap some q_is, e ∙ ap some h))
                            (λ h. some-injective p n (sym e ∙ h.2)))
                        (loop-Joins rest c' f))
                | inr other_priority ↦
                    rw (round ∙ ap (choose c p) set ∙ choose_other c p q f other_priority) (
                      Outcome-iff (recommend_loop r node c rest) priority
                        (λ n. skip_second (λ joins. cc (
                          other_priority,
                          (eq_ℤ_iff q c.priority).1
                              (some-injective q c.priority (sym set ∙ joins.1)),
                        )))
                        (loop-Joins rest c f))
              ]
        ]
    | inr a ↦ rw (round-skip r node c rec a) (
        Outcome-iff (recommend_loop r node c rest) (skip (λ lacks. cc (a, lacks.0)))
          (λ n. skip_second (λ joins. cc (a, joins.0))) (loop-Joins rest c f))
  ]
