-- ===== src/Controllers/Recommend/Complete.antt =====
-- When all names are distinct, the check by number of `getRecommendProfiles` is the right one.
use mathlib.Core.List.Permᴰ
use ptp_operator_upstream.Base.{
  ◌∙◌, List, [], ◌∷◌, ◌≡◌, ◌≢◌, ◌↔◌, ◌⊎◌, inl, inr, refl, ap, Go, ret, panic, arith, Any-perm,
  length, Bool-cases, ==_iff,
}
use ptp_operator_upstream.Base.Distinct.{Has, Distinct, Within}
use ptp_operator_upstream.Base.Text.{Text}
use ptp_operator_upstream.Base.GoMap.{GoMap, keys, MapRange}
use ptp_operator_upstream.Api.PtpConfig.{PtpConfig, PtpProfile, PtpRecommend}
use ptp_operator_upstream.Controllers.Recommend.Best.{
  get_recommend_profiles_names-Recommends, NamesOutcome,
}
use ptp_operator_upstream.Controllers.Recommend.Names.{Recommends, LacksPriority}
use ptp_operator_upstream.Controllers.Recommend.Sorted.{
  IsSortedByName, sort_by_name-perm, sort_by_name-IsSortedByName,
}
use ptp_operator_upstream.Controllers.Recommend.Once.{get_recommend_profiles_names-Distinct}
use ptp_operator_upstream.Controllers.Recommend.Profiles.{
  is_name_in_iff, names_of, AllNamed, kept, Has-kept, count-Within, Within-count, answer,
  get_recommend_profiles-answer,
}
use ptp_operator_upstream.Controllers.Recommend.{
  Node, all_recommend, SliceSort, get_recommend_profiles_names, is_name_in, all_profiles, name_of,
  sort_by_name, profiles, failed_to_find_all, get_recommend_profiles,
}

names_returned :
    (r : MapRange) (node : Node) (l : List PtpRecommend) (x : Go (GoMap (Unit {0})))
    → NamesOutcome r node l x
    → ¬ LacksPriority r node l
    → (names : GoMap (Unit {0})) × (x ≡ ret names)
      × ((n : Text) → Has n (keys names) ↔ Recommends r node l n)
names_returned r node l (ret names) h lacks = (
  names,
  refl,
  λ n.
      let named = is_name_in_iff n names in
      (λ k. (h.1 n).0 (named.1 k), λ k. named.0 ((h.1 n).1 k)),
)
names_returned r node l panic h lacks = absurd (lacks h)

kept-Within : (names : GoMap (Unit {0})) (ps : List PtpProfile) → Within (kept names ps) ps
unfolding kept
kept-Within names [] p h = h
kept-Within names (q ∷ ps) p h = elim (Bool-cases (is_name_in names (name_of q))) [
  | inl e ↦
      let found : (q ≡ p) ⊎ Has p (kept names ps) = rw e at h in
      elim found [ inl f ↦ inl f | inr f ↦ inr (kept-Within names ps p f) ]
  | inr e ↦ inr (kept-Within names ps p (rw e at h))
]

names_of-perm :
    {ps qs : List PtpProfile} → Permᴰ.Permᴰ ps qs → Permᴰ.Permᴰ (names_of ps) (names_of qs)
names_of-perm Permᴰ.nil = Permᴰ.nil
names_of-perm (Permᴰ.cons e p) = Permᴰ.cons (ap name_of e) (names_of-perm p)
names_of-perm (Permᴰ.swap e f) = Permᴰ.swap (ap name_of e) (ap name_of f)
names_of-perm (Permᴰ.trans p q) = Permᴰ.trans (names_of-perm p) (names_of-perm q)

-- A full answer: defined profiles only, in the order of their names, and exactly the recommended
-- names.
pub record IsFullAnswer (r : MapRange) (node : Node) (configs : List PtpConfig)
    (l : List PtpProfile) : Type 0 where
  pub defined : Within l (all_profiles configs)
  pub sorted : IsSortedByName l
  pub recommended : (n : Text) → Has n (names_of l) ↔ Recommends r node (all_recommend configs) n

module _ (r : MapRange) (s : SliceSort) (configs : List PtpConfig) (node : Node)
    (priorities : ¬ LacksPriority r node (all_recommend configs))
    (named : AllNamed (all_profiles configs))
    (distinct : Distinct (names_of (all_profiles configs))) where
  sorted_kept :
      (names : GoMap (Unit {0}))
      → ((n : Text) → Has n (keys names) ↔ Recommends r node (all_recommend configs) n)
      → ((n : Text)
          → Recommends r node (all_recommend configs) n
          → Has n (names_of (all_profiles configs)))
      → IsFullAnswer r node configs (sort_by_name (kept names (all_profiles configs)))
  sorted_kept names same_names has =
      let all = all_profiles configs in
      let moved = sort_by_name-perm (kept names all) in
      record {
        defined = λ p h. kept-Within names all p (Any-perm _ moved h);
        sorted = sort_by_name-IsSortedByName (kept names all);
        recommended = λ n. (
          λ h. (same_names n).0 ((Has-kept names n all).0 (Any-perm _ (names_of-perm moved) h)).1,
          λ h.
              Any-perm _ (Permᴰ.symm (names_of-perm moved))
                ((Has-kept names n all).1 (has n h, (same_names n).1 h)),
        );
      }

  answer-profiles :
      (names : GoMap (Unit {0})) (found : List PtpProfile)
      → length found ≡ length names
      → answer names found ≡ profiles (sort_by_name found)
  unfolding answer
  answer-profiles names found e = rw ((==_iff _ _).1 e)

  answer_failed :
      (names : GoMap (Unit {0})) (found : List PtpProfile)
      → length found ≢ length names
      → answer names found ≡ failed_to_find_all
  unfolding answer
  answer_failed names found e = ground arith

  names_known :
      (names : GoMap (Unit {0})) × (get_recommend_profiles_names r s configs node ≡ ret names)
      × ((n : Text) → Has n (keys names) ↔ Recommends r node (all_recommend configs) n)
  names_known =
      names_returned r node (all_recommend configs) (get_recommend_profiles_names r s configs node)
        (get_recommend_profiles_names-Recommends r s configs node) priorities

  -- Suppose that every recommendation that applies to the node has a priority, that every profile
  -- has a name, that no two profiles share one, and that every recommended name has a profile. Then
  -- `getRecommendProfiles` returns profiles that the resources define, sorted by name, whose names
  -- are exactly the recommended ones.
  pub get_recommend_profiles-IsFullAnswer :
      ((n : Text)
        → Recommends r node (all_recommend configs) n
        → Has n (names_of (all_profiles configs)))
      → (l : List PtpProfile) × (get_recommend_profiles r s configs node ≡ ret (profiles l))
        × IsFullAnswer r node configs l
  get_recommend_profiles-IsFullAnswer has =
      let all = all_profiles configs in
      let (names, e, same_names) = names_known in
      let once = get_recommend_profiles_names-Distinct r s configs node e in
      let count = Within-count names all once distinct (λ n h. has n ((same_names n).0 h)) in
      (
        sort_by_name (kept names all),
        get_recommend_profiles-answer r s configs node e named
            ∙ ap ret (answer-profiles names (kept names all) count),
        sorted_kept names same_names has,
      )

  -- Suppose that every recommendation that applies to the node has a priority, that every profile
  -- has a name, and that no two profiles share one. If some recommended name has no profile, then
  -- `getRecommendProfiles` returns its error.
  pub get_recommend_profiles_missing :
      (n : Text)
      → Recommends r node (all_recommend configs) n
      → ¬ Has n (names_of (all_profiles configs))
      → get_recommend_profiles r s configs node ≡ ret failed_to_find_all
  get_recommend_profiles_missing n recommended missing =
      let all = all_profiles configs in
      let (names, e, same_names) = names_known in
      let once = get_recommend_profiles_names-Distinct r s configs node e in
      get_recommend_profiles-answer r s configs node e named
      ∙ ap ret (
          answer_failed names (kept names all) (λ count.
            missing (count-Within names all once distinct count n ((same_names n).1 recommended))))
