-- ===== src/Controllers/Recommend/Profiles.antt =====
-- What `getRecommendProfiles` returns: the profiles of the recommended names, sorted by name.
use ptp_operator_upstream.Base.{
  true, not, none, List, [], ◌∷◌, ◌≡◌, ◌≢◌, ◌↔◌, inl, inr, refl, sym, ap, subst, suc, ret, arith,
  All, length, ◌==◌, if◌then◌else◌, Bool-cases, Option-cases,
}
use ptp_operator_upstream.Base.Distinct.{Has, Distinct, Within, length-Within, Within-back}
use ptp_operator_upstream.Base.Text.{Text, same_iff}
use ptp_operator_upstream.Base.GoMap.{GoMap, lookup, keys, length-keys, MapRange}
use ptp_operator_upstream.Api.PtpConfig.{PtpConfig, PtpProfile}
use ptp_operator_upstream.Controllers.Recommend.{
  Node, SliceSort, get_recommend_profiles_names, is_name_in, all_profiles, filter_profiles, name_of,
  sort_by_name, Recommended, profiles, failed_to_find_all, get_recommend_profiles,
}

pub is_name_in_iff :
    (n : Text) (names : GoMap (Unit {0})) → (is_name_in names n ≡ true) ↔ Has n (keys names)
unfolding is_name_in lookup
is_name_in_iff n [] = (λ h. cc, λ h. absurd h)
is_name_in_iff n ((k, v) ∷ names) = ground (arith, same_iff k n, is_name_in_iff n names)

abbrev pub names_of : List PtpProfile → List Text
names_of [] = []
names_of (p ∷ ps) = name_of p ∷ names_of ps

-- Every profile has a name.
abbrev pub AllNamed : List PtpProfile → Type 0
AllNamed ps = All (λ p. p.name ≢ none) ps

-- The profiles kept, where all have a name.
unfoldable pub kept : GoMap (Unit {0}) → List PtpProfile → List PtpProfile
kept names [] = []
kept names (p ∷ ps) =
    let rest = kept names ps in if is_name_in names (name_of p) then p ∷ rest else rest

filter_profiles-kept :
    (names : GoMap (Unit {0})) (ps : List PtpProfile)
    → AllNamed ps
    → filter_profiles names ps ≡ ret (kept names ps)
unfolding filter_profiles kept
filter_profiles-kept names [] a = refl
filter_profiles-kept names (p ∷ ps) a = elim (Option-cases p.name) [
  | inl e ↦ absurd (a.0 e)
  | inr (n, e) ↦ ground (arith, filter_profiles-kept names ps a.1)
]

module _ (names : GoMap (Unit {0})) (n : Text) where
  pub Has-kept :
      (ps : List PtpProfile)
      → Has n (names_of (kept names ps)) ↔ (Has n (names_of ps) × Has n (keys names))
  unfolding kept
  Has-kept [] = ((λ h. absurd h), λ h. absurd h.0)
  Has-kept (p ∷ ps) = elim (Bool-cases (is_name_in names (name_of p))) [
    | inl e ↦ rw e (
      elim [
        | inl h ↦
            (inl h, subst (λ t. Has t (keys names)) h ((is_name_in_iff (name_of p) names).0 e))
        | inr h ↦ (inr ((Has-kept ps).0 h).0, ((Has-kept ps).0 h).1)
      ],
      λ h. elim h.0 [ inl f ↦ inl f | inr f ↦ inr ((Has-kept ps).1 (f, h.1)) ],
    )
    | inr e ↦ rw e (
      λ h. (inr ((Has-kept ps).0 h).0, ((Has-kept ps).0 h).1),
      λ h. elim h.0 [
        | inl f ↦
            let named =
              (is_name_in_iff (name_of p) names).1 (subst (λ t. Has t (keys names)) (sym f) h.1) in
            cc (e, named)
        | inr f ↦ (Has-kept ps).1 (f, h.1)
      ],
    )
  ]

kept-Distinct :
    (names : GoMap (Unit {0})) (ps : List PtpProfile)
    → Distinct (names_of ps)
    → Distinct (names_of (kept names ps))
unfolding kept
kept-Distinct names [] d = tt
kept-Distinct names (p ∷ ps) d = elim (Bool-cases (is_name_in names (name_of p))) [
  | inl e ↦ rw e ((λ h. d.0 ((Has-kept names (name_of p) ps).0 h).0), kept-Distinct names ps d.1)
  | inr e ↦ rw e (kept-Distinct names ps d.1)
]

-- The result once the names are known.
unfoldable pub answer : GoMap (Unit {0}) → List PtpProfile → Recommended
answer names found =
    if not (length found == length names) then failed_to_find_all else profiles (sort_by_name found)

pub get_recommend_profiles-answer :
    (r : MapRange) (s : SliceSort) (configs : List PtpConfig) (node : Node)
    {names : GoMap (Unit {0})}
    → get_recommend_profiles_names r s configs node ≡ ret names
    → AllNamed (all_profiles configs)
    → get_recommend_profiles r s configs node
      ≡ ret (answer names (kept names (all_profiles configs)))
unfolding get_recommend_profiles answer
get_recommend_profiles-answer r s configs node {names} e a =
    rw (e, filter_profiles-kept names (all_profiles configs) a)

length-names_of : (ps : List PtpProfile) → length (names_of ps) ≡ length ps
length-names_of [] = refl
length-names_of (p ∷ ps) = ap suc (length-names_of ps)

module _ (names : GoMap (Unit {0})) (ps : List PtpProfile) (once : Distinct (keys names))
    (distinct : Distinct (names_of ps)) where
  -- The count is right exactly if every name has a profile.
  pub count-Within : length (kept names ps) ≡ length names → Within (keys names) (names_of ps)
  count-Within e n h =
      let found = names_of (kept names ps) in
      let all_found =
        Within-back found (keys names) (kept-Distinct names ps distinct)
          (λ m x. ((Has-kept names m ps).0 x).1)
          (omega (arith, length-names_of (kept names ps), length-keys names, e)) in
      ((Has-kept names n ps).0 (all_found n h)).0

  pub Within-count : Within (keys names) (names_of ps) → length (kept names ps) ≡ length names
  Within-count w =
      let found = names_of (kept names ps) in
      omega (
        arith,
        length-names_of (kept names ps),
        length-keys names,
        length-Within found (keys names) (kept-Distinct names ps distinct)
            (λ m x. ((Has-kept names m ps).0 x).1),
        length-Within (keys names) found once (λ m x. (Has-kept names m ps).1 (w m x, x)),
      )
