-- ===== src/Controllers/Recommend/AnyOrder.antt =====
-- The answer of controllers/recommend.go depends on no order that the runtime chooses.
use ptp_operator_upstream.Base.{
  Bool, true, false, none, some, List, [], ◌∷◌, ◌≡◌, ◌↔◌, refl, sym, ap, subst, ◌∙◌, Go, ret, panic,
  ◌>>=◌, arith, inl, inr, ◌≤◌, All, Any, length, not, ◌==◌, if◌then◌else◌, Option-cases,
}
use ptp_operator_upstream.Base.Distinct.{Distinct, length-Within}
use ptp_operator_upstream.Base.Text.{Text}
use ptp_operator_upstream.Base.GoMap.{GoMap, keys, length-keys, MapRange}
use ptp_operator_upstream.Api.PtpConfig.{PtpConfig, PtpProfile, PtpRecommend}
use ptp_operator_upstream.Controllers.Recommend.Rules.{node_matches_iff, applies}
use ptp_operator_upstream.Controllers.Recommend.Best.{
  get_recommend_profiles_names-Recommends, NamesOutcome,
}
use ptp_operator_upstream.Controllers.Recommend.Names.{Recommends, LacksPriority}
use ptp_operator_upstream.Controllers.Recommend.Once.{get_recommend_profiles_names-Distinct}
use ptp_operator_upstream.Controllers.Recommend.Profiles.{is_name_in_iff}
use ptp_operator_upstream.Controllers.Recommend.{
  Node, node_matches, less, all_recommend, SliceSort, get_recommend_profiles_names, is_name_in,
  all_profiles, filter_profiles, sort_by_name, Recommended, profiles, failed_to_find_all,
  get_recommend_profiles,
}

same_truth : (a b : Bool) → (a ≡ true) ↔ (b ≡ true) → a ≡ b
same_truth true b e = sym (e.0 refl)
same_truth false true e = e.1 refl
same_truth false false e = refl

applies_any_order :
    (r r' : MapRange) (node : Node) (rec : PtpRecommend) → applies r node rec ≡ applies r' node rec
unfolding applies
applies_any_order r r' node rec =
    let fits = node_matches_iff r node rec.match_rules in
    let fits' = node_matches_iff r' node rec.match_rules in
    let matches =
      same_truth (node_matches r node rec.match_rules) (node_matches r' node rec.match_rules)
        ((λ h. fits'.1 (fits.0 h)), (λ h. fits.1 (fits'.0 h))) in
    ap (λ b. elim rec.profile [ none ↦ false | some _ ↦ b ]) matches

-- What is said of the recommendations that apply, for any test of that.
abbrev RecommendsBy : (PtpRecommend → Bool) → List PtpRecommend → Text → Type 0
RecommendsBy f l n =
    Any
      (λ rec.
        ((f rec ≡ true) × All (λ other. f other ≡ true → less other rec ≡ false) l)
        × (rec.profile ≡ some n))
      l

Recommends-any_order :
    (r r' : MapRange) (node : Node) (l : List PtpRecommend) (n : Text)
    → Recommends r node l n
    → Recommends r' node l n
Recommends-any_order r r' node l n h =
    subst (λ f. RecommendsBy f l n) (λ i rec. applies_any_order r r' node rec i) h

abbrev LacksPriorityBy : (PtpRecommend → Bool) → List PtpRecommend → Type 0
LacksPriorityBy f l = Any (λ rec. (f rec ≡ true) × (rec.priority ≡ none)) l

LacksPriority-any_order :
    (r r' : MapRange) (node : Node) (l : List PtpRecommend)
    → LacksPriority r node l
    → LacksPriority r' node l
LacksPriority-any_order r r' node l h =
    subst (λ f. LacksPriorityBy f l) (λ i rec. applies_any_order r r' node rec i) h

-- Two maps with the same names.
abbrev SameNames : GoMap (Unit {0}) → GoMap (Unit {0}) → Type 0
SameNames a b = (n : Text) → is_name_in a n ≡ is_name_in b n

SameNames-le :
    (a b : GoMap (Unit {0})) → SameNames a b → Distinct (keys a) → length (keys a) ≤ length (keys b)
SameNames-le a b e d =
    length-Within (keys a) (keys b) d
      λ n h. (is_name_in_iff n b).0 (sym (e n) ∙ (is_name_in_iff n a).1 h)

SameNames-length :
    (a b : GoMap (Unit {0}))
    → SameNames a b
    → Distinct (keys a)
    → Distinct (keys b)
    → length a ≡ length b
SameNames-length a b e d d' = omega (
  arith,
  length-keys a,
  length-keys b,
  SameNames-le a b e d,
  SameNames-le b a (λ n. sym (e n)) d',
)

filter_profiles_same :
    (a b : GoMap (Unit {0})) (ps : List PtpProfile)
    → SameNames a b
    → filter_profiles a ps ≡ filter_profiles b ps
unfolding filter_profiles
filter_profiles_same a b [] e = refl
filter_profiles_same a b (p ∷ ps) e = elim (Option-cases p.name) [
  | inl f ↦ rw f refl
  | inr (n, f) ↦ rw (f, e n, filter_profiles_same a b ps e) refl
]

-- What follows in `getRecommendProfiles` once the names are known.
abbrev answer_for : List PtpConfig → GoMap (Unit {0}) → Go Recommended
answer_for configs names = filter_profiles names (all_profiles configs) >>= λ found. ret (
    if not (length found == length names)
    then failed_to_find_all
    else profiles (sort_by_name found))

module _ (r r' : MapRange) (configs : List PtpConfig) (node : Node) where
  names_agree :
      (x y : Go (GoMap (Unit {0})))
      → NamesOutcome r node (all_recommend configs) x
      → NamesOutcome r' node (all_recommend configs) y
      → ((names : GoMap (Unit {0})) → x ≡ ret names → Distinct (keys names))
      → ((names : GoMap (Unit {0})) → y ≡ ret names → Distinct (keys names))
      → (x >>= answer_for configs) ≡ (y >>= answer_for configs)
  names_agree (ret a) (ret b) h k d d' =
      let l = all_recommend configs in
      let same_names : SameNames a b = λ n. same_truth (is_name_in a n) (is_name_in b n) (
        (λ e. (k.1 n).1 (Recommends-any_order r r' node l n ((h.1 n).0 e))),
        (λ e. (h.1 n).1 (Recommends-any_order r' r node l n ((k.1 n).0 e))),
      ) in
      rw
        (
          filter_profiles_same a b (all_profiles configs) same_names,
          SameNames-length a b same_names (d a refl) (d' b refl),
        )
        refl
  names_agree (ret a) panic h k d d' =
      absurd (h.0 (LacksPriority-any_order r' r node (all_recommend configs) k))
  names_agree panic (ret b) h k d d' =
      absurd (k.0 (LacksPriority-any_order r r' node (all_recommend configs) h))
  names_agree panic panic h k d d' = refl

-- Two runs of `getRecommendProfiles` give the same answer, be it the profiles, the error or a panic,
-- whatever the order in which each run meets the maps and whatever sorted order each leaves equal
-- priorities in. There is no condition on the resources.
pub get_recommend_profiles_any_order :
    (r r' : MapRange) (s s' : SliceSort) (configs : List PtpConfig) (node : Node)
    → get_recommend_profiles r s configs node ≡ get_recommend_profiles r' s' configs node
unfolding get_recommend_profiles
get_recommend_profiles_any_order r r' s s' configs node =
    names_agree r r' configs node (get_recommend_profiles_names r s configs node)
      (get_recommend_profiles_names r' s' configs node)
      (get_recommend_profiles_names-Recommends r s configs node)
      (get_recommend_profiles_names-Recommends r' s' configs node)
      (λ names e. get_recommend_profiles_names-Distinct r s configs node e)
      (λ names e. get_recommend_profiles_names-Distinct r' s' configs node e)
