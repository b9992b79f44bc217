-- ===== src/Controllers/Recommend.antt =====
-- controllers/recommend.go: which profiles a node gets. Logging is left out. A dereferenced nil
-- pointer panics. A `range` over a map goes in the order of `r`, and `sort.Slice`, which promises
-- only a sorted permutation, is the argument `s`.
pub mod Rules
pub mod Names
pub mod Best
pub mod Sorted
pub mod Once
pub mod Profiles
pub mod Complete
pub mod AnyOrder
pub mod Insertion
use mathlib.Core.List.Permᴰ
use mathlib.Core.List.Permᴰ.{Permᴰ}
use ptp_operator_upstream.Base.{
  ℕ, Bool, true, false, not, ◌&&◌, ◌||◌, Option, none, some, List, [], ◌∷◌, ◌++◌, ◌≡◌, Go, ret,
  panic, ◌>>=◌, All, length, ◌==◌, if◌then◌else◌,
}
use ptp_operator_upstream.Base.Int.{ℤ, negsuc, lt_ℤ, eq_ℤ}
use ptp_operator_upstream.Base.Text.{Text, same, before}
use ptp_operator_upstream.Base.GoMap.{GoMap, keys, lookup, put, MapRange}
use ptp_operator_upstream.Api.PtpConfig.{PtpProfile, PtpRecommend, MatchRule, PtpConfig}

-- What the source reads of a `corev1.Node`.
pub record Node : Type 0 where
  pub name : Text
  pub labels : GoMap Text

-- `p != nil && *p == s`.
unfoldable pub points_to : Option Text → Text → Bool
points_to none s = false
points_to (some t) s = same t s

unfoldable pub matches_label : Option Text → List Text → Bool
matches_label label [] = false
matches_label label (k ∷ ks) = points_to label k || matches_label label ks

unfoldable pub rule_matches : MapRange → Node → MatchRule → Bool
unfolding matches_label
rule_matches r node m =
    points_to m.node_name node.name || matches_label m.node_label (keys (r.range Text node.labels))

unfoldable pub node_matches : MapRange → Node → List MatchRule → Bool
node_matches r node [] = false
node_matches r node (m ∷ ms) = rule_matches r node m || node_matches r node ms

-- The recommend sections of all resources in one list.
unfoldable pub all_recommend : List PtpConfig → List PtpRecommend
all_recommend [] = []
all_recommend (config ∷ configs) = config.spec.recommend ++ all_recommend configs

unfoldable pub priority_less : Option ℤ → Option ℤ → Bool
priority_less (some a) (some b) = lt_ℤ a b
priority_less (some a) none = true
priority_less none _ = false

-- The comparison that `sort.Slice` is given.
abbrev pub less : PtpRecommend → PtpRecommend → Bool
less a b = priority_less a.priority b.priority

-- No element is less than one in front of it.
abbrev pub IsSorted : List PtpRecommend → Type 0
IsSorted [] = Unit
IsSorted (x ∷ xs) = All (λ y. less y x ≡ false) xs × IsSorted xs

pub record SliceSort : Type 0 where
  pub sort : List PtpRecommend → List PtpRecommend
  pub sort_perm : (l : List PtpRecommend) → Permᴰ l (sort l)
  pub sort_sorted : (l : List PtpRecommend) → IsSorted (sort l)

-- The variables that the loop over the sorted recommendations changes.
pub record Choice : Type 0 where
  pub profiles_names : GoMap (Unit {0})
  pub found_policy : Bool
  pub priority : ℤ

abbrev pub no_choice : Choice
no_choice = record { profiles_names = []; found_policy = false; priority = negsuc 0 }

-- The first policy that matches fixes the priority; a later one joins if it has the same.
unfoldable pub choose : Choice → Text → Option ℤ → Go Choice
choose c profile none = panic
choose c profile (some priority) =
    if not c.found_policy
    then ret (record {
      profiles_names = put profile tt c.profiles_names;
      found_policy = true;
      priority = priority;
    })
    else if eq_ℤ priority c.priority
    then ret (record c { profiles_names = put profile tt c.profiles_names })
    else ret c

unfoldable pub recommend_round : MapRange → Node → Choice → PtpRecommend → Option Text → Go Choice
recommend_round r node c rec none = ret c
recommend_round r node c rec (some profile) =
    if length rec.match_rules == 0
    then ret c
    else if not (node_matches r node rec.match_rules)
    then ret c
    else choose c profile rec.priority

unfoldable pub recommend_loop : MapRange → Node → Choice → List PtpRecommend → Go Choice
recommend_loop r node c [] = ret c
recommend_loop r node c (rec ∷ rest) = do
  c' ← recommend_round r node c rec rec.profile
  recommend_loop r node c' rest

unfoldable pub get_recommend_profiles_names :
    MapRange → SliceSort → List PtpConfig → Node → Go (GoMap (Unit {0}))
get_recommend_profiles_names r s configs node = do
  c ← recommend_loop r node no_choice (s.sort (all_recommend configs))
  ret c.profiles_names

-- The profiles of the resources, in their order.
unfoldable pub all_profiles : List PtpConfig → List PtpProfile
all_profiles [] = []
all_profiles (config ∷ configs) = config.spec.profile ++ all_profiles configs

unfoldable pub is_name_in {ℓ} : {V : Type ℓ} → GoMap V → Text → Bool
is_name_in names name = elim (lookup name names) [ none ↦ false | some _ ↦ true ]

-- The profiles whose name is recommended; `*profile.Name` may panic.
unfoldable pub filter_profiles : GoMap (Unit {0}) → List PtpProfile → Go (List PtpProfile)
filter_profiles names [] = ret []
filter_profiles names (p ∷ ps) = elim p.name [
  | none ↦ panic
  | some name ↦ do
    rest ← filter_profiles names ps
    ret (if is_name_in names name then p ∷ rest else rest)
]

abbrev pub name_of : PtpProfile → Text
name_of p = elim p.name [ none ↦ [] | some name ↦ name ]

-- `sort.SliceStable` by name, which has one result: here by insertion.
unfoldable pub insert_by_name : PtpProfile → List PtpProfile → List PtpProfile
insert_by_name p [] = p ∷ []
insert_by_name p (q ∷ qs) =
    if before (name_of q) (name_of p) then q ∷ insert_by_name p qs else p ∷ q ∷ qs

unfoldable pub sort_by_name : List PtpProfile → List PtpProfile
unfolding insert_by_name
sort_by_name [] = []
sort_by_name (p ∷ ps) = insert_by_name p (sort_by_name ps)

pub data Recommended : Type 0 where
  profiles : List PtpProfile → Recommended
  failed_to_find_all : Recommended

unfoldable pub get_recommend_profiles :
    MapRange → SliceSort → List PtpConfig → Node → Go Recommended
get_recommend_profiles r s configs node = do
  names ← get_recommend_profiles_names r s configs node
  found ← filter_profiles names (all_profiles configs)
  ret (
      if not (length found == length names)
      then failed_to_find_all
      else profiles (sort_by_name found))
