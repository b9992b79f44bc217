-- ===== src/Controllers/Recommend/Once.antt =====
-- The map of the recommended names has each name once.
use ptp_operator_upstream.Base.{
  Bool, true, false, not, Option, none, some, List, [], ◌∷◌, ◌≡◌, inl, inr, subst, ret-injective,
  Go, ret, panic, ◌>>=◌, if◌then◌else◌, Bool-cases,
}
use ptp_operator_upstream.Base.Distinct.{Distinct}
use ptp_operator_upstream.Base.Int.{ℤ, eq_ℤ}
use ptp_operator_upstream.Base.Text.{Text}
use ptp_operator_upstream.Base.GoMap.{GoMap, keys, put-Distinct, MapRange}
use ptp_operator_upstream.Api.PtpConfig.{PtpRecommend, PtpConfig}
use ptp_operator_upstream.Controllers.Recommend.Rules.{applies, round-skip, round-apply}
use ptp_operator_upstream.Controllers.Recommend.{
  Node, all_recommend, SliceSort, Choice, no_choice, choose, recommend_round, recommend_loop,
  get_recommend_profiles_names,
}

-- No name is recorded twice.
abbrev HasDistinctNames : Go Choice → Type 0
HasDistinctNames (ret c) = Distinct (keys c.profiles_names)
HasDistinctNames panic = Unit

if-HasDistinctNames :
    (b : Bool) (x y : Go Choice)
    → HasDistinctNames x
    → HasDistinctNames y
    → HasDistinctNames (if b then x else y)
if-HasDistinctNames true x y h k = h
if-HasDistinctNames false x y h k = k

choose-HasDistinctNames :
    (c : Choice) (p : Text) (o : Option ℤ)
    → Distinct (keys c.profiles_names)
    → HasDistinctNames (choose c p o)
unfolding choose
choose-HasDistinctNames c p none d = tt
choose-HasDistinctNames c p (some q) d =
    let added = put-Distinct p tt c.profiles_names d in
    if-HasDistinctNames (not c.found_policy) _ _ added
      (if-HasDistinctNames (eq_ℤ q c.priority) _ _ added d)

module _ (r : MapRange) (node : Node) where
  round-HasDistinctNames :
      (c : Choice) (rec : PtpRecommend)
      → Distinct (keys c.profiles_names)
      → HasDistinctNames (recommend_round r node c rec rec.profile)
  round-HasDistinctNames c rec d = elim (Bool-cases (applies r node rec)) [
    | inl a ↦
        let (p, e, round) = round-apply r node c rec a in
        rw round (choose-HasDistinctNames c p rec.priority d)
    | inr a ↦ rw (round-skip r node c rec a) d
  ]

  loop-HasDistinctNames :
      (l : List PtpRecommend) (c : Choice)
      → Distinct (keys c.profiles_names)
      → HasDistinctNames (recommend_loop r node c l)
  unfolding recommend_loop
  loop-HasDistinctNames [] c d = d
  loop-HasDistinctNames (rec ∷ rest) c d =
      go (recommend_round r node c rec rec.profile) (round-HasDistinctNames c rec d)
        (loop-HasDistinctNames rest)
    where
      go :
          (x : Go Choice)
          → HasDistinctNames x
          → ((c' : Choice)
              → Distinct (keys c'.profiles_names)
              → HasDistinctNames (recommend_loop r node c' rest))
          → HasDistinctNames (x >>= λ c'. recommend_loop r node c' rest)
      go (ret c') h later = later c' h
      go panic h later = tt

-- The names of a run that returns.
names_of_run :
    (x : Go Choice) {names : GoMap (Unit {0})}
    → HasDistinctNames x
    → (x >>= λ c. ret c.profiles_names) ≡ ret names
    → Distinct (keys names)
names_of_run (ret c) h e = subst (λ m. Distinct (keys m)) (ret-injective _ _ e) h
names_of_run panic h e = cc

pub get_recommend_profiles_names-Distinct :
    (r : MapRange) (s : SliceSort) (configs : List PtpConfig) (node : Node)
    {names : GoMap (Unit {0})}
    → get_recommend_profiles_names r s configs node ≡ ret names
    → Distinct (keys names)
unfolding get_recommend_profiles_names
get_recommend_profiles_names-Distinct r s configs node =
    names_of_run (recommend_loop r node no_choice (s.sort (all_recommend configs)))
      (loop-HasDistinctNames r node (s.sort (all_recommend configs)) no_choice tt)
