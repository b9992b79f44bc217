-- ===== src/Controllers/Tests.antt =====
-- Runs of package controllers on small inputs, and its theorems at them.
use mathlib.Core.Option.{some-injective}
use ptp_operator_upstream.Base.{
  true, Option, none, some, List, [], ◌∷◌, ◌≡◌, ◌↔◌, inl, inr, refl, ret, panic, arith, Any,
}
use ptp_operator_upstream.Base.Int.{ℤ, pos, lt_ℤ, eq_ℤ}
use ptp_operator_upstream.Base.Text.{Text, codes, same, before}
use ptp_operator_upstream.Base.GoMap.{lookup, put, insertion_order, reverse_order}
use ptp_operator_upstream.Base.Distinct.{Has, Distinct}
use ptp_operator_upstream.Api.PtpConfig.{PtpProfile, PtpConfig, PtpRecommend, MatchRule}
use ptp_operator_upstream.Controllers.Recommend.Rules.{applies, RuleFits, node_matches_iff}
use ptp_operator_upstream.Controllers.Recommend.Names.{Recommends, LacksPriority}
use ptp_operator_upstream.Controllers.Recommend.Best.{
  NamesOutcome, get_recommend_profiles_names-Recommends,
}
use ptp_operator_upstream.Controllers.Recommend.Profiles.{AllNamed, names_of}
use ptp_operator_upstream.Controllers.Recommend.Complete.{
  IsFullAnswer, get_recommend_profiles-IsFullAnswer, get_recommend_profiles_missing,
}
use ptp_operator_upstream.Controllers.Recommend.Insertion.{insertion_sort, by_insertion}
use ptp_operator_upstream.Controllers.Recommend.{
  Node, node_matches, rule_matches, points_to, all_recommend, priority_less, recommend_round,
  choose, recommend_loop, get_recommend_profiles_names, is_name_in, all_profiles, filter_profiles,
  sort_by_name, profiles, failed_to_find_all, get_recommend_profiles,
}

abbrev pub worker : Node
worker = record {
  name = codes "worker-0";
  labels = (codes "ptp/slave", []) ∷ (codes "zone", codes "a") ∷ [];
}

abbrev by_label : Text → MatchRule
by_label l = record { node_label = some l; node_name = none }

abbrev by_name : Text → MatchRule
by_name n = record { node_label = none; node_name = some n }

abbrev rec : Text → Option ℤ → MatchRule → PtpRecommend
rec profile priority rule = record {
  profile = some profile;
  priority = priority;
  match_rules = rule ∷ [];
}

abbrev plain : Text → PtpProfile
plain n = record {
  name = some n;
  interface = none;
  ptp4l_opts = none;
  phc2sys_opts = none;
  ts2phc_opts = none;
  synce4l_opts = none;
  ptp4l_conf = none;
  phc2sys_conf = none;
  ts2phc_conf = none;
  synce4l_conf = none;
  ptp_scheduling_policy = none;
  ptp_scheduling_priority = none;
  ptp_clock_threshold = none;
  ptp_settings = [];
  plugins = [];
}

abbrev config : List PtpProfile → List PtpRecommend → PtpConfig
config ps rs = record { name = codes "cfg"; spec = record { profile = ps; recommend = rs } }

-- "slave" and "bc" share the best priority of those that fit; "gm" has a worse one, and "other"
-- fits another node.
abbrev pub configs : List PtpConfig
configs =
    config (plain (codes "slave") ∷ plain (codes "gm") ∷ []) (
      rec (codes "gm") (some (pos 9)) (by_name (codes "worker-0"))
      ∷ rec (codes "slave") (some (pos 4)) (by_label (codes "ptp/slave"))
      ∷ [])
    ∷ config (plain (codes "bc") ∷ []) (
        rec (codes "other") (some (pos 1)) (by_name (codes "worker-1"))
        ∷ rec (codes "bc") (some (pos 4)) (by_label (codes "zone"))
        ∷ [])
    ∷ []

pub run_configs :
    get_recommend_profiles insertion_order by_insertion configs worker
    ≡ ret (profiles (plain (codes "bc") ∷ plain (codes "slave") ∷ []))
unfolding get_recommend_profiles get_recommend_profiles_names recommend_loop recommend_round choose
    node_matches rule_matches points_to all_recommend priority_less insertion_sort lt_ℤ eq_ℤ
    is_name_in all_profiles filter_profiles sort_by_name same before lookup put
run_configs = refl

-- A recommendation that fits and has no priority is dereferenced.
run_panics :
    get_recommend_profiles insertion_order by_insertion
      (config [] (rec (codes "gm") none (by_name (codes "worker-0")) ∷ []) ∷ [])
      worker
    ≡ panic
unfolding get_recommend_profiles get_recommend_profiles_names recommend_loop recommend_round choose
    node_matches rule_matches points_to all_recommend priority_less insertion_sort same
run_panics = refl

-- The check counts: a name that two resources define makes up for one that none defines.
run_fooled :
    get_recommend_profiles insertion_order by_insertion
      (config (plain (codes "bc") ∷ plain (codes "bc") ∷ []) (
          rec (codes "bc") (some (pos 4)) (by_name (codes "worker-0"))
          ∷ rec (codes "gone") (some (pos 4)) (by_name (codes "worker-0"))
          ∷ [])
        ∷ [])
      worker
    ≡ ret (profiles (plain (codes "bc") ∷ plain (codes "bc") ∷ []))
unfolding get_recommend_profiles get_recommend_profiles_names recommend_loop recommend_round choose
    node_matches rule_matches points_to all_recommend priority_less insertion_sort lt_ℤ eq_ℤ
    is_name_in all_profiles filter_profiles sort_by_name same before lookup put
run_fooled = refl

node_matches_iff_example :
    (node_matches reverse_order worker (by_label (codes "zone") ∷ []) ≡ true)
    ↔ Any (RuleFits worker) (by_label (codes "zone") ∷ [])
node_matches_iff_example = node_matches_iff reverse_order worker (by_label (codes "zone") ∷ [])

get_recommend_profiles_names-Recommends_example :
    NamesOutcome reverse_order worker
      (all_recommend configs)
      (get_recommend_profiles_names reverse_order by_insertion configs worker)
get_recommend_profiles_names-Recommends_example =
    get_recommend_profiles_names-Recommends reverse_order by_insertion configs worker

priorities_set : ¬ LacksPriority insertion_order worker (all_recommend configs)
unfolding all_recommend
priorities_set = elim [
  | inl h ↦ cc
  | inr (inl h) ↦ cc
  | inr (inr (inl h)) ↦ cc
  | inr (inr (inr (inl h))) ↦ cc
  | inr (inr (inr (inr h))) ↦ h
]

all_named : AllNamed (all_profiles configs)
unfolding all_profiles
all_named = ((λ e. cc), ((λ e. cc), ((λ e. cc), tt)))

all-Distinct : Distinct (names_of (all_profiles configs))
unfolding all_profiles
all-Distinct = (
  elim [ inl e ↦ ground arith | inr (inl e) ↦ ground arith | inr (inr h) ↦ h ],
  (elim [ inl e ↦ ground arith | inr h ↦ h ], ((λ h. h), tt)),
)

recommended_defined :
    (n : Text)
    → Recommends insertion_order worker (all_recommend configs) n
    → Has n (names_of (all_profiles configs))
unfolding all_recommend all_profiles applies node_matches rule_matches points_to same
recommended_defined n = elim [
  | inl h ↦ inr (inl (some-injective (codes "gm") n h.1))
  | inr (inl h) ↦ inl (some-injective (codes "slave") n h.1)
  | inr (inr (inl h)) ↦ cc h.0.0
  | inr (inr (inr (inl h))) ↦ inr (inr (inl (some-injective (codes "bc") n h.1)))
  | inr (inr (inr (inr h))) ↦ absurd h
]

get_recommend_profiles-IsFullAnswer_example :
    (l : List PtpProfile) × (get_recommend_profiles insertion_order by_insertion configs worker
      ≡ ret (profiles l))
    × IsFullAnswer insertion_order worker configs l
get_recommend_profiles-IsFullAnswer_example =
    get_recommend_profiles-IsFullAnswer insertion_order by_insertion configs worker priorities_set
      all_named all-Distinct recommended_defined

-- One profile, and a recommendation of another one.
abbrev pub lacking : List PtpConfig
lacking =
    config (plain (codes "bc") ∷ [])
      (rec (codes "gone") (some (pos 4)) (by_name (codes "worker-0")) ∷ [])
    ∷ []

lacking_priorities : ¬ LacksPriority insertion_order worker (all_recommend lacking)
unfolding all_recommend
lacking_priorities = elim [ inl h ↦ cc | inr h ↦ h ]

lacking_named : AllNamed (all_profiles lacking)
unfolding all_profiles
lacking_named = ((λ e. cc), tt)

lacking-Distinct : Distinct (names_of (all_profiles lacking))
unfolding all_profiles
lacking-Distinct = ((λ h. h), tt)

gone_recommended : Recommends insertion_order worker (all_recommend lacking) (codes "gone")
unfolding all_recommend applies node_matches rule_matches points_to same priority_less lt_ℤ
gone_recommended = inl ((refl, ((λ _. refl), tt)), refl)

gone_undefined : ¬ Has (codes "gone") (names_of (all_profiles lacking))
unfolding all_profiles
gone_undefined = elim [ inl e ↦ ground arith | inr h ↦ h ]

get_recommend_profiles_missing_example :
    get_recommend_profiles insertion_order by_insertion lacking worker ≡ ret failed_to_find_all
get_recommend_profiles_missing_example =
    get_recommend_profiles_missing insertion_order by_insertion lacking worker lacking_priorities
      lacking_named lacking-Distinct (codes "gone") gone_recommended gone_undefined
