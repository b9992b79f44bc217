-- ===== src/Controllers/Recommend/Rules.antt =====
-- When the match rules of a recommendation fit a node.
use mathlib.Core.List.Permᴰ
use mathlib.Core.Option.{some-injective}
use ptp_operator_upstream.Base.{
  Bool, true, false, Option, none, some, List, [], ◌∷◌, ◌≡◌, ◌↔◌, ◌⊎◌, inl, inr, refl, ap, ret,
  arith, Any, Any-perm, length, ◌==◌, Bool-cases, Option-cases,
}
use ptp_operator_upstream.Base.Text.{Text, same_iff}
use ptp_operator_upstream.Base.GoMap.{keys, keys-perm, MapRange}
use ptp_operator_upstream.Api.PtpConfig.{PtpRecommend, MatchRule}
use ptp_operator_upstream.Controllers.Recommend.{
  Node, points_to, matches_label, rule_matches, node_matches, Choice, choose, recommend_round,
}

points_to_iff : (p : Option Text) (s : Text) → (points_to p s ≡ true) ↔ (p ≡ some s)
unfolding points_to
points_to_iff none s = ground arith
points_to_iff (some t) s = ground (arith, same_iff t s)

matches_label_iff :
    (label : Option Text) (ks : List Text)
    → (matches_label label ks ≡ true) ↔ Any (λ k. label ≡ some k) ks
unfolding matches_label
matches_label_iff label [] = (λ h. cc, λ h. absurd h)
matches_label_iff label (k ∷ ks) = ground (arith, points_to_iff label k, matches_label_iff label ks)

-- A rule fits by the node's name, or by one of the node's label keys.
abbrev pub RuleFits : Node → MatchRule → Type 0
RuleFits node m =
    (m.node_name ≡ some node.name) ⊎ Any (λ k. m.node_label ≡ some k) (keys node.labels)

rule_matches_iff :
    (r : MapRange) (node : Node) (m : MatchRule) → (rule_matches r node m ≡ true) ↔ RuleFits node m
unfolding rule_matches
rule_matches_iff r node m =
    let moved = keys-perm (r.range_perm Text node.labels) in
    let found = matches_label_iff m.node_label (keys (r.range Text node.labels)) in
    let named = points_to_iff m.node_name node.name in
    (
      λ h. elim (Bool-cases (points_to m.node_name node.name)) [
        | inl e ↦ inl (named.0 e)
        | inr e ↦ inr (Any-perm _ moved (found.0 (rw e at h)))
      ],
      elim [
        | inl e ↦ rw (named.1 e) refl
        | inr e ↦ ground (arith, found.1 (Any-perm _ (Permᴰ.symm moved) e))
      ],
    )

-- A list of rules fits a node exactly if one of them names the node or one of its label keys,
-- whatever the order in which the labels are met.
pub node_matches_iff :
    (r : MapRange) (node : Node) (ms : List MatchRule)
    → (node_matches r node ms ≡ true) ↔ Any (RuleFits node) ms
unfolding node_matches
node_matches_iff r node [] = (λ h. cc, λ h. absurd h)
node_matches_iff r node (m ∷ ms) =
    ground (arith, rule_matches_iff r node m, node_matches_iff r node ms)

-- A recommendation that names a profile and whose rules fit the node.
unfoldable pub applies : MapRange → Node → PtpRecommend → Bool
applies r node rec = elim rec.profile [
  | none ↦ false
  | some _ ↦ node_matches r node rec.match_rules
]

matching_rules :
    (r : MapRange) (node : Node) (ms : List MatchRule)
    → node_matches r node ms ≡ true
    → (length ms == 0) ≡ false
unfolding node_matches
matching_rules r node [] h = cc
matching_rules r node (m ∷ ms) h = ground arith

applies_rules :
    (r : MapRange) (node : Node) (rec : PtpRecommend) (o : Option Text)
    → (elim o [ none ↦ false | some _ ↦ node_matches r node rec.match_rules ]) ≡ true
    → (p : Text) × (o ≡ some p) × (node_matches r node rec.match_rules ≡ true)
applies_rules r node rec none h = cc
applies_rules r node rec (some p) h = (p, refl, h)

round_some :
    (r : MapRange) (node : Node) (c : Choice) (rec : PtpRecommend) (o : Option Text) (p : Text)
    → o ≡ some p
    → node_matches r node rec.match_rules ≡ true
    → recommend_round r node c rec o ≡ choose c p rec.priority
unfolding recommend_round
round_some r node c rec none p e h = cc
round_some r node c rec (some q) p e h =
    rw (matching_rules r node rec.match_rules h, h)
      (ap (λ t. choose c t rec.priority) (some-injective q p e))

module _ (r : MapRange) (node : Node) (c : Choice) (rec : PtpRecommend) where
  pub round-skip : applies r node rec ≡ false → recommend_round r node c rec rec.profile ≡ ret c
  unfolding recommend_round applies
  round-skip h = elim (Option-cases rec.profile) [ inl e ↦ rw e | inr (p, e) ↦ rw e (ground arith) ]

  pub round-apply :
      applies r node rec ≡ true
      → (p : Text) × (rec.profile ≡ some p)
        × (recommend_round r node c rec rec.profile ≡ choose c p rec.priority)
  unfolding applies
  round-apply h =
      let (p, e, fits) = applies_rules r node rec rec.profile h in
      (p, e, round_some r node c rec rec.profile p e fits)
