-- ===== src/Api/DeepCopy/Deep/Recommend.antt =====
-- The generated copies of PtpRecommend and of the structures in it are deep.
use ptp_operator_upstream.Api.DeepCopy.Memory.{copy_slice}
use ptp_operator_upstream.Api.DeepCopy.Memory.Rules.{
  Rel, IsStable, IsCopy, IsDeepCopy, returned, field, Returns-map,
}
use ptp_operator_upstream.Api.DeepCopy.Memory.Elements.{SliceRel, copy_slice-IsDeepCopy}
use ptp_operator_upstream.Api.DeepCopy.Types.{Vendored, MatchRuleStruct, PtpRecommendStruct}
use ptp_operator_upstream.Api.DeepCopy.Cells.{Cell, match_rule_slice_kind}
use ptp_operator_upstream.Api.DeepCopy.Copies.{copy_text, copy_int}
use ptp_operator_upstream.Api.DeepCopy.Copies.Profile.{
  match_rule_deep_copy_into, ptp_recommend_deep_copy_into,
}
use ptp_operator_upstream.Api.DeepCopy.Deep.{
  TextRel, IntRel, copy_text-IsDeepCopy, copy_int-IsDeepCopy,
}

-- The fields of two structures, one by one.
abbrev MatchRuleRel : {v : Vendored} → Rel (Cell v) MatchRuleStruct
MatchRuleRel b s c s' =
    (TextRel b s.node_label c s'.node_label) × (TextRel b s.node_name c s'.node_name)

match_rule_deep_copy_into-IsStable : {v : Vendored} → IsStable (MatchRuleRel {v = v})
match_rule_deep_copy_into-IsStable b c d s s' e h = (
  copy_text-IsDeepCopy.0 b c d s.node_label s'.node_label e h.0,
  copy_text-IsDeepCopy.0 b c d s.node_name s'.node_name e h.1,
)

match_rule_deep_copy_into-IsCopy :
    {v : Vendored} → IsCopy (MatchRuleRel {v = v}) match_rule_deep_copy_into
unfolding match_rule_deep_copy_into
match_rule_deep_copy_into-IsCopy {v = v} b n h s r i =
    Returns-map n h (match_rule_deep_copy_into s) _ (MatchRuleRel b s)
      (field copy_text _ _ copy_text-IsDeepCopy b n h s.node_label r i.0 λ node_label' h0 r0.
        field copy_text _ _ copy_text-IsDeepCopy b n h0 s.node_name r0 i.1
          λ node_name' h1 r1. returned b n h1 _ r1)
      (λ c t q. rw q.2.2 (q.1, q.2.1))

match_rule_deep_copy_into-IsDeepCopy :
    {v : Vendored} → IsDeepCopy (MatchRuleRel {v = v}) match_rule_deep_copy_into
match_rule_deep_copy_into-IsDeepCopy =
    (match_rule_deep_copy_into-IsStable, match_rule_deep_copy_into-IsCopy)

-- The fields of two structures, one by one.
abbrev pub PtpRecommendRel : {v : Vendored} → Rel (Cell v) PtpRecommendStruct
PtpRecommendRel b s c s' =
    (TextRel b s.profile c s'.profile)
    × (IntRel b s.priority c s'.priority)
    × (SliceRel match_rule_slice_kind MatchRuleRel b s.match_rules c s'.match_rules)

ptp_recommend_deep_copy_into-IsStable : {v : Vendored} → IsStable (PtpRecommendRel {v = v})
ptp_recommend_deep_copy_into-IsStable b c d s s' e h = (
  copy_text-IsDeepCopy.0 b c d s.profile s'.profile e h.0,
  copy_int-IsDeepCopy.0 b c d s.priority s'.priority e h.1,
  (copy_slice-IsDeepCopy match_rule_slice_kind match_rule_deep_copy_into
        match_rule_deep_copy_into-IsDeepCopy).0
      b c d s.match_rules s'.match_rules e h.2,
)

ptp_recommend_deep_copy_into-IsCopy :
    {v : Vendored} → IsCopy (PtpRecommendRel {v = v}) ptp_recommend_deep_copy_into
unfolding ptp_recommend_deep_copy_into
ptp_recommend_deep_copy_into-IsCopy {v = v} b n h s r i =
    Returns-map n h (ptp_recommend_deep_copy_into s) _ (PtpRecommendRel b s)
      (field copy_text _ _ copy_text-IsDeepCopy b n h s.profile r i.0 λ profile' h0 r0.
        field copy_int _ _ copy_int-IsDeepCopy b n h0 s.priority r0 i.1 λ priority' h1 r1.
          field (copy_slice match_rule_slice_kind match_rule_deep_copy_into) _ _
            (copy_slice-IsDeepCopy match_rule_slice_kind match_rule_deep_copy_into
              match_rule_deep_copy_into-IsDeepCopy)
            b n h1 s.match_rules r1 i.2 λ match_rules' h2 r2. returned b n h2 _ r2)
      (λ c t q. rw q.2.2.2 (q.1, q.2.1, q.2.2.1))

pub ptp_recommend_deep_copy_into-IsDeepCopy :
    {v : Vendored} → IsDeepCopy (PtpRecommendRel {v = v}) ptp_recommend_deep_copy_into
ptp_recommend_deep_copy_into-IsDeepCopy =
    (ptp_recommend_deep_copy_into-IsStable, ptp_recommend_deep_copy_into-IsCopy)
