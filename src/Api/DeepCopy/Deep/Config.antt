-- ===== src/Api/DeepCopy/Deep/Config.antt =====
-- The generated copies of PtpConfig and of the structures in it are deep.
use ptp_operator_upstream.Base.{◌≡◌, refl}
use ptp_operator_upstream.Api.DeepCopy.Memory.{copy_slice}
use ptp_operator_upstream.Api.DeepCopy.Memory.Rules.{
  Rel, IsStable, IsCopy, IsDeepCopy, returned, field, Returns-map,
}
use ptp_operator_upstream.Api.DeepCopy.Memory.Elements.{SliceRel, copy_slice-IsDeepCopy}
use ptp_operator_upstream.Api.DeepCopy.Types.{
  Vendored, PtpConfigStruct, PtpConfigListStruct, PtpConfigSpecStruct, PtpConfigStatusStruct,
}
use ptp_operator_upstream.Api.DeepCopy.Cells.{
  Cell, node_match_list_slice_kind, ptp_profile_slice_kind, ptp_recommend_slice_kind,
  ptp_config_slice_kind,
}
use ptp_operator_upstream.Api.DeepCopy.Copies.{VendoredCopies}
use ptp_operator_upstream.Api.DeepCopy.Copies.Config.{
  ptp_config_spec_deep_copy_into, ptp_config_status_deep_copy_into, ptp_config_deep_copy_into,
  ptp_config_list_deep_copy_into,
}
use ptp_operator_upstream.Api.DeepCopy.Deep.{VendoredLaws}
use ptp_operator_upstream.Api.DeepCopy.Copies.Profile.{
  node_match_list_deep_copy_into, ptp_profile_deep_copy_into, ptp_recommend_deep_copy_into,
}
use ptp_operator_upstream.Api.DeepCopy.Deep.Profile.{
  NodeMatchListRel, PtpProfileRel, node_match_list_deep_copy_into-IsDeepCopy,
  ptp_profile_deep_copy_into-IsDeepCopy,
}
use ptp_operator_upstream.Api.DeepCopy.Deep.Recommend.{
  PtpRecommendRel, ptp_recommend_deep_copy_into-IsDeepCopy,
}

-- The fields of two structures, one by one.
abbrev PtpConfigSpecRel :
    {v : Vendored} {k : VendoredCopies v} → VendoredLaws v k → Rel (Cell v) PtpConfigSpecStruct
PtpConfigSpecRel l b s c s' =
    (SliceRel ptp_profile_slice_kind (PtpProfileRel l) b s.profile c s'.profile)
    × (SliceRel ptp_recommend_slice_kind PtpRecommendRel b s.recommend c s'.recommend)

ptp_config_spec_deep_copy_into-IsStable :
    {v : Vendored} {k : VendoredCopies v} (l : VendoredLaws v k) → IsStable (PtpConfigSpecRel l)
ptp_config_spec_deep_copy_into-IsStable {k = k} l b c d s s' e h = (
  (copy_slice-IsDeepCopy ptp_profile_slice_kind (ptp_profile_deep_copy_into k)
        (ptp_profile_deep_copy_into-IsDeepCopy l)).0
      b c d s.profile s'.profile e h.0,
  (copy_slice-IsDeepCopy ptp_recommend_slice_kind ptp_recommend_deep_copy_into
        ptp_recommend_deep_copy_into-IsDeepCopy).0
      b c d s.recommend s'.recommend e h.1,
)

ptp_config_spec_deep_copy_into-IsCopy :
    {v : Vendored} {k : VendoredCopies v} (l : VendoredLaws v k)
    → IsCopy (PtpConfigSpecRel l) (ptp_config_spec_deep_copy_into k)
unfolding ptp_config_spec_deep_copy_into
ptp_config_spec_deep_copy_into-IsCopy {v = v} {k = k} l b n h s r i =
    Returns-map n h (ptp_config_spec_deep_copy_into k s) _ (PtpConfigSpecRel l b s)
      (field (copy_slice ptp_profile_slice_kind (ptp_profile_deep_copy_into k)) _ _
        (copy_slice-IsDeepCopy ptp_profile_slice_kind (ptp_profile_deep_copy_into k)
          (ptp_profile_deep_copy_into-IsDeepCopy l))
        b n h s.profile r i.0
        λ profile' h0 r0.
          field (copy_slice ptp_recommend_slice_kind ptp_recommend_deep_copy_into) _ _
            (copy_slice-IsDeepCopy ptp_recommend_slice_kind ptp_recommend_deep_copy_into
              ptp_recommend_deep_copy_into-IsDeepCopy)
            b n h0 s.recommend r0 i.1 λ recommend' h1 r1. returned b n h1 _ r1)
      (λ c t q. rw q.2.2 (q.1, q.2.1))

ptp_config_spec_deep_copy_into-IsDeepCopy :
    {v : Vendored} {k : VendoredCopies v} (l : VendoredLaws v k)
    → IsDeepCopy (PtpConfigSpecRel l) (ptp_config_spec_deep_copy_into k)
ptp_config_spec_deep_copy_into-IsDeepCopy l =
    (ptp_config_spec_deep_copy_into-IsStable l, ptp_config_spec_deep_copy_into-IsCopy l)

-- The fields of two structures, one by one.
abbrev PtpConfigStatusRel : {v : Vendored} → Rel (Cell v) PtpConfigStatusStruct
PtpConfigStatusRel b s c s' =
    (SliceRel node_match_list_slice_kind NodeMatchListRel b s.match_list c s'.match_list)

ptp_config_status_deep_copy_into-IsStable : {v : Vendored} → IsStable (PtpConfigStatusRel {v = v})
ptp_config_status_deep_copy_into-IsStable b c d s s' e h =
    (copy_slice-IsDeepCopy node_match_list_slice_kind node_match_list_deep_copy_into
        node_match_list_deep_copy_into-IsDeepCopy).0
      b c d s.match_list s'.match_list e h

ptp_config_status_deep_copy_into-IsCopy :
    {v : Vendored} → IsCopy (PtpConfigStatusRel {v = v}) ptp_config_status_deep_copy_into
unfolding ptp_config_status_deep_copy_into
ptp_config_status_deep_copy_into-IsCopy {v = v} b n h s r i =
    Returns-map n h (ptp_config_status_deep_copy_into s) _ (PtpConfigStatusRel b s)
      (field (copy_slice node_match_list_slice_kind node_match_list_deep_copy_into) _ _
        (copy_slice-IsDeepCopy node_match_list_slice_kind node_match_list_deep_copy_into
          node_match_list_deep_copy_into-IsDeepCopy)
        b n h s.match_list r i λ match_list' h0 r0. returned b n h0 _ r0)
      (λ c t q. rw q.2 q.1)

ptp_config_status_deep_copy_into-IsDeepCopy :
    {v : Vendored} → IsDeepCopy (PtpConfigStatusRel {v = v}) ptp_config_status_deep_copy_into
ptp_config_status_deep_copy_into-IsDeepCopy =
    (ptp_config_status_deep_copy_into-IsStable, ptp_config_status_deep_copy_into-IsCopy)

-- The fields of two structures, one by one.
abbrev pub PtpConfigRel :
    {v : Vendored} {k : VendoredCopies v} → VendoredLaws v k → Rel (Cell v) (PtpConfigStruct v)
PtpConfigRel l b s c s' =
    (s'.type_meta ≡ s.type_meta)
    × (l.object_meta_rel b s.object_meta c s'.object_meta)
    × (PtpConfigSpecRel l b s.spec c s'.spec)
    × (PtpConfigStatusRel b s.status c s'.status)

ptp_config_deep_copy_into-IsStable :
    {v : Vendored} {k : VendoredCopies v} (l : VendoredLaws v k) → IsStable (PtpConfigRel l)
ptp_config_deep_copy_into-IsStable {k = k} l b c d s s' e h = (
  h.0,
  l.object_meta_deep.0 b c d s.object_meta s'.object_meta e h.1,
  (ptp_config_spec_deep_copy_into-IsDeepCopy l).0 b c d s.spec s'.spec e h.2,
  ptp_config_status_deep_copy_into-IsDeepCopy.0 b c d s.status s'.status e h.3,
)

ptp_config_deep_copy_into-IsCopy :
    {v : Vendored} {k : VendoredCopies v} (l : VendoredLaws v k)
    → IsCopy (PtpConfigRel l) (ptp_config_deep_copy_into k)
unfolding ptp_config_deep_copy_into
ptp_config_deep_copy_into-IsCopy {v = v} {k = k} l b n h s r i =
    Returns-map n h (ptp_config_deep_copy_into k s) _ (PtpConfigRel l b s)
      (field k.object_meta_deep_copy_into _ _ l.object_meta_deep b n h s.object_meta r i.1
        λ object_meta' h0 r0.
          field (ptp_config_spec_deep_copy_into k) _ _ (ptp_config_spec_deep_copy_into-IsDeepCopy l)
            b n h0 s.spec r0 i.2
            λ spec' h1 r1.
              field ptp_config_status_deep_copy_into _ _ ptp_config_status_deep_copy_into-IsDeepCopy
                b n h1 s.status r1 i.3 λ status' h2 r2. returned b n h2 _ r2)
      (λ c t q. rw q.2.2.2 (refl, q.1, q.2.1, q.2.2.1))

pub ptp_config_deep_copy_into-IsDeepCopy :
    {v : Vendored} {k : VendoredCopies v} (l : VendoredLaws v k)
    → IsDeepCopy (PtpConfigRel l) (ptp_config_deep_copy_into k)
ptp_config_deep_copy_into-IsDeepCopy l =
    (ptp_config_deep_copy_into-IsStable l, ptp_config_deep_copy_into-IsCopy l)

-- The fields of two structures, one by one.
abbrev pub PtpConfigListRel :
    {v : Vendored} {k : VendoredCopies v} → VendoredLaws v k → Rel (Cell v) (PtpConfigListStruct v)
PtpConfigListRel l b s c s' =
    (s'.type_meta ≡ s.type_meta)
    × (l.list_meta_rel b s.list_meta c s'.list_meta)
    × (SliceRel ptp_config_slice_kind (PtpConfigRel l) b s.items c s'.items)

ptp_config_list_deep_copy_into-IsStable :
    {v : Vendored} {k : VendoredCopies v} (l : VendoredLaws v k) → IsStable (PtpConfigListRel l)
ptp_config_list_deep_copy_into-IsStable {k = k} l b c d s s' e h = (
  h.0,
  l.list_meta_deep.0 b c d s.list_meta s'.list_meta e h.1,
  (copy_slice-IsDeepCopy ptp_config_slice_kind (ptp_config_deep_copy_into k)
        (ptp_config_deep_copy_into-IsDeepCopy l)).0
      b c d s.items s'.items e h.2,
)

ptp_config_list_deep_copy_into-IsCopy :
    {v : Vendored} {k : VendoredCopies v} (l : VendoredLaws v k)
    → IsCopy (PtpConfigListRel l) (ptp_config_list_deep_copy_into k)
unfolding ptp_config_list_deep_copy_into
ptp_config_list_deep_copy_into-IsCopy {v = v} {k = k} l b n h s r i =
    Returns-map n h (ptp_config_list_deep_copy_into k s) _ (PtpConfigListRel l b s)
      (field k.list_meta_deep_copy_into _ _ l.list_meta_deep b n h s.list_meta r i.1
        λ list_meta' h0 r0.
          field (copy_slice ptp_config_slice_kind (ptp_config_deep_copy_into k)) _ _
            (copy_slice-IsDeepCopy ptp_config_slice_kind (ptp_config_deep_copy_into k)
              (ptp_config_deep_copy_into-IsDeepCopy l))
            b n h0 s.items r0 i.2 λ items' h1 r1. returned b n h1 _ r1)
      (λ c t q. rw q.2.2 (refl, q.1, q.2.1))

pub ptp_config_list_deep_copy_into-IsDeepCopy :
    {v : Vendored} {k : VendoredCopies v} (l : VendoredLaws v k)
    → IsDeepCopy (PtpConfigListRel l) (ptp_config_list_deep_copy_into k)
ptp_config_list_deep_copy_into-IsDeepCopy l =
    (ptp_config_list_deep_copy_into-IsStable l, ptp_config_list_deep_copy_into-IsCopy l)
