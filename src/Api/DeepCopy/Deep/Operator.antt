-- ===== src/Api/DeepCopy/Deep/Operator.antt =====
-- The generated copies of PtpOperatorConfig and of the structures in it are deep.
use ptp_operator_upstream.Base.{◌≡◌, refl}
use ptp_operator_upstream.Api.DeepCopy.Memory.{copy_slice}
use ptp_operator_upstream.Api.DeepCopy.Memory.Rules.{
  Rel, IsStable, IsCopy, IsDeepCopy, returned, field, Returns-map,
}
use ptp_operator_upstream.Api.DeepCopy.Memory.Elements.{SliceRel, copy_slice-IsDeepCopy}
use ptp_operator_upstream.Api.DeepCopy.Types.{
  Vendored, PtpOperatorConfigStruct, PtpOperatorConfigListStruct, PtpOperatorConfigSpecStruct,
}
use ptp_operator_upstream.Api.DeepCopy.Cells.{Cell, ptp_operator_config_slice_kind}
use ptp_operator_upstream.Api.DeepCopy.Copies.{
  VendoredCopies, copy_ptp_event_config, copy_text_map, copy_json_map_pointer,
}
use ptp_operator_upstream.Api.DeepCopy.Copies.Operator.{
  ptp_operator_config_spec_deep_copy_into, ptp_operator_config_deep_copy_into,
  ptp_operator_config_list_deep_copy_into,
}
use ptp_operator_upstream.Api.DeepCopy.Deep.{
  VendoredLaws, PtpEventConfigPointerRel, TextMapRel, JsonMapPointerRel,
  copy_ptp_event_config-IsDeepCopy, copy_text_map-IsDeepCopy, copy_json_map_pointer-IsDeepCopy,
}

-- The fields of two structures, one by one.
abbrev PtpOperatorConfigSpecRel :
    {v : Vendored} {k : VendoredCopies v}
    → VendoredLaws v k
    → Rel (Cell v) PtpOperatorConfigSpecStruct
PtpOperatorConfigSpecRel l b s c s' =
    (TextMapRel b s.daemon_node_selector c s'.daemon_node_selector)
    × (PtpEventConfigPointerRel b s.event_config c s'.event_config)
    × (JsonMapPointerRel l b s.enabled_plugins c s'.enabled_plugins)

ptp_operator_config_spec_deep_copy_into-IsStable :
    {v : Vendored} {k : VendoredCopies v} (l : VendoredLaws v k)
    → IsStable (PtpOperatorConfigSpecRel l)
ptp_operator_config_spec_deep_copy_into-IsStable {k = k} l b c d s s' e h = (
  copy_text_map-IsDeepCopy.0 b c d s.daemon_node_selector s'.daemon_node_selector e h.0,
  copy_ptp_event_config-IsDeepCopy.0 b c d s.event_config s'.event_config e h.1,
  (copy_json_map_pointer-IsDeepCopy l).0 b c d s.enabled_plugins s'.enabled_plugins e h.2,
)

ptp_operator_config_spec_deep_copy_into-IsCopy :
    {v : Vendored} {k : VendoredCopies v} (l : VendoredLaws v k)
    → IsCopy (PtpOperatorConfigSpecRel l) (ptp_operator_config_spec_deep_copy_into k)
unfolding ptp_operator_config_spec_deep_copy_into
ptp_operator_config_spec_deep_copy_into-IsCopy {v = v} {k = k} l b n h s r i =
    Returns-map n h (ptp_operator_config_spec_deep_copy_into k s) _ (PtpOperatorConfigSpecRel l b s)
      (field copy_text_map _ _ copy_text_map-IsDeepCopy b n h s.daemon_node_selector r i.0
        λ daemon_node_selector' h0 r0.
          field copy_ptp_event_config _ _ copy_ptp_event_config-IsDeepCopy b n h0 s.event_config r0
            i.1
            λ event_config' h1 r1.
              field (copy_json_map_pointer k) _ _ (copy_json_map_pointer-IsDeepCopy l) b n h1
                s.enabled_plugins r1 i.2 λ enabled_plugins' h2 r2. returned b n h2 _ r2)
      (λ c t q. rw q.2.2.2 (q.1, q.2.1, q.2.2.1))

ptp_operator_config_spec_deep_copy_into-IsDeepCopy :
    {v : Vendored} {k : VendoredCopies v} (l : VendoredLaws v k)
    → IsDeepCopy (PtpOperatorConfigSpecRel l) (ptp_operator_config_spec_deep_copy_into k)
ptp_operator_config_spec_deep_copy_into-IsDeepCopy l = (
  ptp_operator_config_spec_deep_copy_into-IsStable l,
  ptp_operator_config_spec_deep_copy_into-IsCopy l,
)

-- The fields of two structures, one by one.
abbrev pub PtpOperatorConfigRel :
    {v : Vendored} {k : VendoredCopies v}
    → VendoredLaws v k
    → Rel (Cell v) (PtpOperatorConfigStruct v)
PtpOperatorConfigRel l b s c s' =
    (s'.type_meta ≡ s.type_meta)
    × (l.object_meta_rel b s.object_meta c s'.object_meta)
    × (PtpOperatorConfigSpecRel l b s.spec c s'.spec)
    × (s'.status ≡ s.status)

ptp_operator_config_deep_copy_into-IsStable :
    {v : Vendored} {k : VendoredCopies v} (l : VendoredLaws v k) → IsStable (PtpOperatorConfigRel l)
ptp_operator_config_deep_copy_into-IsStable {k = k} l b c d s s' e h = (
  h.0,
  l.object_meta_deep.0 b c d s.object_meta s'.object_meta e h.1,
  (ptp_operator_config_spec_deep_copy_into-IsDeepCopy l).0 b c d s.spec s'.spec e h.2,
  h.3,
)

ptp_operator_config_deep_copy_into-IsCopy :
    {v : Vendored} {k : VendoredCopies v} (l : VendoredLaws v k)
    → IsCopy (PtpOperatorConfigRel l) (ptp_operator_config_deep_copy_into k)
unfolding ptp_operator_config_deep_copy_into
ptp_operator_config_deep_copy_into-IsCopy {v = v} {k = k} l b n h s r i =
    Returns-map n h (ptp_operator_config_deep_copy_into k s) _ (PtpOperatorConfigRel l b s)
      (field k.object_meta_deep_copy_into _ _ l.object_meta_deep b n h s.object_meta r i.1
        λ object_meta' h0 r0.
          field (ptp_operator_config_spec_deep_copy_into k) _ _
            (ptp_operator_config_spec_deep_copy_into-IsDeepCopy l) b n h0 s.spec r0 i.2
            λ spec' h1 r1. returned b n h1 _ r1)
      (λ c t q. rw q.2.2 (refl, q.1, q.2.1, refl))

pub ptp_operator_config_deep_copy_into-IsDeepCopy :
    {v : Vendored} {k : VendoredCopies v} (l : VendoredLaws v k)
    → IsDeepCopy (PtpOperatorConfigRel l) (ptp_operator_config_deep_copy_into k)
ptp_operator_config_deep_copy_into-IsDeepCopy l =
    (ptp_operator_config_deep_copy_into-IsStable l, ptp_operator_config_deep_copy_into-IsCopy l)

-- The fields of two structures, one by one.
abbrev pub PtpOperatorConfigListRel :
    {v : Vendored} {k : VendoredCopies v}
    → VendoredLaws v k
    → Rel (Cell v) (PtpOperatorConfigListStruct v)
PtpOperatorConfigListRel l b s c s' =
    (s'.type_meta ≡ s.type_meta)
    × (l.list_meta_rel b s.list_meta c s'.list_meta)
    × (SliceRel ptp_operator_config_slice_kind (PtpOperatorConfigRel l) b s.items c s'.items)

ptp_operator_config_list_deep_copy_into-IsStable :
    {v : Vendored} {k : VendoredCopies v} (l : VendoredLaws v k)
    → IsStable (PtpOperatorConfigListRel l)
ptp_operator_config_list_deep_copy_into-IsStable {k = k} l b c d s s' e h = (
  h.0,
  l.list_meta_deep.0 b c d s.list_meta s'.list_meta e h.1,
  (copy_slice-IsDeepCopy ptp_operator_config_slice_kind (ptp_operator_config_deep_copy_into k)
        (ptp_operator_config_deep_copy_into-IsDeepCopy l)).0
      b c d s.items s'.items e h.2,
)

ptp_operator_config_list_deep_copy_into-IsCopy :
    {v : Vendored} {k : VendoredCopies v} (l : VendoredLaws v k)
    → IsCopy (PtpOperatorConfigListRel l) (ptp_operator_config_list_deep_copy_into k)
unfolding ptp_operator_config_list_deep_copy_into
ptp_operator_config_list_deep_copy_into-IsCopy {v = v} {k = k} l b n h s r i =
    Returns-map n h (ptp_operator_config_list_deep_copy_into k s) _ (PtpOperatorConfigListRel l b s)
      (field k.list_meta_deep_copy_into _ _ l.list_meta_deep b n h s.list_meta r i.1
        λ list_meta' h0 r0.
          field (copy_slice ptp_operator_config_slice_kind (ptp_operator_config_deep_copy_into k)) _
            _
            (copy_slice-IsDeepCopy ptp_operator_config_slice_kind
              (ptp_operator_config_deep_copy_into k)
              (ptp_operator_config_deep_copy_into-IsDeepCopy l))
            b n h0 s.items r0 i.2 λ items' h1 r1. returned b n h1 _ r1)
      (λ c t q. rw q.2.2 (refl, q.1, q.2.1))

pub ptp_operator_config_list_deep_copy_into-IsDeepCopy :
    {v : Vendored} {k : VendoredCopies v} (l : VendoredLaws v k)
    → IsDeepCopy (PtpOperatorConfigListRel l) (ptp_operator_config_list_deep_copy_into k)
ptp_operator_config_list_deep_copy_into-IsDeepCopy l = (
  ptp_operator_config_list_deep_copy_into-IsStable l,
  ptp_operator_config_list_deep_copy_into-IsCopy l,
)
