-- ===== src/Api/DeepCopy/Deep/Profile.antt =====
-- The generated copies of PtpProfile and NodeMatchList are deep.
use ptp_operator_upstream.Api.DeepCopy.Memory.Rules.{
  Rel, IsStable, IsCopy, IsDeepCopy, returned, field, Returns-map,
}
use ptp_operator_upstream.Api.DeepCopy.Types.{Vendored, NodeMatchListStruct, PtpProfileStruct}
use ptp_operator_upstream.Api.DeepCopy.Cells.{Cell}
use ptp_operator_upstream.Api.DeepCopy.Copies.{
  VendoredCopies, copy_text, copy_int, copy_ptp_clock_threshold, copy_text_map, copy_json_map,
}
use ptp_operator_upstream.Api.DeepCopy.Copies.Profile.{
  node_match_list_deep_copy_into, ptp_profile_deep_copy_into,
}
use ptp_operator_upstream.Api.DeepCopy.Deep.{
  VendoredLaws, TextRel, IntRel, PtpClockThresholdPointerRel, TextMapRel, JsonMapRel,
  copy_text-IsDeepCopy, copy_int-IsDeepCopy, copy_ptp_clock_threshold-IsDeepCopy,
  copy_text_map-IsDeepCopy, copy_json_map-IsDeepCopy,
}

-- The fields of two structures, one by one.
abbrev pub NodeMatchListRel : {v : Vendored} → Rel (Cell v) NodeMatchListStruct
NodeMatchListRel b s c s' =
    (TextRel b s.node_name c s'.node_name) × (TextRel b s.profile c s'.profile)

node_match_list_deep_copy_into-IsStable : {v : Vendored} → IsStable (NodeMatchListRel {v = v})
node_match_list_deep_copy_into-IsStable b c d s s' e h = (
  copy_text-IsDeepCopy.0 b c d s.node_name s'.node_name e h.0,
  copy_text-IsDeepCopy.0 b c d s.profile s'.profile e h.1,
)

node_match_list_deep_copy_into-IsCopy :
    {v : Vendored} → IsCopy (NodeMatchListRel {v = v}) node_match_list_deep_copy_into
unfolding node_match_list_deep_copy_into
node_match_list_deep_copy_into-IsCopy {v = v} b n h s r i =
    Returns-map n h (node_match_list_deep_copy_into s) _ (NodeMatchListRel b s)
      (field copy_text _ _ copy_text-IsDeepCopy b n h s.node_name r i.0 λ node_name' h0 r0.
        field copy_text _ _ copy_text-IsDeepCopy b n h0 s.profile r0 i.1
          λ profile' h1 r1. returned b n h1 _ r1)
      (λ c t q. rw q.2.2 (q.1, q.2.1))

pub node_match_list_deep_copy_into-IsDeepCopy :
    {v : Vendored} → IsDeepCopy (NodeMatchListRel {v = v}) node_match_list_deep_copy_into
node_match_list_deep_copy_into-IsDeepCopy =
    (node_match_list_deep_copy_into-IsStable, node_match_list_deep_copy_into-IsCopy)

-- The fields of two structures, one by one.
abbrev pub PtpProfileRel :
    {v : Vendored} {k : VendoredCopies v} → VendoredLaws v k → Rel (Cell v) PtpProfileStruct
PtpProfileRel l b s c s' =
    (TextRel b s.name c s'.name)
    × (TextRel b s.interface c s'.interface)
    × (TextRel b s.ptp4l_opts c s'.ptp4l_opts)
    × (TextRel b s.phc2sys_opts c s'.phc2sys_opts)
    × (TextRel b s.ts2phc_opts c s'.ts2phc_opts)
    × (TextRel b s.synce4l_opts c s'.synce4l_opts)
    × (TextRel b s.ptp4l_conf c s'.ptp4l_conf)
    × (TextRel b s.phc2sys_conf c s'.phc2sys_conf)
    × (TextRel b s.ts2phc_conf c s'.ts2phc_conf)
    × (TextRel b s.synce4l_conf c s'.synce4l_conf)
    × (TextRel b s.ptp_scheduling_policy c s'.ptp_scheduling_policy)
    × (IntRel b s.ptp_scheduling_priority c s'.ptp_scheduling_priority)
    × (PtpClockThresholdPointerRel b s.ptp_clock_threshold c s'.ptp_clock_threshold)
    × (TextMapRel b s.ptp_settings c s'.ptp_settings)
    × (JsonMapRel l b s.plugins c s'.plugins)

ptp_profile_deep_copy_into-IsStable :
    {v : Vendored} {k : VendoredCopies v} (l : VendoredLaws v k) → IsStable (PtpProfileRel l)
ptp_profile_deep_copy_into-IsStable {k = k} l b c d s s' e h = (
  copy_text-IsDeepCopy.0 b c d s.name s'.name e h.0,
  copy_text-IsDeepCopy.0 b c d s.interface s'.interface e h.1,
  copy_text-IsDeepCopy.0 b c d s.ptp4l_opts s'.ptp4l_opts e h.2,
  copy_text-IsDeepCopy.0 b c d s.phc2sys_opts s'.phc2sys_opts e h.3,
  copy_text-IsDeepCopy.0 b c d s.ts2phc_opts s'.ts2phc_opts e h.4,
  copy_text-IsDeepCopy.0 b c d s.synce4l_opts s'.synce4l_opts e h.5,
  copy_text-IsDeepCopy.0 b c d s.ptp4l_conf s'.ptp4l_conf e h.6,
  copy_text-IsDeepCopy.0 b c d s.phc2sys_conf s'.phc2sys_conf e h.7,
  copy_text-IsDeepCopy.0 b c d s.ts2phc_conf s'.ts2phc_conf e h.8,
  copy_text-IsDeepCopy.0 b c d s.synce4l_conf s'.synce4l_conf e h.9,
  copy_text-IsDeepCopy.0 b c d s.ptp_scheduling_policy s'.ptp_scheduling_policy e h.10,
  copy_int-IsDeepCopy.0 b c d s.ptp_scheduling_priority s'.ptp_scheduling_priority e h.11,
  copy_ptp_clock_threshold-IsDeepCopy.0 b c d s.ptp_clock_threshold s'.ptp_clock_threshold e h.12,
  copy_text_map-IsDeepCopy.0 b c d s.ptp_settings s'.ptp_settings e h.13,
  (copy_json_map-IsDeepCopy l).0 b c d s.plugins s'.plugins e h.14,
)

ptp_profile_deep_copy_into-IsCopy :
    {v : Vendored} {k : VendoredCopies v} (l : VendoredLaws v k)
    → IsCopy (PtpProfileRel l) (ptp_profile_deep_copy_into k)
unfolding ptp_profile_deep_copy_into
ptp_profile_deep_copy_into-IsCopy {v = v} {k = k} l b n h s r i =
    Returns-map n h (ptp_profile_deep_copy_into k s) _ (PtpProfileRel l b s)
      (field copy_text _ _ copy_text-IsDeepCopy b n h s.name r i.0 λ name' h0 r0.
        field copy_text _ _ copy_text-IsDeepCopy b n h0 s.interface r0 i.1 λ interface' h1 r1.
          field copy_text _ _ copy_text-IsDeepCopy b n h1 s.ptp4l_opts r1 i.2 λ ptp4l_opts' h2 r2.
            field copy_text _ _ copy_text-IsDeepCopy b n h2 s.phc2sys_opts r2 i.3
              λ phc2sys_opts' h3 r3.
                field copy_text _ _ copy_text-IsDeepCopy b n h3 s.ts2phc_opts r3 i.4
                  λ ts2phc_opts' h4 r4.
                    field copy_text _ _ copy_text-IsDeepCopy b n h4 s.synce4l_opts r4 i.5
                      λ synce4l_opts' h5 r5.
                        field copy_text _ _ copy_text-IsDeepCopy b n h5 s.ptp4l_conf r5 i.6
                          λ ptp4l_conf' h6 r6.
                            field copy_text _ _ copy_text-IsDeepCopy b n h6 s.phc2sys_conf r6 i.7
                              λ phc2sys_conf' h7 r7.
                                field copy_text _ _ copy_text-IsDeepCopy b n h7 s.ts2phc_conf r7 i.8
                                  λ ts2phc_conf' h8 r8.
                                    field copy_text _ _ copy_text-IsDeepCopy b n h8 s.synce4l_conf
                                      r8 i.9
                                      λ synce4l_conf' h9 r9.
                                        field copy_text _ _ copy_text-IsDeepCopy b n h9
                                          s.ptp_scheduling_policy r9 i.10
                                          λ ptp_scheduling_policy' h10 r10.
                                            field copy_int _ _ copy_int-IsDeepCopy b n h10
                                              s.ptp_scheduling_priority r10 i.11
                                              λ ptp_scheduling_priority' h11 r11.
                                                field copy_ptp_clock_threshold _ _
                                                  copy_ptp_clock_threshold-IsDeepCopy b n h11
                                                  s.ptp_clock_threshold r11 i.12
                                                  λ ptp_clock_threshold' h12 r12.
                                                    field copy_text_map _ _ copy_text_map-IsDeepCopy
                                                      b n h12 s.ptp_settings r12 i.13
                                                      λ ptp_settings' h13 r13.
                                                        field (copy_json_map k) _ _
                                                          (copy_json_map-IsDeepCopy l) b n h13
                                                          s.plugins r13 i.14
                                                          λ plugins' h14 r14.
                                                            returned b n h14 _ r14)
      (λ c t q. rw q.2.2.2.2.2.2.2.2.2.2.2.2.2.2.2 (
        q.1, q.2.1, q.2.2.1, q.2.2.2.1, q.2.2.2.2.1, q.2.2.2.2.2.1, q.2.2.2.2.2.2.1,
        q.2.2.2.2.2.2.2.1, q.2.2.2.2.2.2.2.2.1, q.2.2.2.2.2.2.2.2.2.1, q.2.2.2.2.2.2.2.2.2.2.1,
        q.2.2.2.2.2.2.2.2.2.2.2.1, q.2.2.2.2.2.2.2.2.2.2.2.2.1, q.2.2.2.2.2.2.2.2.2.2.2.2.2.1,
        q.2.2.2.2.2.2.2.2.2.2.2.2.2.2.1,
      ))

pub ptp_profile_deep_copy_into-IsDeepCopy :
    {v : Vendored} {k : VendoredCopies v} (l : VendoredLaws v k)
    → IsDeepCopy (PtpProfileRel l) (ptp_profile_deep_copy_into k)
ptp_profile_deep_copy_into-IsDeepCopy l =
    (ptp_profile_deep_copy_into-IsStable l, ptp_profile_deep_copy_into-IsCopy l)
