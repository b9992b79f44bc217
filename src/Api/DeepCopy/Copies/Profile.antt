-- ===== src/Api/DeepCopy/Copies/Profile.antt =====
-- The generated copies of PtpProfile and PtpRecommend and of the structures in it, of api/v1/zz_generated.deepcopy.go.
use ptp_operator_upstream.Api.DeepCopy.Memory.{M, pure, ◌>>=◌, copy_pointer, copy_slice}
use ptp_operator_upstream.Api.DeepCopy.Types.{
  Pointer, Vendored, MatchRuleStruct, NodeMatchListStruct, PtpProfileStruct, PtpRecommendStruct,
}
use ptp_operator_upstream.Api.DeepCopy.Cells.{Cell, match_rule_slice_kind}
use ptp_operator_upstream.Api.DeepCopy.Cells.Structs.{
  match_rule_kind, node_match_list_kind, ptp_clock_threshold_kind, ptp_profile_kind,
  ptp_recommend_kind,
}
use ptp_operator_upstream.Api.DeepCopy.Copies.{
  VendoredCopies, copy_text, copy_int, copy_ptp_clock_threshold, copy_text_map, copy_json_map,
}

unfoldable ptp_clock_threshold_deep_copy : {v : Vendored} → Pointer → M (Cell v) Pointer
unfolding copy_pointer
ptp_clock_threshold_deep_copy = copy_pointer ptp_clock_threshold_kind (λ s. s) pure

unfoldable pub match_rule_deep_copy_into :
    {v : Vendored} → MatchRuleStruct → M (Cell v) MatchRuleStruct
unfolding copy_text
match_rule_deep_copy_into s = do
  node_label' ← copy_text s.node_label
  node_name' ← copy_text s.node_name
  pure (record { node_label = node_label'; node_name = node_name' })

unfoldable match_rule_deep_copy : {v : Vendored} → Pointer → M (Cell v) Pointer
unfolding copy_pointer match_rule_deep_copy_into
match_rule_deep_copy = copy_pointer match_rule_kind (λ s. s) match_rule_deep_copy_into

unfoldable pub node_match_list_deep_copy_into :
    {v : Vendored} → NodeMatchListStruct → M (Cell v) NodeMatchListStruct
unfolding copy_text
node_match_list_deep_copy_into s = do
  node_name' ← copy_text s.node_name
  profile' ← copy_text s.profile
  pure (record { node_name = node_name'; profile = profile' })

unfoldable node_match_list_deep_copy : {v : Vendored} → Pointer → M (Cell v) Pointer
unfolding copy_pointer node_match_list_deep_copy_into
node_match_list_deep_copy =
    copy_pointer node_match_list_kind (λ s. s) node_match_list_deep_copy_into

unfoldable pub ptp_profile_deep_copy_into :
    {v : Vendored} → VendoredCopies v → PtpProfileStruct → M (Cell v) PtpProfileStruct
unfolding copy_int copy_json_map copy_ptp_clock_threshold copy_text copy_text_map
ptp_profile_deep_copy_into k s = do
  name' ← copy_text s.name
  interface' ← copy_text s.interface
  ptp4l_opts' ← copy_text s.ptp4l_opts
  phc2sys_opts' ← copy_text s.phc2sys_opts
  ts2phc_opts' ← copy_text s.ts2phc_opts
  synce4l_opts' ← copy_text s.synce4l_opts
  ptp4l_conf' ← copy_text s.ptp4l_conf
  phc2sys_conf' ← copy_text s.phc2sys_conf
  ts2phc_conf' ← copy_text s.ts2phc_conf
  synce4l_conf' ← copy_text s.synce4l_conf
  ptp_scheduling_policy' ← copy_text s.ptp_scheduling_policy
  ptp_scheduling_priority' ← copy_int s.ptp_scheduling_priority
  ptp_clock_threshold' ← copy_ptp_clock_threshold s.ptp_clock_threshold
  ptp_settings' ← copy_text_map s.ptp_settings
  plugins' ← copy_json_map k s.plugins
  pure (record {
    name = name';
    interface = interface';
    ptp4l_opts = ptp4l_opts';
    phc2sys_opts = phc2sys_opts';
    ts2phc_opts = ts2phc_opts';
    synce4l_opts = synce4l_opts';
    ptp4l_conf = ptp4l_conf';
    phc2sys_conf = phc2sys_conf';
    ts2phc_conf = ts2phc_conf';
    synce4l_conf = synce4l_conf';
    ptp_scheduling_policy = ptp_scheduling_policy';
    ptp_scheduling_priority = ptp_scheduling_priority';
    ptp_clock_threshold = ptp_clock_threshold';
    ptp_settings = ptp_settings';
    plugins = plugins';
  })

unfoldable ptp_profile_deep_copy : {v : Vendored} → VendoredCopies v → Pointer → M (Cell v) Pointer
unfolding copy_pointer ptp_profile_deep_copy_into
ptp_profile_deep_copy k = copy_pointer ptp_profile_kind (λ s. s) (ptp_profile_deep_copy_into k)

unfoldable pub ptp_recommend_deep_copy_into :
    {v : Vendored} → PtpRecommendStruct → M (Cell v) PtpRecommendStruct
unfolding copy_int copy_slice copy_text match_rule_deep_copy_into
ptp_recommend_deep_copy_into s = do
  profile' ← copy_text s.profile
  priority' ← copy_int s.priority
  match_rules' ← copy_slice match_rule_slice_kind match_rule_deep_copy_into s.match_rules
  pure (record { profile = profile'; priority = priority'; match_rules = match_rules' })

unfoldable ptp_recommend_deep_copy : {v : Vendored} → Pointer → M (Cell v) Pointer
unfolding copy_pointer ptp_recommend_deep_copy_into
ptp_recommend_deep_copy = copy_pointer ptp_recommend_kind (λ s. s) ptp_recommend_deep_copy_into
