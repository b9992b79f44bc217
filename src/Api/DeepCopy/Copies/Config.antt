-- ===== src/Api/DeepCopy/Copies/Config.antt =====
-- The generated copies of PtpConfig and of the structures in it, of api/v1/zz_generated.deepcopy.go.
use ptp_operator_upstream.Api.DeepCopy.Memory.{M, pure, ◌>>=◌, copy_pointer, copy_slice}
use ptp_operator_upstream.Api.DeepCopy.Types.{
  Pointer, Vendored, PtpConfigStruct, PtpConfigListStruct, PtpConfigSpecStruct,
  PtpConfigStatusStruct,
}
use ptp_operator_upstream.Api.DeepCopy.Cells.{
  Cell, node_match_list_slice_kind, ptp_profile_slice_kind, ptp_recommend_slice_kind,
  ptp_config_slice_kind,
}
use ptp_operator_upstream.Api.DeepCopy.Cells.Structs.{
  ptp_config_kind, ptp_config_list_kind, ptp_config_spec_kind, ptp_config_status_kind,
}
use ptp_operator_upstream.Api.DeepCopy.Copies.{VendoredCopies, RuntimeObject, as_object}
use ptp_operator_upstream.Api.DeepCopy.Copies.Profile.{
  node_match_list_deep_copy_into, ptp_profile_deep_copy_into, ptp_recommend_deep_copy_into,
}

unfoldable pub ptp_config_spec_deep_copy_into :
    {v : Vendored} → VendoredCopies v → PtpConfigSpecStruct → M (Cell v) PtpConfigSpecStruct
unfolding copy_slice ptp_profile_deep_copy_into ptp_recommend_deep_copy_into
ptp_config_spec_deep_copy_into k s = do
  profile' ← copy_slice ptp_profile_slice_kind (ptp_profile_deep_copy_into k) s.profile
  recommend' ← copy_slice ptp_recommend_slice_kind ptp_recommend_deep_copy_into s.recommend
  pure (record { profile = profile'; recommend = recommend' })

unfoldable ptp_config_spec_deep_copy :
    {v : Vendored} → VendoredCopies v → Pointer → M (Cell v) Pointer
unfolding copy_pointer ptp_config_spec_deep_copy_into
ptp_config_spec_deep_copy k =
    copy_pointer ptp_config_spec_kind (λ s. s) (ptp_config_spec_deep_copy_into k)

unfoldable pub ptp_config_status_deep_copy_into :
    {v : Vendored} → PtpConfigStatusStruct → M (Cell v) PtpConfigStatusStruct
unfolding copy_slice node_match_list_deep_copy_into
ptp_config_status_deep_copy_into s = do
  match_list' ← copy_slice node_match_list_slice_kind node_match_list_deep_copy_into s.match_list
  pure (record { match_list = match_list' })

unfoldable ptp_config_status_deep_copy : {v : Vendored} → Pointer → M (Cell v) Pointer
unfolding copy_pointer ptp_config_status_deep_copy_into
ptp_config_status_deep_copy =
    copy_pointer ptp_config_status_kind (λ s. s) ptp_config_status_deep_copy_into

unfoldable pub ptp_config_deep_copy_into :
    {v : Vendored} → VendoredCopies v → PtpConfigStruct v → M (Cell v) (PtpConfigStruct v)
unfolding ptp_config_spec_deep_copy_into ptp_config_status_deep_copy_into
ptp_config_deep_copy_into k s = do
  object_meta' ← k.object_meta_deep_copy_into s.object_meta
  spec' ← ptp_config_spec_deep_copy_into k s.spec
  status' ← ptp_config_status_deep_copy_into s.status
  pure (record {
    type_meta = s.type_meta;
    object_meta = object_meta';
    spec = spec';
    status = status';
  })

unfoldable pub ptp_config_deep_copy :
    {v : Vendored} → VendoredCopies v → Pointer → M (Cell v) Pointer
unfolding copy_pointer ptp_config_deep_copy_into
ptp_config_deep_copy k = copy_pointer ptp_config_kind (λ s. s) (ptp_config_deep_copy_into k)

unfoldable pub ptp_config_deep_copy_object :
    {v : Vendored} → VendoredCopies v → Pointer → M (Cell v) RuntimeObject
unfolding ptp_config_deep_copy as_object
ptp_config_deep_copy_object k p = do c ← ptp_config_deep_copy k p; pure (as_object c)

unfoldable pub ptp_config_list_deep_copy_into :
    {v : Vendored} → VendoredCopies v → PtpConfigListStruct v → M (Cell v) (PtpConfigListStruct v)
unfolding copy_slice ptp_config_deep_copy_into
ptp_config_list_deep_copy_into k s = do
  list_meta' ← k.list_meta_deep_copy_into s.list_meta
  items' ← copy_slice ptp_config_slice_kind (ptp_config_deep_copy_into k) s.items
  pure (record { type_meta = s.type_meta; list_meta = list_meta'; items = items' })

unfoldable pub ptp_config_list_deep_copy :
    {v : Vendored} → VendoredCopies v → Pointer → M (Cell v) Pointer
unfolding copy_pointer ptp_config_list_deep_copy_into
ptp_config_list_deep_copy k =
    copy_pointer ptp_config_list_kind (λ s. s) (ptp_config_list_deep_copy_into k)

unfoldable pub ptp_config_list_deep_copy_object :
    {v : Vendored} → VendoredCopies v → Pointer → M (Cell v) RuntimeObject
unfolding ptp_config_list_deep_copy as_object
ptp_config_list_deep_copy_object k p = do c ← ptp_config_list_deep_copy k p; pure (as_object c)
