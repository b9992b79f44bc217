-- ===== src/Api/DeepCopy/ResourceTests.antt =====
-- Runs of the deep copies of a PtpOperatorConfig and a NodePtpDevice, and their theorems at them.
use ptp_operator_upstream.Base.{true, false, inl, inr, none, some, List, [], ◌∷◌, refl}
use ptp_operator_upstream.Base.Text.{codes}
use ptp_operator_upstream.Api.DeepCopy.Memory.Pointers.{PointerRel}
use ptp_operator_upstream.Api.DeepCopy.Cells.{
  Cell, ptp_device_slice_cell, ptp_event_config_cell, text_map_cell, pointer_cell, pointer_map_cell,
  json_cell, hw_config_slice_cell, node_ptp_device_cell, ptp_operator_config_cell,
}
use ptp_operator_upstream.Api.DeepCopy.Cells.Structs.{
  ptp_operator_config_kind, ptp_operator_config_list_kind, node_ptp_device_kind,
  node_ptp_device_list_kind,
}
use ptp_operator_upstream.Api.DeepCopy.Copies.Operator.{
  ptp_operator_config_deep_copy_object, ptp_operator_config_list_deep_copy_object,
}
use ptp_operator_upstream.Api.DeepCopy.Copies.Device.{
  node_ptp_device_deep_copy_object, node_ptp_device_list_deep_copy_object,
}
use ptp_operator_upstream.Api.DeepCopy.Deep.Operator.{
  PtpOperatorConfigRel, PtpOperatorConfigListRel,
}
use ptp_operator_upstream.Api.DeepCopy.Deep.Device.{NodePtpDeviceRel, NodePtpDeviceListRel}
use ptp_operator_upstream.Api.DeepCopy.Deep.Apart.{IsCopiedApart}
use ptp_operator_upstream.Api.DeepCopy.Deep.DeviceApart.{
  node_ptp_device_deep_copy_object-IsCopiedApart,
}
use ptp_operator_upstream.Api.DeepCopy.Deep.OperatorApart.{
  ptp_operator_config_deep_copy_object-IsCopiedApart,
}
use ptp_operator_upstream.Api.DeepCopy.Tests.{
  labelled, labelled_copies, labelled_laws, memory_of, memory_of-IsHeap,
}

-- An operator configuration with a node selector, an event configuration and two plugins, the second
-- without settings.
abbrev operator_cells : List (Cell labelled)
operator_cells =
    ptp_operator_config_cell (record {
      type_meta = codes "PtpOperatorConfig";
      object_meta = none;
      spec = record {
        daemon_node_selector = some 1;
        event_config = some 2;
        enabled_plugins = some 3;
      };
      status = tt;
    })
    ∷ text_map_cell ((codes "node", codes "worker") ∷ [])
    ∷ ptp_event_config_cell (record {
      enable_event_publisher = true;
      transport_host = [];
      storage_type = [];
      api_version = codes "2.0";
    })
    ∷ pointer_cell (some 4)
    ∷ pointer_map_cell ((codes "e810", some 5) ∷ (codes "ntpfailover", none) ∷ [])
    ∷ json_cell (codes "{}")
    ∷ []

ptp_operator_config_deep_copy_object-IsCopiedApart_example :
    IsCopiedApart
      (PointerRel ptp_operator_config_kind (PtpOperatorConfigRel labelled_laws))
      (ptp_operator_config_deep_copy_object labelled_copies)
      (memory_of operator_cells)
      (some 0)
    × IsCopiedApart
        (PointerRel ptp_operator_config_list_kind (PtpOperatorConfigListRel labelled_laws))
        (ptp_operator_config_list_deep_copy_object labelled_copies)
        (memory_of operator_cells)
        none
ptp_operator_config_deep_copy_object-IsCopiedApart_example =
    ptp_operator_config_deep_copy_object-IsCopiedApart labelled_copies labelled_laws
      (memory_of operator_cells) (some 0) none (memory_of-IsHeap operator_cells)
      (
        _,
        refl,
        _,
        refl,
        (
          refl,
          tt,
          (
            (_, refl, _, refl, (((λ h. h), tt), (refl, refl, tt))),
            (_, refl, _, refl, refl),
            (
              _,
              refl,
              _,
              refl,
              (
                _,
                refl,
                _,
                refl,
                (
                  ((λ h. elim h [ inl e ↦ cc | inr f ↦ f ]), ((λ h. h), tt)),
                  (refl, (_, refl, _, refl, refl), (refl, tt, tt)),
                ),
              ),
            ),
          ),
          refl,
        ),
      )
      tt

-- A device whose hardware has settings.
abbrev device_cells : List (Cell labelled)
device_cells =
    node_ptp_device_cell (record {
      type_meta = codes "NodePtpDevice";
      object_meta = none;
      spec = tt;
      status = record { devices = some 1; hwconfig = some 2 };
    })
    ∷ ptp_device_slice_cell (record { name = codes "ens1f0"; profile = codes "bc" } ∷ [])
    ∷ hw_config_slice_cell (
        record {
          device_id = codes "1593";
          vendor_id = codes "8086";
          failed = false;
          status = [];
          config = some 3;
        }
        ∷ [])
    ∷ json_cell (codes "{}")
    ∷ []

node_ptp_device_deep_copy_object-IsCopiedApart_example :
    IsCopiedApart
      (PointerRel node_ptp_device_kind (NodePtpDeviceRel labelled_laws))
      (node_ptp_device_deep_copy_object labelled_copies)
      (memory_of device_cells)
      (some 0)
    × IsCopiedApart
        (PointerRel node_ptp_device_list_kind (NodePtpDeviceListRel labelled_laws))
        (node_ptp_device_list_deep_copy_object labelled_copies)
        (memory_of device_cells)
        none
node_ptp_device_deep_copy_object-IsCopiedApart_example =
    node_ptp_device_deep_copy_object-IsCopiedApart labelled_copies labelled_laws
      (memory_of device_cells) (some 0) none (memory_of-IsHeap device_cells)
      (
        _,
        refl,
        _,
        refl,
        (
          refl,
          tt,
          refl,
          (
            (_, refl, _, refl, (refl, tt)),
            (_, refl, _, refl, ((refl, refl, refl, refl, (_, refl, _, refl, refl)), tt)),
          ),
        ),
      )
      tt
