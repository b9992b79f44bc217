-- ===== src/Api/DeepCopy/Deep/DeviceApart.antt =====
-- The copies of a NodePtpDevice and of a list of them share no memory with the originals.
use ptp_operator_upstream.Api.DeepCopy.Memory.{Heap}
use ptp_operator_upstream.Api.DeepCopy.Memory.Rules.{IsHeap, IsDeepCopy}
use ptp_operator_upstream.Api.DeepCopy.Memory.Pointers.{PointerRel, copy_pointer-IsDeepCopy}
use ptp_operator_upstream.Api.DeepCopy.Types.{Pointer, Vendored}
use ptp_operator_upstream.Api.DeepCopy.Cells.{Cell}
use ptp_operator_upstream.Api.DeepCopy.Cells.Structs.{
  node_ptp_device_kind, node_ptp_device_list_kind,
}
use ptp_operator_upstream.Api.DeepCopy.Copies.{VendoredCopies}
use ptp_operator_upstream.Api.DeepCopy.Copies.Device.{
  node_ptp_device_deep_copy_into, node_ptp_device_deep_copy, node_ptp_device_deep_copy_object,
  node_ptp_device_list_deep_copy_into, node_ptp_device_list_deep_copy,
  node_ptp_device_list_deep_copy_object,
}
use ptp_operator_upstream.Api.DeepCopy.Deep.{VendoredLaws}
use ptp_operator_upstream.Api.DeepCopy.Deep.Device.{
  NodePtpDeviceRel, node_ptp_device_deep_copy_into-IsDeepCopy, NodePtpDeviceListRel,
  node_ptp_device_list_deep_copy_into-IsDeepCopy,
}
use ptp_operator_upstream.Api.DeepCopy.Deep.Apart.{IsCopiedApart, object-IsCopiedApart}

module _ {v : Vendored} (k : VendoredCopies v) (l : VendoredLaws v k) where
  node_ptp_device_deep_copy-IsDeepCopy :
      IsDeepCopy
        (PointerRel node_ptp_device_kind (NodePtpDeviceRel l))
        (node_ptp_device_deep_copy k)
  unfolding node_ptp_device_deep_copy
  node_ptp_device_deep_copy-IsDeepCopy =
      copy_pointer-IsDeepCopy node_ptp_device_kind (λ s. s) (node_ptp_device_deep_copy_into k)
        (NodePtpDeviceRel l) (node_ptp_device_deep_copy_into-IsDeepCopy l)

  node_ptp_device-IsCopiedApart :
      (h : Heap (Cell v)) (p : Pointer)
      → IsHeap h
      → PointerRel node_ptp_device_kind (NodePtpDeviceRel l) h.cell p h.cell p
      → IsCopiedApart
          (PointerRel node_ptp_device_kind (NodePtpDeviceRel l))
          (node_ptp_device_deep_copy_object k)
          h
          p
  unfolding node_ptp_device_deep_copy_object
  node_ptp_device-IsCopiedApart =
      object-IsCopiedApart (PointerRel node_ptp_device_kind (NodePtpDeviceRel l))
        (node_ptp_device_deep_copy k) node_ptp_device_deep_copy-IsDeepCopy

  node_ptp_device_list_deep_copy-IsDeepCopy :
      IsDeepCopy
        (PointerRel node_ptp_device_list_kind (NodePtpDeviceListRel l))
        (node_ptp_device_list_deep_copy k)
  unfolding node_ptp_device_list_deep_copy
  node_ptp_device_list_deep_copy-IsDeepCopy =
      copy_pointer-IsDeepCopy node_ptp_device_list_kind (λ s. s)
        (node_ptp_device_list_deep_copy_into k) (NodePtpDeviceListRel l)
        (node_ptp_device_list_deep_copy_into-IsDeepCopy l)

  node_ptp_device_list-IsCopiedApart :
      (h : Heap (Cell v)) (p : Pointer)
      → IsHeap h
      → PointerRel node_ptp_device_list_kind (NodePtpDeviceListRel l) h.cell p h.cell p
      → IsCopiedApart
          (PointerRel node_ptp_device_list_kind (NodePtpDeviceListRel l))
          (node_ptp_device_list_deep_copy_object k)
          h
          p
  unfolding node_ptp_device_list_deep_copy_object
  node_ptp_device_list-IsCopiedApart =
      object-IsCopiedApart (PointerRel node_ptp_device_list_kind (NodePtpDeviceListRel l))
        (node_ptp_device_list_deep_copy k) node_ptp_device_list_deep_copy-IsDeepCopy

-- If the memory is well formed, every pointer of a NodePtpDevice and of a list of them leads to a cell
-- of its type, and the copies of the vendored libraries are deep, then `DeepCopyObject` returns for
-- both: nil for nil, else a new object with the same content, without a change to the old cells. The
-- copy keeps its content whatever is written to the old cells later, and the original keeps its own
-- whatever is written to the new ones.
pub node_ptp_device_deep_copy_object-IsCopiedApart :
    {v : Vendored} (k : VendoredCopies v) (l : VendoredLaws v k) (h : Heap (Cell v))
    (p ps : Pointer)
    → IsHeap h
    → PointerRel node_ptp_device_kind (NodePtpDeviceRel l) h.cell p h.cell p
    → PointerRel node_ptp_device_list_kind (NodePtpDeviceListRel l) h.cell ps h.cell ps
    → IsCopiedApart
        (PointerRel node_ptp_device_kind (NodePtpDeviceRel l))
        (node_ptp_device_deep_copy_object k)
        h
        p
      × IsCopiedApart
          (PointerRel node_ptp_device_list_kind (NodePtpDeviceListRel l))
          (node_ptp_device_list_deep_copy_object k)
          h
          ps
node_ptp_device_deep_copy_object-IsCopiedApart k l h p ps empty intact intact_list = (
  node_ptp_device-IsCopiedApart k l h p empty intact,
  node_ptp_device_list-IsCopiedApart k l h ps empty intact_list,
)
