-- ===== src/Api/DeepCopy/Deep/OperatorApart.antt =====
-- The copies of a PtpOperatorConfig and of a list of them share no memory with the originals.
use ptp_operator_upstream.Api.DeepCopy.Memory.{Heap}
use ptp_operator_upstream.Api.DeepCopy.Memory.Rules.{IsHeap, IsDeepCopy}
use ptp_operator_upstream.Api.DeepCopy.Memory.Pointers.{PointerRel, copy_pointer-IsDeepCopy}
use ptp_operator_upstream.Api.DeepCopy.Types.{Pointer, Vendored}
use ptp_operator_upstream.Api.DeepCopy.Cells.{Cell}
use ptp_operator_upstream.Api.DeepCopy.Cells.Structs.{
  ptp_operator_config_kind, ptp_operator_config_list_kind,
}
use ptp_operator_upstream.Api.DeepCopy.Copies.{VendoredCopies}
use ptp_operator_upstream.Api.DeepCopy.Copies.Operator.{
  ptp_operator_config_deep_copy_into, ptp_operator_config_deep_copy,
  ptp_operator_config_deep_copy_object, ptp_operator_config_list_deep_copy_into,
  ptp_operator_config_list_deep_copy, ptp_operator_config_list_deep_copy_object,
}
use ptp_operator_upstream.Api.DeepCopy.Deep.{VendoredLaws}
use ptp_operator_upstream.Api.DeepCopy.Deep.Operator.{
  PtpOperatorConfigRel, ptp_operator_config_deep_copy_into-IsDeepCopy, PtpOperatorConfigListRel,
  ptp_operator_config_list_deep_copy_into-IsDeepCopy,
}
use ptp_operator_upstream.Api.DeepCopy.Deep.Apart.{IsCopiedApart, object-IsCopiedApart}

module _ {v : Vendored} (k : VendoredCopies v) (l : VendoredLaws v k) where
  ptp_operator_config_deep_copy-IsDeepCopy :
      IsDeepCopy
        (PointerRel ptp_operator_config_kind (PtpOperatorConfigRel l))
        (ptp_operator_config_deep_copy k)
  unfolding ptp_operator_config_deep_copy
  ptp_operator_config_deep_copy-IsDeepCopy =
      copy_pointer-IsDeepCopy ptp_operator_config_kind (λ s. s)
        (ptp_operator_config_deep_copy_into k) (PtpOperatorConfigRel l)
        (ptp_operator_config_deep_copy_into-IsDeepCopy l)

  ptp_operator_config-IsCopiedApart :
      (h : Heap (Cell v)) (p : Pointer)
      → IsHeap h
      → PointerRel ptp_operator_config_kind (PtpOperatorConfigRel l) h.cell p h.cell p
      → IsCopiedApart
          (PointerRel ptp_operator_config_kind (PtpOperatorConfigRel l))
          (ptp_operator_config_deep_copy_object k)
          h
          p
  unfolding ptp_operator_config_deep_copy_object
  ptp_operator_config-IsCopiedApart =
      object-IsCopiedApart (PointerRel ptp_operator_config_kind (PtpOperatorConfigRel l))
        (ptp_operator_config_deep_copy k) ptp_operator_config_deep_copy-IsDeepCopy

  ptp_operator_config_list_deep_copy-IsDeepCopy :
      IsDeepCopy
        (PointerRel ptp_operator_config_list_kind (PtpOperatorConfigListRel l))
        (ptp_operator_config_list_deep_copy k)
  unfolding ptp_operator_config_list_deep_copy
  ptp_operator_config_list_deep_copy-IsDeepCopy =
      copy_pointer-IsDeepCopy ptp_operator_config_list_kind (λ s. s)
        (ptp_operator_config_list_deep_copy_into k) (PtpOperatorConfigListRel l)
        (ptp_operator_config_list_deep_copy_into-IsDeepCopy l)

  ptp_operator_config_list-IsCopiedApart :
      (h : Heap (Cell v)) (p : Pointer)
      → IsHeap h
      → PointerRel ptp_operator_config_list_kind (PtpOperatorConfigListRel l) h.cell p h.cell p
      → IsCopiedApart
          (PointerRel ptp_operator_config_list_kind (PtpOperatorConfigListRel l))
          (ptp_operator_config_list_deep_copy_object k)
          h
          p
  unfolding ptp_operator_config_list_deep_copy_object
  ptp_operator_config_list-IsCopiedApart =
      object-IsCopiedApart (PointerRel ptp_operator_config_list_kind (PtpOperatorConfigListRel l))
        (ptp_operator_config_list_deep_copy k) ptp_operator_config_list_deep_copy-IsDeepCopy

-- If the memory is well formed, every pointer of a PtpOperatorConfig and of a list of them leads to a cell
-- of its type, and the copies of the vendored libraries are deep, then `DeepCopyObject` returns for
-- both: nil for nil, else a new object with the same content, without a change to the old cells. The
-- copy keeps its content whatever is written to the old cells later, and the original keeps its own
-- whatever is written to the new ones.
pub ptp_operator_config_deep_copy_object-IsCopiedApart :
    {v : Vendored} (k : VendoredCopies v) (l : VendoredLaws v k) (h : Heap (Cell v))
    (p ps : Pointer)
    → IsHeap h
    → PointerRel ptp_operator_config_kind (PtpOperatorConfigRel l) h.cell p h.cell p
    → PointerRel ptp_operator_config_list_kind (PtpOperatorConfigListRel l) h.cell ps h.cell ps
    → IsCopiedApart
        (PointerRel ptp_operator_config_kind (PtpOperatorConfigRel l))
        (ptp_operator_config_deep_copy_object k)
        h
        p
      × IsCopiedApart
          (PointerRel ptp_operator_config_list_kind (PtpOperatorConfigListRel l))
          (ptp_operator_config_list_deep_copy_object k)
          h
          ps
ptp_operator_config_deep_copy_object-IsCopiedApart k l h p ps empty intact intact_list = (
  ptp_operator_config-IsCopiedApart k l h p empty intact,
  ptp_operator_config_list-IsCopiedApart k l h ps empty intact_list,
)
