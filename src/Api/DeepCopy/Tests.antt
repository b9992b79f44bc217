-- ===== src/Api/DeepCopy/Tests.antt =====
-- A run of the deep copy of a PtpConfig, and its theorem at it; the memories of the runs.
use ptp_operator_upstream.Base.{
  zero, suc, length, ℕ, Option, none, some, List, [], ◌∷◌, ◌≡◌, refl, arith,
}
use ptp_operator_upstream.Base.Text.{Text, codes}
use ptp_operator_upstream.Api.DeepCopy.Memory.{Heap}
use ptp_operator_upstream.Api.DeepCopy.Memory.Rules.{IsHeap}
use ptp_operator_upstream.Api.DeepCopy.Memory.Pointers.{PointerRel}
use ptp_operator_upstream.Api.DeepCopy.Memory.Elements.{PlainRel, pure-IsDeepCopy}
use ptp_operator_upstream.Api.DeepCopy.Types.{Vendored, Pointer, PtpConfigStruct, PtpProfileStruct}
use ptp_operator_upstream.Api.DeepCopy.Cells.{
  Cell, ptp_config_list_cell, ptp_config_slice_cell, text_cell, text_map_cell,
  ptp_profile_slice_cell, ptp_config_cell,
}
use ptp_operator_upstream.Api.DeepCopy.Cells.Structs.{ptp_config_kind, ptp_config_list_kind}
use ptp_operator_upstream.Api.DeepCopy.Copies.{VendoredCopies, copy_text_map}
use ptp_operator_upstream.Api.DeepCopy.Copies.Config.{
  ptp_config_deep_copy_object, ptp_config_list_deep_copy_object,
}
use ptp_operator_upstream.Api.DeepCopy.Deep.{VendoredLaws, TextMapRel, copy_text_map-IsDeepCopy}
use ptp_operator_upstream.Api.DeepCopy.Deep.Config.{PtpConfigRel, PtpConfigListRel}
use ptp_operator_upstream.Api.DeepCopy.Deep.Apart.{IsCopiedApart}
use ptp_operator_upstream.Api.DeepCopy.Deep.ConfigApart.{ptp_config_deep_copy_object-IsCopiedApart}

-- The metadata of an object is its labels; a JSON value is its text.
abbrev pub labelled : Vendored
labelled = record { type_meta = Text; object_meta = Pointer; list_meta = Text; json = Text }

abbrev pub Memory : Type 0
Memory = Heap (Cell labelled)

abbrev pub labelled_copies : VendoredCopies labelled
labelled_copies = record {
  json_deep_copy_into = λ a h. some (a, h);
  object_meta_deep_copy_into = copy_text_map;
  list_meta_deep_copy_into = λ a h. some (a, h);
}

abbrev pub labelled_laws : VendoredLaws labelled labelled_copies
labelled_laws = record {
  json_rel = PlainRel;
  json_deep = pure-IsDeepCopy;
  object_meta_rel = TextMapRel;
  object_meta_deep = copy_text_map-IsDeepCopy;
  list_meta_rel = PlainRel;
  list_meta_deep = pure-IsDeepCopy;
}

abbrev named_profile : Pointer → PtpProfileStruct
named_profile p = record {
  name = p;
  interface = none;
  ptp4l_opts = none;
  phc2sys_opts = none;
  ts2phc_opts = none;
  synce4l_opts = none;
  ptp4l_conf = none;
  phc2sys_conf = none;
  ts2phc_conf = none;
  synce4l_conf = none;
  ptp_scheduling_policy = none;
  ptp_scheduling_priority = none;
  ptp_clock_threshold = none;
  ptp_settings = none;
  plugins = none;
}

abbrev one_profile : Pointer → Pointer → PtpConfigStruct labelled
one_profile labels profiles = record {
  type_meta = codes "PtpConfig";
  object_meta = labels;
  spec = record { profile = profiles; recommend = none };
  status = record { match_list = none };
}

abbrev cells_of : List (Cell labelled) → ℕ → Option (Cell labelled)
cells_of [] p = none
cells_of (x ∷ l) zero = some x
cells_of (x ∷ l) (suc p) = cells_of l p

-- A memory with these cells at the addresses from zero on.
abbrev pub memory_of : List (Cell labelled) → Memory
memory_of l = record { next = length l; cell = cells_of l }

pub memory_of-IsHeap : (l : List (Cell labelled)) → IsHeap (memory_of l)
memory_of-IsHeap [] p h = refl
memory_of-IsHeap (x ∷ l) zero h = absurd (omega arith)
memory_of-IsHeap (x ∷ l) (suc p) h = memory_of-IsHeap l p (omega arith)

-- A PtpConfig with a label and one profile, whose name is a pointer, and a list that holds it.
abbrev config_cells : List (Cell labelled)
config_cells =
    ptp_config_cell (one_profile (some 1) (some 2))
    ∷ text_map_cell ((codes "app", codes "ptp") ∷ [])
    ∷ ptp_profile_slice_cell (named_profile (some 3) ∷ [])
    ∷ text_cell (codes "grandmaster")
    ∷ ptp_config_list_cell
        (record { type_meta = codes "PtpConfigList"; list_meta = codes "7"; items = some 5 })
    ∷ ptp_config_slice_cell (one_profile (some 1) (some 2) ∷ [])
    ∷ []

abbrev config_memory : Memory
config_memory = memory_of config_cells

-- The copy of the configuration.
abbrev copied_cells : ℕ → Option (Cell labelled)
copied_cells p = elim (ptp_config_deep_copy_object labelled_copies (some 0) config_memory) [
  | none ↦ none
  | some (o, h) ↦ h.cell p
]

copies_the_name : copied_cells 9 ≡ some (text_cell (codes "grandmaster"))
unfolding ptp_config_deep_copy_object
copies_the_name = refl

config_content :
    PtpConfigRel labelled_laws config_memory.cell
      (one_profile (some 1) (some 2))
      config_memory.cell
      (one_profile (some 1) (some 2))
config_content = (
  refl,
  (_, refl, _, refl, (((λ h. h), tt), (refl, refl, tt))),
  (
    (
      _,
      refl,
      _,
      refl,
      (((_, refl, _, refl, refl), tt, tt, tt, tt, tt, tt, tt, tt, tt, tt, tt, tt, tt, tt), tt),
    ),
    tt,
  ),
  tt,
)

ptp_config_deep_copy_object-IsCopiedApart_example :
    IsCopiedApart
      (PointerRel ptp_config_kind (PtpConfigRel labelled_laws))
      (ptp_config_deep_copy_object labelled_copies)
      config_memory
      (some 0)
    × IsCopiedApart
        (PointerRel ptp_config_list_kind (PtpConfigListRel labelled_laws))
        (ptp_config_list_deep_copy_object labelled_copies)
        config_memory
        (some 4)
ptp_config_deep_copy_object-IsCopiedApart_example =
    ptp_config_deep_copy_object-IsCopiedApart labelled_copies labelled_laws config_memory (some 0)
      (some 4) (memory_of-IsHeap config_cells) (_, refl, _, refl, config_content)
      (_, refl, _, refl, (refl, refl, (_, refl, _, refl, (config_content, tt))))
