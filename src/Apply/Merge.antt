-- ===== src/Apply/Merge.antt =====
-- pkg/apply/merge.go: what of the current object a desired one keeps. The functions return the
-- updated object that the source changes in place; the order of a `range` over a map is that of `r`.
pub mod Fields
pub mod Kept
use ptp_operator_upstream.Base.{
  Bool, true, false, Option, none, some, List, [], ◌∷◌, ◌≡◌, Result, ok, fail, ◌then◌, ltb, length,
  if◌then◌else◌,
}
use ptp_operator_upstream.Base.Text.{Text, codes}
use ptp_operator_upstream.Base.GoMap.{GoMap, lookup, put, MapRange}
use ptp_operator_upstream.Apply.Unstructured.{
  Nested, found, absent, malformed, View, Unstructured, or_empty, is_a,
}

-- `for k, v := range updated { current[k] = v }`.
unfoldable pub overlay : GoMap Text → GoMap Text → GoMap Text
overlay current [] = current
overlay current ((k, v) ∷ updated) = overlay (put k v current) updated

abbrev pub deployment_revision_annotation : Text
deployment_revision_annotation = codes "deployment.kubernetes.io/revision"

-- The revision that the current object has, if it has one, over that of the updated object.
unfoldable pub keep_revision : Option Text → GoMap Text → GoMap Text
keep_revision none annotations = annotations
keep_revision (some revision) annotations = put deployment_revision_annotation revision annotations

module _ {O E T V : Type 0} (u : Unstructured O E T V) (r : MapRange) where
  unfoldable pub merge_annotations : O → O → O
  merge_annotations current updated =
      let merged =
        overlay (or_empty (u.view current).annotations)
          (r.range Text (or_empty (u.view updated).annotations)) in
      u.set_annotations merged updated

  unfoldable pub merge_labels : O → O → O
  merge_labels current updated =
      let merged =
        overlay (or_empty (u.view current).labels)
          (r.range Text (or_empty (u.view updated).labels)) in
      u.set_labels merged updated

  -- The five read-only fields, then the annotations and the labels.
  unfoldable pub copy_read_only : O → O → O
  copy_read_only current updated = u.set_resource_version (u.view current).resource_version (
      u.set_uid (u.view current).uid (
        u.set_generation (u.view current).generation (
          u.set_self_link (u.view current).self_link
            (u.set_creation_timestamp (u.view current).creation_timestamp updated))))

  unfoldable pub merge_metadata_for_update : O → O → O
  merge_metadata_for_update current updated =
      merge_labels current (merge_annotations current (copy_read_only current updated))

module _ {O E T V : Type 0} (u : Unstructured O E T V) where
  unfoldable pub merge_deployment_for_update : O → O → O
  merge_deployment_for_update current updated =
      if is_a (codes "apps") (codes "Deployment") (u.view updated)
      then u.set_annotations
          (keep_revision
            (lookup deployment_revision_annotation (or_empty (u.view current).annotations))
            (or_empty (u.view updated).annotations))
          updated
      else updated

  unfoldable pub copy_cluster_ip : Nested E Text → O → Result E O
  copy_cluster_ip (found ip) updated = u.set_cluster_ip ip updated
  copy_cluster_ip absent updated = ok updated
  copy_cluster_ip (malformed e) updated = fail e

  unfoldable pub merge_service_for_update : O → O → Result E O
  merge_service_for_update current updated =
      if is_a [] (codes "Service") (u.view updated)
      then copy_cluster_ip (u.view current).cluster_ip updated
      else ok updated

  -- `if err != nil { return err }; if ok { SetNestedField(...) }`, with the setter as argument.
  unfoldable pub copy_secrets : (List V → O → O) → Nested E (List V) → O → Result E O
  copy_secrets set (found secrets) updated = ok (set secrets updated)
  copy_secrets set absent updated = ok updated
  copy_secrets set (malformed e) updated = fail e

  unfoldable pub merge_service_account_for_update : O → O → Result E O
  merge_service_account_for_update current updated =
      if is_a [] (codes "ServiceAccount") (u.view updated)
      then copy_secrets u.set_secrets (u.view current).secrets updated
      then copy_secrets u.set_image_pull_secrets (u.view current).image_pull_secrets
      else ok updated

module _ {O E T V : Type 0} (u : Unstructured O E T V) (r : MapRange) where
  unfoldable pub merge_object_for_update : O → O → Result E O
  merge_object_for_update current updated =
      (merge_service_for_update u current (merge_deployment_for_update u current updated)
        then merge_service_account_for_update u current)
      then λ merged. ok (merge_metadata_for_update u r current merged)

-- Why `IsObjectSupported` rejects an object.
pub data Unsupported (E : Type 0) : Type 0 where
  service_account_with_secrets : Unsupported E
  malformed_secrets : E → Unsupported E

unfoldable pub check_secrets : {E V : Type 0} → Nested E (List V) → Option (Unsupported E)
check_secrets (found secrets) =
    if ltb 0 (length secrets) then some service_account_with_secrets else none
check_secrets absent = none
check_secrets (malformed e) = some (malformed_secrets e)

unfoldable pub is_object_supported : {E T V : Type 0} → View E T V → Option (Unsupported E)
is_object_supported v = if is_a [] (codes "ServiceAccount") v then check_secrets v.secrets else none
