-- ===== src/Apply/Object.antt =====
-- `ApplyObject` of pkg/apply/apply.go: create an object or update it. The client of the cluster
-- and the semantic equality of objects are parameters; the cluster is an explicit state.
pub mod Applied
use ptp_operator_upstream.Base.{
  Bool, true, false, not, Option, none, some, List, [], Result, ok, fail, if◌then◌else◌, wrap,
}
use ptp_operator_upstream.Base.Text.{Text, same}
use ptp_operator_upstream.Base.GoMap.{MapRange}
use ptp_operator_upstream.Apply.Unstructured.{GroupVersionKind, View, Unstructured}
use ptp_operator_upstream.Apply.Merge.{Unsupported, is_object_supported, merge_object_for_update}

-- The answer to a `Get`: `IsNotFound` tells the second case from the third.
pub data Retrieved (E O : Type 0) : Type 0 where
  existing : O → Retrieved E O
  not_found : Retrieved E O
  get_failed : E → Retrieved E O

-- The client's calls on a cluster in a state `S`.
pub record Client (S O E : Type 0) : Type 0 where
  pub get : S → GroupVersionKind → Text → Text → Retrieved E O
  pub create : S → O → S × Option E
  pub update : S → O → S × Option E

pub data ApplyError (E : Type 0) : Type 0 where
  no_name : ApplyError E
  unsupported : Unsupported E → ApplyError E
  not_created not_retrieved not_merged not_updated : E → ApplyError E

module _ {S O E T V : Type 0} (u : Unstructured O E T V) (r : MapRange)
    (client : Client S O E) where
  module _ (deep_equal : O → O → Bool) where
    unfoldable pub update_if_changed : S → O → Result E O → S × Option (ApplyError E)
    update_if_changed s current (ok merged) =
        if not (deep_equal current merged)
        then wrap not_updated (client.update s merged)
        else (s, none)
    update_if_changed s current (fail e) = (s, some (not_merged e))

    -- What follows `Get`.
    unfoldable pub create_or_update : S → O → Retrieved E O → S × Option (ApplyError E)
    unfolding update_if_changed
    create_or_update s obj (existing current) =
        update_if_changed s current (merge_object_for_update u r current obj)
    create_or_update s obj not_found = wrap not_created (client.create s obj)
    create_or_update s obj (get_failed e) = (s, some (not_retrieved e))

    unfoldable pub apply_object : S → O → S × Option (ApplyError E)
    unfolding create_or_update
    apply_object s obj =
        let v = u.view obj in
        if same v.name [] then (s, some no_name) else elim (is_object_supported v) [
          | some reason ↦ (s, some (unsupported reason))
          | none ↦ create_or_update s obj (client.get s v.gvk v.name v.namespace)
        ]
