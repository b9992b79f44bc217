-- ===== src/Apply/Unstructured.antt =====
-- The objects that package pkg/apply works on, which the Kubernetes libraries define: what their
-- getters return and what their setters do is a parameter.
use ptp_operator_upstream.Base.{Bool, ◌&&◌, Option, none, some, List, [], ◌≡◌, Result, ok}
use ptp_operator_upstream.Base.Int.{ℤ}
use ptp_operator_upstream.Base.Text.{Text, same}
use ptp_operator_upstream.Base.GoMap.{GoMap}

pub record GroupVersionKind : Type 0 where
  pub group : Text
  pub version : Text
  pub kind : Text

-- A nested field of an object: `v, found, err := NestedX(...)`.
pub data Nested (E A : Type 0) : Type 0 where
  found : A → Nested E A
  absent : Nested E A
  malformed : E → Nested E A

-- What the getters of an object return. A nil map is `none`. `T` is the type of the times, `V` that
-- of the JSON values and `E` that of the errors.
pub record View (E T V : Type 0) : Type 0 where
  pub gvk : GroupVersionKind
  pub name : Text
  pub namespace : Text
  pub creation_timestamp : T
  pub self_link : Text
  pub generation : ℤ
  pub uid : Text
  pub resource_version : Text
  pub annotations : Option (GoMap Text)
  pub labels : Option (GoMap Text)
  pub cluster_ip : Nested E Text
  pub secrets : Nested E (List V)
  pub image_pull_secrets : Nested E (List V)

-- The objects `O`, their setters, and that a setter changes the value of its own getter alone.
-- `SetNestedField` of "spec", "clusterIP" fails if "spec" is no map.
pub record Unstructured (O E T V : Type 0) : Type 0 where
  pub view : O → View E T V
  pub set_creation_timestamp : T → O → O
  pub set_self_link : Text → O → O
  pub set_generation : ℤ → O → O
  pub set_uid : Text → O → O
  pub set_resource_version : Text → O → O
  pub set_annotations : GoMap Text → O → O
  pub set_labels : GoMap Text → O → O
  pub set_cluster_ip : Text → O → Result E O
  pub set_secrets : List V → O → O
  pub set_image_pull_secrets : List V → O → O
  pub view-set_creation_timestamp :
      (x : T) (o : O)
      → view (set_creation_timestamp x o) ≡ record (view o) { creation_timestamp = x }
  pub view-set_self_link :
      (x : Text) (o : O) → view (set_self_link x o) ≡ record (view o) { self_link = x }
  pub view-set_generation :
      (x : ℤ) (o : O) → view (set_generation x o) ≡ record (view o) { generation = x }
  pub view-set_uid : (x : Text) (o : O) → view (set_uid x o) ≡ record (view o) { uid = x }
  pub view-set_resource_version :
      (x : Text) (o : O)
      → view (set_resource_version x o) ≡ record (view o) { resource_version = x }
  pub view-set_annotations :
      (x : GoMap Text) (o : O)
      → view (set_annotations x o) ≡ record (view o) { annotations = some x }
  pub view-set_labels :
      (x : GoMap Text) (o : O) → view (set_labels x o) ≡ record (view o) { labels = some x }
  pub view-set_cluster_ip :
      (x : Text) (o o' : O)
      → set_cluster_ip x o ≡ ok o'
      → view o' ≡ record (view o) { cluster_ip = found x }
  pub view-set_secrets :
      (x : List V) (o : O) → view (set_secrets x o) ≡ record (view o) { secrets = found x }
  pub view-set_image_pull_secrets :
      (x : List V) (o : O)
      → view (set_image_pull_secrets x o) ≡ record (view o) { image_pull_secrets = found x }

-- A nil map has no entries, and the code replaces it by an empty one before it writes.
abbrev pub or_empty : Option (GoMap Text) → GoMap Text
or_empty none = []
or_empty (some m) = m

-- `gvk.Group == group && gvk.Kind == kind`.
abbrev pub is_a : {E T V : Type 0} → Text → Text → View E T V → Bool
is_a group kind v = same v.gvk.group group && same v.gvk.kind kind
