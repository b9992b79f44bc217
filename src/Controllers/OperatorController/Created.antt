-- ===== src/Controllers/OperatorController/Created.antt =====
-- What the steps of a reconciliation of the operator create and keep.
use ptp_operator_upstream.Base.{
  Option, none, some, List, [], ◌∷◌, ◌≡◌, inl, inr, refl, ap, subst, ok, ok-or-fail, wrap-none,
  some-error≢none, All,
}
use ptp_operator_upstream.Base.Text.{Text}
use ptp_operator_upstream.Base.GoMap.{GoMap}
use ptp_operator_upstream.Api.OperatorConfig.{PtpOperatorConfig}
use ptp_operator_upstream.Apply.Object.{Retrieved, existing, not_found, get_failed}
use ptp_operator_upstream.Controllers.Recommend.{Node}
use ptp_operator_upstream.Controllers.OperatorController.Steps.{
  device_not_created, device_not_retrieved, map_not_created, map_not_owned, map_not_retrieved,
  OperatorCluster, ◌and_then◌, create_if_missing, sync_node_ptp_device, create_owned_map,
  create_config_map,
}

pub and_then-none :
    {S F : Type 0} (p : S × Option F) (f : S → S × Option F) (s' : S)
    → (p and_then f) ≡ (s', none)
    → (s1 : S) × (p ≡ (s1, none)) × (f s1 ≡ (s', none))
and_then-none (s, none) f s' h = (s, refl, h)
and_then-none (s, some e) f s' h = absurd (some-error≢none s s' e h)

module _ {S N M E : Type 0} (k : OperatorCluster S N M E) where
  abbrev pub HasDevice : S → Text → Type 0
  HasDevice s name = (device : N) × (k.get_device s name ≡ existing device)

  abbrev pub HasMap : S → Text → Type 0
  HasMap s name = (m : GoMap Text) × (k.get_map s name ≡ existing m)

  -- The second state still has the devices of the first, and its config maps as they were.
  abbrev pub Keeps : S → S → Type 0
  Keeps s s' =
      ((name : Text) → HasDevice s name → HasDevice s' name)
      × ((name : Text) (m : GoMap Text)
          → k.get_map s name ≡ existing m
          → k.get_map s' name ≡ existing m)

  Keeps-refl : (s : S) → Keeps s s
  Keeps-refl s = ((λ name h. h), (λ name m h. h))

  pub Keeps-trans : (a b c : S) → Keeps a b → Keeps b c → Keeps a c
  Keeps-trans a b c p q =
      ((λ name h. q.0 name (p.0 name h)), (λ name m h. q.1 name m (p.1 name m h)))

  pub Keeps-map : (s s' : S) (name : Text) → Keeps s s' → HasMap s name → HasMap s' name
  Keeps-map s s' name p (m, h) = (m, p.1 name m h)

-- What is relied on of the cluster: what is created is there, and what else there was stays.
pub record Creates {S N M E : Type 0} (k : OperatorCluster S N M E) : Type 0 where
  pub device_created :
      (s s' : S) (name : Text) → k.create_device s name ≡ (s', none) → HasDevice k s' name
  pub device_keeps : (s s' : S) (name : Text) → k.create_device s name ≡ (s', none) → Keeps k s s'
  pub map_created :
      (s s' : S) (config : PtpOperatorConfig) (name : Text) (content : GoMap Text) (m : M)
      → k.own_map config (k.new_map name content) ≡ ok m
      → k.create_map s m ≡ (s', none)
      → k.get_map s' name ≡ existing content
  pub map_keeps : (s s' : S) (m : M) → k.create_map s m ≡ (s', none) → Keeps k s s'

module _ {S N M E : Type 0} (k : OperatorCluster S N M E) (laws : Creates k) where
  create_if_missing-HasDevice :
      (s s' : S) (name : Text) (got : Retrieved E N)
      → k.get_device s name ≡ got
      → create_if_missing k s name got ≡ (s', none)
      → HasDevice k s' name × Keeps k s s'
  unfolding create_if_missing
  create_if_missing-HasDevice s s' name (existing device) g h =
      subst (λ t. HasDevice k t name × Keeps k s t) (ap (λ p. p.0) h) ((device, g), Keeps-refl k s)
  create_if_missing-HasDevice s s' name not_found g h =
      let made = wrap-none device_not_created (k.create_device s name) s' h in
      (laws.device_created s s' name made, laws.device_keeps s s' name made)
  create_if_missing-HasDevice s s' name (get_failed e) g h =
      absurd (some-error≢none s s' (device_not_retrieved e) h)

  pub sync_node_ptp_device-HasDevice :
      (s s' : S) (nodes : List Node)
      → sync_node_ptp_device k s nodes ≡ (s', none)
      → All (λ node. HasDevice k s' node.name) nodes × Keeps k s s'
  unfolding sync_node_ptp_device
  sync_node_ptp_device-HasDevice s s' [] h =
      (tt, subst (λ t. Keeps k s t) (ap (λ p. p.0) h) (Keeps-refl k s))
  sync_node_ptp_device-HasDevice s s' (node ∷ nodes) h =
      let (s1, first, rest) =
        and_then-none (create_if_missing k s node.name (k.get_device s node.name))
          (λ t. sync_node_ptp_device k t nodes) s' h in
      let (has, keeps) =
        create_if_missing-HasDevice s s1 node.name (k.get_device s node.name) refl first in
      let (others, later) = sync_node_ptp_device-HasDevice s1 s' nodes rest in
      ((later.0 node.name has, others), Keeps-trans k s s1 s' keeps later)

  pub create_config_map-HasMap :
      (config : PtpOperatorConfig) (name : Text) (s s' : S) (got : Retrieved E (GoMap Text))
      → k.get_map s name ≡ got
      → create_config_map k config name s got ≡ (s', none)
      → HasMap k s' name × Keeps k s s'
  unfolding create_config_map create_owned_map
  create_config_map-HasMap config name s s' (existing m) g h =
      subst (λ t. HasMap k t name × Keeps k s t) (ap (λ p. p.0) h) ((m, g), Keeps-refl k s)
  create_config_map-HasMap config name s s' not_found g h =
      elim (ok-or-fail (k.own_map config (k.new_map name []))) [
        | inr (e, f) ↦
            absurd (some-error≢none s s' (map_not_owned e) (rw (create_owned_map, f) at h))
        | inl (m, f) ↦
            let made =
              wrap-none map_not_created (k.create_map s m) s' (rw (create_owned_map, f) at h) in
            (([], laws.map_created s s' config name [] m f made), laws.map_keeps s s' m made)
      ]
  create_config_map-HasMap config name s s' (get_failed e) g h =
      absurd (some-error≢none s s' (map_not_retrieved e) h)
