-- ===== src/Controllers/OperatorTests.antt =====
-- Runs of the reconciler of controllers/ptpoperatorconfig_controller.go, and its theorems at them.
use ptp_operator_upstream.Base.{
  Option, none, some, List, [], ◌∷◌, ◌≡◌, inl, inr, refl, sym, ap, subst, Result, ok, ok-injective,
  some-error≢none, arith, Bool-cases, Option-cases,
}
use ptp_operator_upstream.Base.Text.{Text, codes, same, same_iff, same_refl, trim_space}
use ptp_operator_upstream.Base.GoMap.{GoMap, lookup, put, lookup-put, insertion_order}
use ptp_operator_upstream.Api.OperatorConfig.{PtpOperatorConfig}
use ptp_operator_upstream.Apply.Merge.{is_object_supported}
use ptp_operator_upstream.Apply.Object.{
  Retrieved, existing, not_found, Client, create_or_update, apply_object,
}
use ptp_operator_upstream.Apply.Tests.{Object, plain_objects, daemon, differ}
use ptp_operator_upstream.Render.{Engine, decode_all, decode_rendered, render_template}
use ptp_operator_upstream.Controllers.Recommend.{Node}
use ptp_operator_upstream.Controllers.Tests.{worker}
use ptp_operator_upstream.Controllers.OperatorController.Steps.{
  OperatorCluster, DaemonSets, requeued, create_if_missing, sync_node_ptp_device, create_owned_map,
  create_config_map, create_ptp_config_map, create_leap_config_map, set_daemon_node_selector,
  apply_one, apply_daemon, apply_services, apply_rendered, sync_services, sync_event_services,
  sync_linuxptp_daemon, sync_all, reconcile_config, reconcile_operator,
}
use ptp_operator_upstream.Controllers.OperatorController.Created.{Creates}
use ptp_operator_upstream.Controllers.OperatorController.Provisioned.{
  IsProvisioned, reconcile_operator-IsProvisioned,
}
use ptp_operator_upstream.Controllers.DataTests.{publisher, any_url, environment}

-- The devices and the config maps of a cluster.
abbrev Cluster : Type 0
Cluster = GoMap Text × GoMap (GoMap Text)

abbrev retrieve : {A : Type 0} → Option A → Retrieved Text A
retrieve none = not_found
retrieve (some a) = existing a

-- A creation fails if there is something of that name.
abbrev add : {A : Type 0} → Text → A → GoMap A → Option A → GoMap A × Option Text
add name a m (some old) = (m, some (codes "exists"))
add name a m none = (put name a m, none)

abbrev small_cluster : OperatorCluster Cluster Text (Text × GoMap Text) Text
small_cluster = record {
  get_config = λ s name. existing publisher;
  create_config = λ s config. (s, none);
  list_nodes = λ s. ok (worker ∷ []);
  get_device = λ s name. retrieve (lookup name s.0);
  create_device = λ s name.
      let (devices, error) = add name name s.0 (lookup name s.0) in ((devices, s.1), error);
  get_map = λ s name. retrieve (lookup name s.1);
  new_map = λ name content. (name, content);
  own_map = λ config m. ok m;
  create_map = λ s m. let (maps, error) = add m.0 m.1 s.1 (lookup m.0 s.1) in ((s.0, maps), error);
}

retrieve-existing :
    {A : Type 0} (o : Option A) (a : A)
    → Path (Retrieved Text A) (retrieve o) (existing a)
    → o ≡ some a
retrieve-existing none a h = absurd (ground (arith, h))
retrieve-existing (some b) a h = ground (arith, h)

-- What is found under one name, after a new entry under another one.
add-lookup :
    {A : Type 0} (name other : Text) (a b : A) (m n : GoMap A)
    → add name a m (lookup name m) ≡ (n, none)
    → lookup other m ≡ some b
    → lookup other n ≡ some b
add-lookup name other a b m n h found = elim (Option-cases (lookup name m)) [
  | inr (old, e) ↦ absurd (some-error≢none m n (codes "exists") (rw e at h))
  | inl e ↦
      let added : put name a m ≡ n = ap (λ p. p.0) (rw e at h) in
      elim (Bool-cases (same name other)) [
        | inr f ↦ rw (← added, lookup-put, f, found)
        | inl f ↦ cc (e, found, (same_iff name other).0 f)
      ]
]

add_self :
    {A : Type 0} (name : Text) (a : A) (m n : GoMap A)
    → add name a m (lookup name m) ≡ (n, none)
    → lookup name n ≡ some a
add_self name a m n h = elim (Option-cases (lookup name m)) [
  | inr (old, e) ↦ absurd (some-error≢none m n (codes "exists") (rw e at h))
  | inl e ↦
      let added : put name a m ≡ n = ap (λ p. p.0) (rw e at h) in
      rw (← added, lookup-put, same_refl)
]

small_cluster-Creates : Creates small_cluster
small_cluster-Creates = record {
  device_created =
      λ s s' name h. (name, ap retrieve (add_self name name s.0 s'.0 (ap (λ p. (p.0.0, p.1)) h)));
  device_keeps = λ s s' name h. (
    (λ other had. (
      had.0,
      ap retrieve (
          add-lookup name other name had.0 s.0 s'.0 (ap (λ p. (p.0.0, p.1)) h)
            (retrieve-existing (lookup other s.0) had.0 had.1)),
    )),
    (λ other m g. subst (λ t. retrieve (lookup other t) ≡ existing m) (ap (λ p. p.0.1) h) g),
  );
  map_created = λ s s' config name content m own h.
      let made =
        subst (λ t. small_cluster.create_map s t ≡ (s', none))
          (sym (ok-injective (name, content) m own)) h in
      ap retrieve (add_self name content s.1 s'.1 (ap (λ p. (p.0.1, p.1)) made));
  map_keeps = λ s s' m h. (
    (λ other had.
        (had.0, subst (λ t. retrieve (lookup other t) ≡ existing had.0) (ap (λ p. p.0.0) h) had.1)),
    (λ other content g. ap retrieve (
        add-lookup m.0 other m.1 content s.1 s'.1 (ap (λ p. (p.0.1, p.1)) h)
          (retrieve-existing (lookup other s.1) content g))),
  );
}

-- Every manifest has one object, which the cluster accepts and forgets.
abbrev one_object : Engine Text Object Text
one_object = record {
  read_file = λ path. ok path;
  parse_template = λ path source. ok source;
  execute = λ template entries. ok template;
  documents = λ rendered. ok daemon ∷ [];
}

abbrev forgetful : Client Cluster Object Text
forgetful = record {
  get = λ s gvk name namespace. not_found;
  create = λ s o. (s, none);
  update = λ s o. (s, none);
}

abbrev no_conversion : DaemonSets Object Object Text
no_conversion = record {
  own_object = λ config o. ok o;
  to_daemon_set = λ o. ok o;
  set_node_selector = λ selector d. d;
  to_object = λ d o. ok d;
}

abbrev provisioned : Cluster
provisioned = (
  (codes "worker-0", codes "worker-0") ∷ [],
  (codes "ptp-configmap", []) ∷ (codes "leap-configmap", []) ∷ [],
)

run_reconcile_operator :
    reconcile_operator plain_objects forgetful differ no_conversion one_object insertion_order
      environment any_url small_cluster
      ([], [])
    ≡ (provisioned, requeued)
unfolding reconcile_operator reconcile_config sync_all sync_linuxptp_daemon sync_event_services
    sync_services apply_rendered apply_services apply_daemon apply_one set_daemon_node_selector
    create_leap_config_map create_ptp_config_map create_config_map create_owned_map
    sync_node_ptp_device create_if_missing render_template decode_rendered decode_all trim_space
    apply_object create_or_update is_object_supported lookup put same
run_reconcile_operator = refl

reconcile_operator-IsProvisioned_example :
    (config : PtpOperatorConfig) × (nodes : List Node) × (Path
      (Retrieved Text PtpOperatorConfig)
      (existing publisher)
      (existing config))
    × (Path (Result Text (List Node)) (ok (worker ∷ [])) (ok nodes))
    × IsProvisioned plain_objects forgetful differ no_conversion one_object insertion_order
        environment any_url small_cluster
        ([], [])
        config
        nodes
        provisioned
reconcile_operator-IsProvisioned_example =
    reconcile_operator-IsProvisioned plain_objects forgetful differ no_conversion one_object
      insertion_order environment any_url small_cluster small_cluster-Creates ([], []) provisioned
      run_reconcile_operator
