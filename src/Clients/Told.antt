-- ===== src/Clients/Told.antt =====
-- A request of a typed client tells which method of which client made it, and with which arguments.
use ptp_operator_upstream.Base.{true, if◌then◌else◌, Option, none, some, List, ◌∷◌}
use ptp_operator_upstream.Base.Text.{Text, codes, same}
use ptp_operator_upstream.Clients.Types.{
  OptionTypes, ListOptions, get_params, list_params, create_params, update_params, patch_params,
  get, post, put, delete, patch, namespace, resource, name, sub_resource, versioned_params, timeout,
  body, options_body, data_body, do_into, do_watch, Request, ResourceClient,
}
use ptp_operator_upstream.Clients.Typed.{node_ptp_devices, ptp_configs, ptp_operator_configs}

-- A call of a method of a client, with its arguments.
pub data Call (v : OptionTypes) (O : Type 0) : Type 0 where
  get_call : Text → v.get_options → Call v O
  list_call watch_call : ListOptions v → Call v O
  create_call : O → v.create_options → Call v O
  update_call update_status_call : O → v.update_options → Call v O
  delete_call : Text → v.delete_options → Call v O
  delete_collection_call : v.delete_options → ListOptions v → Call v O
  patch_call : Text → Text → Text → v.patch_options → List Text → Call v O

-- The clients of a clientset, each for one resource.
pub data Kind : Type 0 where
  node_ptp_device ptp_config ptp_operator_config : Kind

module _ {v : OptionTypes} {O : Type 0} where
  -- `Watch` sets the field `Watch` of its options, whatever it was.
  abbrev pub as_sent : Call v O → Call v O
  as_sent (watch_call opts) = watch_call (record opts { watch = true })
  as_sent c = c

  abbrev pub run_call : {R : Type 0} → ResourceClient v O R → Call v O → R
  run_call client c = elim c [
    | get_call n o ↦ client.get_object n o
    | list_call o ↦ client.list_objects o
    | watch_call o ↦ client.watch_objects o
    | create_call x o ↦ client.create_object x o
    | update_call x o ↦ client.update_object x o
    | update_status_call x o ↦ client.update_status x o
    | delete_call n o ↦ client.delete_object n o
    | delete_collection_call o l ↦ client.delete_collection o l
    | patch_call n pt bytes o s ↦ client.patch_object n pt bytes o s
  ]

  abbrev pub client_for : (O → Text) → Text → Kind → ResourceClient v O (Request v O)
  client_for name_of ns node_ptp_device = node_ptp_devices name_of ns
  client_for name_of ns ptp_config = ptp_configs name_of ns
  client_for name_of ns ptp_operator_config = ptp_operator_configs name_of ns

  -- The method and the arguments, read off a request.
  read_call : Request v O → Option (Text × Text × Call v O)
  read_call (get ∷ namespace ns ∷ resource r ∷ name n ∷ versioned_params (get_params o) ∷ _) =
      some (ns, r, get_call n o)
  read_call
        (get
          ∷ namespace ns
          ∷ resource r
          ∷ versioned_params (list_params o)
          ∷ timeout _
          ∷ do_into
          ∷ _) =
      some (ns, r, list_call o)
  read_call
        (get
          ∷ namespace ns
          ∷ resource r
          ∷ versioned_params (list_params o)
          ∷ timeout _
          ∷ do_watch
          ∷ _) =
      some (ns, r, watch_call o)
  read_call (post ∷ namespace ns ∷ resource r ∷ versioned_params (create_params o) ∷ body x ∷ _) =
      some (ns, r, create_call x o)
  read_call
        (put
          ∷ namespace ns
          ∷ resource r
          ∷ name _
          ∷ versioned_params (update_params o)
          ∷ body x
          ∷ _) =
      some (ns, r, update_call x o)
  read_call
        (put
          ∷ namespace ns
          ∷ resource r
          ∷ name _
          ∷ sub_resource _
          ∷ versioned_params (update_params o)
          ∷ body x
          ∷ _) =
      some (ns, r, update_status_call x o)
  read_call (delete ∷ namespace ns ∷ resource r ∷ name n ∷ options_body o ∷ _) =
      some (ns, r, delete_call n o)
  read_call
        (delete
          ∷ namespace ns
          ∷ resource r
          ∷ versioned_params (list_params l)
          ∷ timeout _
          ∷ options_body o
          ∷ _) =
      some (ns, r, delete_collection_call o l)
  read_call
        (patch pt
          ∷ namespace ns
          ∷ resource r
          ∷ name n
          ∷ sub_resource s
          ∷ versioned_params (patch_params o)
          ∷ data_body bytes
          ∷ _) =
      some (ns, r, patch_call n pt bytes o s)
  read_call _ = none

abbrev resource_of : Kind → Text
resource_of node_ptp_device = codes "nodeptpdevices"
resource_of ptp_config = codes "ptpconfigs"
resource_of ptp_operator_config = codes "ptpoperatorconfigs"

kind_of : Text → Kind
kind_of t =
    if same t (codes "nodeptpdevices")
    then node_ptp_device
    else if same t (codes "ptpconfigs")
    then ptp_config
    else ptp_operator_config
