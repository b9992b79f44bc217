-- ===== src/Clients/Typed.antt =====
-- The generated typed clients of pkg/client/clientset/versioned/typed/ptp/v1: nodeptpdevice.go,
-- ptpconfig.go and ptpoperatorconfig.go, which differ in the names of the resource alone.
use ptp_operator_upstream.Base.{ℕ, ◌*◌, ◌%◌, ◌^◌, true, Option, none, some, List, [], ◌∷◌}
use ptp_operator_upstream.Base.Text.{Text, codes}
use ptp_operator_upstream.Clients.Types.{
  OptionTypes, ListOptions, get_params, list_params, create_params, update_params, patch_params,
  get, post, put, delete, patch, namespace, resource, name, sub_resource, versioned_params, timeout,
  body, options_body, data_body, do_into, do_error, do_watch, Request, ResourceClient,
}

-- `time.Duration(*opts.TimeoutSeconds) * time.Second`, which wraps around at 64 bits.
unfoldable pub request_timeout : Option ℕ → ℕ
request_timeout none = 0
request_timeout (some seconds) = (seconds * 1000000000) % 2 ^ 64

module _ {v : OptionTypes} {O : Type 0} (name_of : O → Text) (resource_name ns : Text) where
  unfoldable pub get_request : Text → v.get_options → Request v O
  get_request object_name options =
      get
      ∷ namespace ns
      ∷ resource resource_name
      ∷ name object_name
      ∷ versioned_params (get_params options)
      ∷ do_into
      ∷ []

  unfoldable pub list_request : ListOptions v → Request v O
  unfolding request_timeout
  list_request opts =
      get
      ∷ namespace ns
      ∷ resource resource_name
      ∷ versioned_params (list_params opts)
      ∷ timeout (request_timeout opts.timeout_seconds)
      ∷ do_into
      ∷ []

  unfoldable pub watch_request : ListOptions v → Request v O
  unfolding request_timeout
  watch_request opts =
      get
      ∷ namespace ns
      ∷ resource resource_name
      ∷ versioned_params (list_params (record opts { watch = true }))
      ∷ timeout (request_timeout opts.timeout_seconds)
      ∷ do_watch
      ∷ []

  unfoldable pub create_request : O → v.create_options → Request v O
  create_request object opts =
      post
      ∷ namespace ns
      ∷ resource resource_name
      ∷ versioned_params (create_params opts)
      ∷ body object
      ∷ do_into
      ∷ []

  unfoldable pub update_request : O → v.update_options → Request v O
  update_request object opts =
      put
      ∷ namespace ns
      ∷ resource resource_name
      ∷ name (name_of object)
      ∷ versioned_params (update_params opts)
      ∷ body object
      ∷ do_into
      ∷ []

  unfoldable pub update_status_request : O → v.update_options → Request v O
  update_status_request object opts =
      put
      ∷ namespace ns
      ∷ resource resource_name
      ∷ name (name_of object)
      ∷ sub_resource (codes "status" ∷ [])
      ∷ versioned_params (update_params opts)
      ∷ body object
      ∷ do_into
      ∷ []

  unfoldable pub delete_request : Text → v.delete_options → Request v O
  delete_request object_name opts =
      delete
      ∷ namespace ns
      ∷ resource resource_name
      ∷ name object_name
      ∷ options_body opts
      ∷ do_error
      ∷ []

  unfoldable pub delete_collection_request : v.delete_options → ListOptions v → Request v O
  unfolding request_timeout
  delete_collection_request opts list_opts =
      delete
      ∷ namespace ns
      ∷ resource resource_name
      ∷ versioned_params (list_params list_opts)
      ∷ timeout (request_timeout list_opts.timeout_seconds)
      ∷ options_body opts
      ∷ do_error
      ∷ []

  unfoldable pub patch_request : Text → Text → Text → v.patch_options → List Text → Request v O
  patch_request object_name pt bytes opts subresources =
      patch pt
      ∷ namespace ns
      ∷ resource resource_name
      ∷ name object_name
      ∷ sub_resource subresources
      ∷ versioned_params (patch_params opts)
      ∷ data_body bytes
      ∷ do_into
      ∷ []

  unfoldable pub typed_client : ResourceClient v O (Request v O)
  unfolding get_request list_request watch_request create_request update_request
      update_status_request delete_request delete_collection_request patch_request
  typed_client = record {
    get_object = get_request;
    list_objects = list_request;
    watch_objects = watch_request;
    create_object = create_request;
    update_object = update_request;
    update_status = update_status_request;
    delete_object = delete_request;
    delete_collection = delete_collection_request;
    patch_object = patch_request;
  }

-- The objects of the three resources are known by their names alone.
module _ {v : OptionTypes} {O : Type 0} (name_of : O → Text) where
  unfoldable pub node_ptp_devices : Text → ResourceClient v O (Request v O)
  unfolding typed_client
  node_ptp_devices ns = typed_client name_of (codes "nodeptpdevices") ns

  unfoldable pub ptp_configs : Text → ResourceClient v O (Request v O)
  unfolding typed_client
  ptp_configs ns = typed_client name_of (codes "ptpconfigs") ns

  unfoldable pub ptp_operator_configs : Text → ResourceClient v O (Request v O)
  unfolding typed_client
  ptp_operator_configs ns = typed_client name_of (codes "ptpoperatorconfigs") ns
