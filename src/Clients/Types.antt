-- ===== src/Clients/Types.antt =====
-- What the generated clients of pkg/client use of the vendored libraries: the options of a request,
-- and the calls that build a request or a fake action. A request is the list of the calls on the
-- request builder of package rest, in their order; an action is the constructor of package testing
-- that makes it.
use ptp_operator_upstream.Base.{ℕ, Bool, Option, List}
use ptp_operator_upstream.Base.Text.{Text}

-- The types of the options, of which a client reads nothing but two fields of `ListOptions`.
pub record OptionTypes : Type 1 where
  pub get_options : Type 0
  pub create_options : Type 0
  pub update_options : Type 0
  pub delete_options : Type 0
  pub patch_options : Type 0
  pub selectors : Type 0

-- `metav1.ListOptions`; the number of seconds is an int64 as its 64 bits.
pub record ListOptions (v : OptionTypes) : Type 0 where
  pub timeout_seconds : Option ℕ
  pub watch : Bool
  pub selector : v.selectors

pub data Params (v : OptionTypes) : Type 0 where
  get_params : v.get_options → Params v
  list_params : ListOptions v → Params v
  create_params : v.create_options → Params v
  update_params : v.update_options → Params v
  patch_params : v.patch_options → Params v

-- The calls on `rest.Interface` and `rest.Request`, for objects of a type `O`.
pub data RestCall (v : OptionTypes) (O : Type 0) : Type 0 where
  get post put delete : RestCall v O
  patch : Text → RestCall v O
  namespace resource name : Text → RestCall v O
  sub_resource : List Text → RestCall v O
  versioned_params : Params v → RestCall v O
  timeout : ℕ → RestCall v O
  body : O → RestCall v O
  options_body : v.delete_options → RestCall v O
  data_body : Text → RestCall v O
  -- `Do(ctx).Into(result)`, `Do(ctx).Error()` and `Watch(ctx)`.
  do_into do_error do_watch : RestCall v O

abbrev pub Request : OptionTypes → Type 0 → Type 0
Request v O = List (RestCall v O)

pub record GroupVersionResource : Type 0 where
  pub group : Text
  pub version : Text
  pub resource : Text

pub record GroupVersionKind : Type 0 where
  pub group : Text
  pub version : Text
  pub kind : Text

-- The actions of package testing.
pub data Action (v : OptionTypes) (O : Type 0) : Type 0 where
  new_get_action : GroupVersionResource → Text → Text → Action v O
  new_list_action : GroupVersionResource → GroupVersionKind → Text → ListOptions v → Action v O
  new_watch_action : GroupVersionResource → Text → ListOptions v → Action v O
  new_create_action new_update_action : GroupVersionResource → Text → O → Action v O
  new_update_subresource_action : GroupVersionResource → Text → Text → O → Action v O
  new_delete_action : GroupVersionResource → Text → Text → Action v O
  new_delete_collection_action : GroupVersionResource → Text → ListOptions v → Action v O
  new_patch_subresource_action :
      GroupVersionResource → Text → Text → Text → Text → List Text → Action v O

-- The methods of a client of one resource, each with the request or the action `R` that it makes.
pub record ResourceClient (v : OptionTypes) (O R : Type 0) : Type 0 where
  pub get_object : Text → v.get_options → R
  pub list_objects : ListOptions v → R
  pub watch_objects : ListOptions v → R
  pub create_object : O → v.create_options → R
  pub update_object : O → v.update_options → R
  pub update_status : O → v.update_options → R
  pub delete_object : Text → v.delete_options → R
  pub delete_collection : v.delete_options → ListOptions v → R
  pub patch_object : Text → Text → Text → v.patch_options → List Text → R
