-- ===== src/Lib.antt =====
-- The PTP operator: a Kubernetes operator that admits PtpConfig and PtpOperatorConfig resources,
-- chooses the profiles of each node and writes them to a config map, and deploys the linuxptp
-- daemon. The development models the code that decides something, and takes the cluster, the
-- template engine and the vendored libraries as parameters.
--
-- Base holds what the modules share: Go strings as lists of code points (Base/Text), Go maps as
-- association lists with the order of a `range` left to the runtime (Base/GoMap), int64 values that
-- are only compared (Base/Int), lists and counting (Base/Lists, Base/Distinct), and Go calls that
-- may panic (Base/Tests).
--
-- Api is package api/v1.
--   Api/Ptp4lConf: `populatePtp4lConf` of api/v1/ptpconfig_webhook.go. `parse_line` is a round of its
--   loop, `parse_lines` the loop, `populate_ptp4l_conf` the whole; the partly filled map that an
--   error leaves is part of the result, since callers use it.
--   Api/HaProfiles: `profileRegEx`. Api/Validate: `validate` and the admission handlers. The
--   compiler of regular expressions is an argument. Api/Interfaces: `getInterfaces` and
--   `GetInterfaces`. Api/PtpConfig: the types of api/v1/ptpconfig_types.go. Api/OperatorConfig: the
--   types and the webhook of the operator's own configuration.
--   Api/DeepCopy: api/v1/zz_generated.deepcopy.go on an explicit memory. Memory is the memory, with the
--   rules for copies in its children; Types and Cells are the structures and what a cell may hold;
--   Copies has one function for each generated one, by resource; Deep has the proofs, with the absence
--   of shared memory in Deep/Apart and the files beside it.
--
-- Apply is package pkg/apply.
--   Apply/Unstructured: the objects of the Kubernetes libraries, as a record of getters, setters and
--   the law of each setter. Apply/Merge: pkg/apply/merge.go, with what its steps do to the fields in
--   Apply/Merge/Fields. Apply/Object: `ApplyObject` of pkg/apply/apply.go, on an explicit cluster state.
--
-- Render is package pkg/render: `render_template`, `render_dir`, `get_or` and `is_set`, over a record
-- of the template engine's calls.
--
-- Controllers is package controllers.
--   Controllers/PtpConfigController: controllers/ptpconfig_controller.go, which calls Recommend for
--   every node and writes the config map; the client and `json.Marshal` are parameters.
--   Controllers/PtpConfigController/Stable is about two reconciliations in a row, each with its own
--   order of the maps.
--   Controllers/OperatorController: controllers/ptpoperatorconfig_controller.go and the names of
--   pkg/names. The constants and the data of the templates are in the module itself, the steps of a
--   reconciliation in Controllers/OperatorController/Steps; they call Render and Apply. Go's order of
--   a range over the plugins is a parameter, see Controllers/OperatorController/Joined.
--   Controllers/Recommend: controllers/recommend.go. `recommend_loop` is the loop over the sorted
--   recommendations; `sort.Slice`, which promises no more than a sorted permutation, is a parameter
--   with these two laws, and Controllers/Recommend/Insertion is one instance of it.
--   Controllers/Recommend/AnyOrder compares runs with different orders.
--
-- Manager is main.go, with pkg/leaderelection.
--   Manager/Election: `GetLeaderElectionConfig`. Manager/Options: the options that the flags, the
--   election and WATCH_NAMESPACE give. Manager/Setup: the calls that make the manager and add the
--   controllers, the webhooks and the checks to it. Manager/Wait: `waitForWebhookServer`.
--   Manager/Default: `createDefaultOperatorConfig`. Manager/Run: the goroutine and the manager side by
--   side, as a step relation on the variable `err` that they share.
--
-- Clients is package pkg/client. Clients/Types has the calls of the vendored request builder and of the
--   constructors of fake actions, without a meaning of their own; Clients/Typed and Clients/Fakes are the
--   clients of the three resources under typed/ptp/v1; Clients/Told is about the requests of all methods
--   together. Clients/Clientset: the constructors from a configuration.
--
-- Testing is the test program's own logic, test/pkg/testconfig/testconfig.go with what it uses of
-- test/pkg/ptphelper and test/pkg/pods.
--   Testing/Config: the modes, their texts and `GetDesiredConfig`, on the global variable as a state.
--   Testing/AddInterface and Testing/AddedRole: `AddInterface`, which writes what Api/Ptp4lConf and
--   Api/Interfaces read.
--   Testing/Scan: `discoverPTPConfiguration`. Testing/Discovery: `discoverMode`, which counts
--   interfaces with Api/Interfaces.
--
-- Every modelled loop of the source runs over a finite slice or map and is a recursion on the list;
-- the loop of `RenderTemplate` runs over the answers of the decoder, which a parameter gives as a
-- list. The one loop without such a bound, that of `waitForWebhookServer`, runs on fuel: a round that
-- does not end it takes at least the second that it sleeps, so 32 rounds are enough for its 30 seconds,
-- which the theorem on its end proves for every clock.
--
-- Not modelled: logging and the texts of error messages (an error is a constructor with the values
-- that its message quotes), the registration of the types with schemes, the parsing of the flags, the
-- vendored libraries, and of the test program what drives a cluster: the suites under
-- test/conformance, the events, the metrics and the layer 2 solver.
pub mod Base
pub mod Api
pub mod Apply
pub mod Render
pub mod Controllers
pub mod Manager
pub mod Clients
pub mod Testing
