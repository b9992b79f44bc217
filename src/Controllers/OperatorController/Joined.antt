-- ===== src/Controllers/OperatorController/Joined.antt =====
-- The plugins' names, joined in the order of a range over a map.
use ptp_operator_upstream.Base.{
  Bool, false, Option, some, List, [], ◌∷◌, ◌++◌, ◌≡◌, ◌≢◌, sym, ap, ◌∙◌, All,
}
use ptp_operator_upstream.Base.Text.{Text, codes, contains, split}
use ptp_operator_upstream.Base.Text.Split.{split_whole, split-append}
use ptp_operator_upstream.Base.GoMap.{
  GoMap, lookup, lookup-put_self, MapRange, insertion_order, reverse_order,
}
use ptp_operator_upstream.Api.OperatorConfig.{PtpEventConfig, PtpOperatorConfigSpec}
use ptp_operator_upstream.Render.{text}
use ptp_operator_upstream.Controllers.OperatorController.{
  add_event_config, base_data, plugin_list, join_commas, daemon_data,
}

abbrev pub HasNoComma : Text → Type 0
HasNoComma s = contains b',' s ≡ false

pub split-join_commas :
    (x : Text) (l : List Text)
    → HasNoComma x
    → All HasNoComma l
    → split b',' (join_commas (x ∷ l)) ≡ x ∷ l
unfolding join_commas
split-join_commas x [] h a = split_whole b',' x h
split-join_commas x (y ∷ l) h a =
    split-append b',' x (join_commas (y ∷ l))
    ∙ (ap (λ p. p ++ split b',' (join_commas (y ∷ l))) (split_whole b',' x h)
        ∙ ap (λ p. x ∷ p) (split-join_commas y l a.0 a.1))

abbrev pub two_plugins :
    GoMap Text
    → Option PtpEventConfig
    → Text
    → Option Text
    → Text
    → Option Text
    → PtpOperatorConfigSpec
two_plugins selector event a x b y = record {
  daemon_node_selector = selector;
  event_config = event;
  enabled_plugins = some ((a, x) ∷ (b, y) ∷ []);
}

joined_twice :
    (a b : Text)
    → HasNoComma a
    → HasNoComma b
    → join_commas (a ∷ b ∷ []) ≡ join_commas (b ∷ a ∷ [])
    → a ≡ b
joined_twice a b ha hb e =
    let pieces : a ∷ b ∷ [] ≡ b ∷ a ∷ [] =
      sym (split-join_commas a (b ∷ []) ha (hb, tt))
      ∙ (ap (split b',') e ∙ split-join_commas b (a ∷ []) hb (ha, tt)) in
    cc

enabled_plugins_data :
    (r : MapRange) (env : Text → Text) (parses : Text → Bool) (spec : PtpOperatorConfigSpec)
    → lookup (codes "EnabledPlugins") (daemon_data r env parses spec)
      ≡ some (text (join_commas (plugin_list r spec.enabled_plugins)))
unfolding daemon_data
enabled_plugins_data r env parses spec =
    lookup-put_self (codes "EnabledPlugins")
      (text (join_commas (plugin_list r spec.enabled_plugins)))
      (add_event_config parses spec.event_config (base_data env))

-- With two plugins of different names without commas, the runtime's order of the map decides what the
-- template of the daemon is told of them: two orders give two different values.
pub daemon_data_varies :
    (env : Text → Text) (parses : Text → Bool) (selector : GoMap Text)
    (event : Option PtpEventConfig) (a : Text) (x : Option Text) (b : Text) (y : Option Text)
    → HasNoComma a
    → HasNoComma b
    → a ≢ b
    → lookup
        (codes "EnabledPlugins")
        (daemon_data insertion_order env parses (two_plugins selector event a x b y))
      ≢ lookup
          (codes "EnabledPlugins")
          (daemon_data reverse_order env parses (two_plugins selector event a x b y))
unfolding plugin_list
daemon_data_varies env parses selector event a x b y ha hb d h =
    let spec = two_plugins selector event a x b y in
    let e =
      sym (enabled_plugins_data insertion_order env parses spec)
      ∙ (h ∙ enabled_plugins_data reverse_order env parses spec) in
    let f : join_commas (a ∷ b ∷ []) ≡ join_commas (b ∷ a ∷ []) = cc in d (joined_twice a b ha hb f)
