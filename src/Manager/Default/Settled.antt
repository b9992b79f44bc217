-- ===== src/Manager/Default/Settled.antt =====
-- The cluster after `createDefaultOperatorConfig`.
use ptp_operator_upstream.Base.{
  Bool, none, ◌≡◌, ◌⊎◌, inl, inr, refl, sym, ap, ok, wrap-none, some-error≢none,
}
use ptp_operator_upstream.Base.Text.{Text}
use ptp_operator_upstream.Api.OperatorConfig.{
  PtpOperatorConfig, validate_operator_create, validate_operator_create_iff,
}
use ptp_operator_upstream.Apply.Object.{Retrieved, existing, not_found, get_failed}
use ptp_operator_upstream.Controllers.OperatorController.{
  operator_namespace, default_operator_config_name,
}
use ptp_operator_upstream.Controllers.OperatorController.Steps.{default_config}
use ptp_operator_upstream.Manager.Default.{
  ConfigClient, client_failed, named_config, create_if_not_found, create_default_operator_config,
}

module _ {S E : Type 0} (k : ConfigClient S E) where
  abbrev pub get_default : S → Retrieved E PtpOperatorConfig
  get_default s = k.get s operator_namespace default_operator_config_name

  -- A created object is there afterwards.
  abbrev pub StoresCreated : Type 0
  StoresCreated =
      (s s' : S) (config : PtpOperatorConfig)
      → k.create s config ≡ (s', none)
      → k.get s' config.namespace config.name ≡ existing config

  -- The default configuration was there, or the one that the controller uses has been created, which
  -- the webhook admits.
  abbrev pub WasThereOrCreated : S → S → PtpOperatorConfig → Type 0
  WasThereOrCreated s s' config =
      ((s' ≡ s) × (get_default s ≡ existing config))
      ⊎ ((get_default s ≡ not_found)
          × (config ≡ default_config)
          × (k.create s default_config ≡ (s', none))
          × ((parses : Text → Bool) → validate_operator_create parses config ≡ none))

  Settles : S → S → Type 0
  Settles s s' =
      (config : PtpOperatorConfig) × (get_default s' ≡ existing config)
      × WasThereOrCreated s s' config

  create_if_not_found-Settles :
      StoresCreated
      → (s s' : S) (got : Retrieved E PtpOperatorConfig) → get_default s ≡ got
      → create_if_not_found k s got ≡ (s', none)
      → Settles s s'
  unfolding create_if_not_found Settles
  create_if_not_found-Settles stores s s' (existing config) g h =
      let e : s ≡ s' = ap (λ p. p.0) h in (config, rw (← e) g, inl (sym e, g))
  create_if_not_found-Settles stores s s' not_found g h =
      let c = wrap-none client_failed (k.create s named_config) s' h in
      (
        default_config,
        stores s s' named_config c,
        inr (
          g,
          refl,
          c,
          (λ parses.
              (validate_operator_create_iff parses default_config default_config).0.1 (refl, tt)),
        ),
      )
  create_if_not_found-Settles stores s s' (get_failed x) g h =
      absurd (some-error≢none s s' (client_failed x) h)

-- If created objects can be read back, a call that returns no error leaves the default configuration
-- in the cluster: the one that was there, with nothing changed, or else the one that the reconciler
-- creates too, which the webhook admits. A second call then returns no error and changes nothing.
pub create_default_operator_config-Settles :
    {S E : Type 0} (k : ConfigClient S E)
    → StoresCreated k
    → (s s' : S) → create_default_operator_config (ok k) s ≡ (s', none)
    → ((config : PtpOperatorConfig) × (get_default k s' ≡ existing config)
        × WasThereOrCreated k s s' config)
      × (create_default_operator_config (ok k) s' ≡ (s', none))
unfolding create_default_operator_config create_if_not_found Settles
create_default_operator_config-Settles k stores s s' h =
    let settled = create_if_not_found-Settles k stores s s' (get_default k s) refl h in
    (settled, rw (create_default_operator_config, settled.1))
