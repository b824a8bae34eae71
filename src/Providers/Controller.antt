-- ===== src/Providers/Controller.antt =====
-- pkg/infrastructure_layer/provider/controller.go and drivers/registry.go, over any interface of
-- providers. A provider's answers may change it, so that `Health` returns the controller too.
use lucinda.Base.{
  Str, Map, lookup, insert, ℤ, pos, List, [], ◌∷◌, Option, none, some, Result, failed, gave, map,
  ◌==◌, if◌then◌else◌, pos_part, neg_part, ◌+◌,
}
use lucinda.Hardware.{GpuSnapshot, zero_gpu}
use lucinda.ModuleManager.{ModuleStatus}
use lucinda.Providers.Wire.{ProviderConfig, ProviderHealth, DriverError, ProviderOps}

pub data Error : Type 0 where
  already_registered not_found unknown_driver : Str → Error
  create_failed : DriverError → Error
  no_provider : Error

-- The factories, by the name of the driver.
abbrev pub Registry : Type 0 → Type 0
Registry P = Map (ProviderConfig → Result DriverError P)

abbrev pub Controller : Type 0 → Type 0
Controller P = Map P

module _ {P : Type 0} where
  unfoldable pub register_driver :
      Str → (ProviderConfig → Result DriverError P) → Registry P → Registry P
  register_driver driver factory r = insert driver factory r

  unfoldable pub create : Registry P → ProviderConfig → Result Error P
  create r c = elim (lookup c.driver r) [
    | none ↦ failed (unknown_driver c.driver)
    | some factory ↦ elim (factory c) [ failed e ↦ failed (create_failed e) | gave p ↦ gave p ]
  ]

  unfoldable pub new_provider_controller : Controller P
  new_provider_controller = []

  unfoldable pub register : Registry P → ProviderConfig → Controller P → Controller P × Option Error
  unfolding create
  register r c providers = elim (lookup c.id providers) [
    | some old ↦ (providers, some (already_registered c.id))
    | none ↦ elim (create r c) [
      | failed e ↦ (providers, some e)
      | gave p ↦ (insert c.id p providers, none)
    ]
  ]

  -- The loop of `LoadProviders`, on the configurations that viper reads.
  unfoldable pub load_providers :
      Registry P → List ProviderConfig → Controller P → Controller P × Option Error
  unfolding register
  load_providers r [] providers = (providers, none)
  load_providers r (c ∷ rest) providers =
      let (providers', err) = register r c providers in
      elim err [ some e ↦ (providers', some e) | none ↦ load_providers r rest providers' ]

  unfoldable pub get : Str → Controller P → Result Error P
  get id providers = elim (lookup id providers) [ none ↦ failed (not_found id) | some p ↦ gave p ]

  unfoldable pub list : Controller P → List P
  list providers = map (λ e. e.1) providers

  unfoldable pub get_plan_prov : Controller P → Result Error P
  unfolding list
  get_plan_prov providers = elim (list providers) [ [] ↦ failed no_provider | p ∷ rest ↦ gave p ]

  unfoldable pub check_health : Controller P → ModuleStatus
  check_health [] = ModuleStatus.pending
  check_health (p ∷ rest) = ModuleStatus.running

  module _ (ops : ProviderOps P) where
    unfoldable pub max_context : Controller P → ℤ
    unfolding list
    max_context providers = elim (list providers) [ [] ↦ pos 2048 | p ∷ rest ↦ ops.window p ]

    unfoldable pub health : Str → Controller P → Controller P × Result Error ProviderHealth
    unfolding get
    health id providers = elim (get id providers) [
      | failed e ↦ (providers, failed e)
      | gave p ↦ let (p', h) = ops.health p in (insert id p' providers, gave h)
    ]

    unfoldable pub health_all : Controller P → Controller P × List ProviderHealth
    health_all [] = ([], [])
    health_all ((id, p) ∷ rest) =
        let (p', h) = ops.health p in
        let (rest', hs) = health_all rest in ((id, p') ∷ rest', h ∷ hs)

    -- A provider that fails, or uses no memory, is passed over.
    unfoldable pub gpu : Controller P → GpuSnapshot
    gpu [] = zero_gpu
    gpu ((id, p) ∷ rest) =
        let others = gpu rest in
        elim (ops.gpu p) [
          | failed e ↦ others
          | gave snap ↦
              if pos_part snap.used_vram + neg_part snap.used_vram == 0 then others else snap
        ]
