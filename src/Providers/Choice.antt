-- ===== src/Providers/Choice.antt =====
-- pkg/infrastructure_layer/provider/controller.go: which providers there are, and which one is chosen.
use lucinda.Base.{
  ◌≡◌, refl, ◌∙◌, insert, Str, str_eq, str_eq_refl, lookup, lookup-insert, pos, ltb_ℤ, [], ◌∷◌,
  none, some, true, failed, gave, arith, if◌then◌else◌,
}
use lucinda.Providers.Wire.{ProviderConfig, ProviderOps}
use lucinda.Providers.Controller.{
  already_registered, Registry, Controller, create, register, get, get_plan_prov, max_context,
}

module _ {P : Type 0} where
  register_new :
      (r : Registry P) (c : ProviderConfig) (p : P) (providers : Controller P)
      → lookup c.id providers ≡ none
      → create r c ≡ gave p
      → register r c providers ≡ (insert c.id p providers, none)
  unfolding register
  register_new r c p providers free made = rw (free, made, register) refl

  register_taken :
      (r : Registry P) (c : ProviderConfig) (p : P) (providers : Controller P)
      → lookup c.id providers ≡ some p
      → register r c providers ≡ (providers, some (already_registered c.id))
  unfolding register
  register_taken r c p providers taken = rw (taken, register) refl

  -- `Register` under a free ID, of a configuration whose driver makes a provider, succeeds: `Get`
  -- finds the provider under that ID, finds what it found before under any other, and a second
  -- `Register` under the ID is refused and changes nothing.
  get-register_provider :
      (r : Registry P) (c : ProviderConfig) (p : P) (providers : Controller P)
      → lookup c.id providers ≡ none
      → create r c ≡ gave p
      → let (providers', err) = register r c providers in
        (err ≡ none)
        × ((id : Str) → get id providers' ≡ (if str_eq c.id id then gave p else get id providers))
        × ((r' : Registry P)
            → register r' c providers' ≡ (providers', some (already_registered c.id)))
  unfolding get
  get-register_provider r c p providers free made = rw (register_new r c p providers free made) (
    refl,
    (λ id. ground (arith, lookup-insert c.id id p providers)),
    (λ r'.
        register_taken r' c p (insert c.id p providers)
          (lookup-insert c.id c.id p providers ∙ ground (arith, str_eq_refl c.id))),
  )

  module _ (ops : ProviderOps P) where
    -- `MaxContext` is the window of the provider that `GetPlanProv` chooses, and 2048 where it has
    -- none to choose; it is never zero or negative.
    pub max_context-get_plan_prov :
        (providers : Controller P)
        → (max_context ops providers
            ≡ (elim (get_plan_prov providers) [ failed e ↦ pos 2048 | gave p ↦ ops.window p ]))
          × (ltb_ℤ (pos 0) (max_context ops providers) ≡ true)
    unfolding max_context get_plan_prov
    max_context-get_plan_prov [] = (refl, refl)
    max_context-get_plan_prov ((id, p) ∷ rest) = (refl, ops.window_pos p)
