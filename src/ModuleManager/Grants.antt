-- ===== src/ModuleManager/Grants.antt =====
-- pkg/infrastructure_layer/module_manager/manager.go: who reaches which module.
use lucinda.Base.{
  ◌≡◌, ◌↔◌, refl, sym, ◌∙◌, Str, str_eq, str_eq_iff, str_eq_refl, lookup, lookup_or, lookup-insert,
  lookup-delete, insert, Option, none, some, true, false, Map, ◌&&◌, ◌||◌, arith, [], if◌then◌else◌,
  Option-cases, inl, inr, is_some,
}
use lucinda.ModuleManager.{
  AvailableModule, ModuleManager, gives, register, unregister, get, grant, is_granted, require,
}

grantee_set :
    (granter grantee : Str) (m : ModuleManager)
    → is_granted granter grantee m ≡ is_some (lookup grantee (lookup_or [] granter m.capabilities))
unfolding is_granted lookup
grantee_set granter grantee m = absent_or_set (lookup granter m.capabilities)
  where
    absent_or_set :
        (o : Option (Map (Unit {0})))
        → (elim o [ none ↦ false | some s ↦ is_some (lookup grantee s) ])
          ≡ is_some (lookup grantee (elim o [ none ↦ [] | some s ↦ s ]))
    absent_or_set none = refl
    absent_or_set (some s) = refl

-- After a grant the granter reaches the grantee; who else reached what is as it was.
is_granted-grant :
    (granter grantee a b : Str) (m : ModuleManager)
    → is_granted a b (grant granter grantee m)
      ≡ ((str_eq granter a && str_eq grantee b) || is_granted a b m)
unfolding is_granted grant
is_granted-grant granter grantee a b m =
    let old = lookup_or [] granter m.capabilities in
    ground (
      arith,
      str_eq_iff granter a,
      str_eq_iff grantee b,
      grantee_set granter b m,
      lookup-insert granter a (insert grantee tt old) m.capabilities,
      lookup-insert grantee b tt old,
    )

-- `Require` gives a module exactly when the caller's type is granted the target's type and the
-- module is the one registered under the target's ID.
require_iff :
    (caller x : AvailableModule) (type id : Str) (m : ModuleManager)
    → (require caller type id m ≡ gives x)
      ↔ ((is_granted caller.module_type type m ≡ true) × (get id m ≡ some x))
unfolding require get
require_iff caller x type id m = (ground arith, ground arith)

-- After a grant `Require` gives a module exactly when the grant is the caller's for the target's
-- type, or the caller was granted it before, and the module is the one registered under the
-- target's ID.
require-grant :
    (caller x : AvailableModule) (type id granter grantee : Str) (m : ModuleManager)
    → (require caller type id (grant granter grantee m) ≡ gives x) ↔ (
        ((str_eq granter caller.module_type && str_eq grantee type)
            || is_granted caller.module_type type m
          ≡ true)
        × (get id m ≡ some x))
unfolding grant get
require-grant caller x type id granter grantee m =
    let granted = is_granted-grant granter grantee caller.module_type type m in
    let both = require_iff caller x type id (grant granter grantee m) in
    ((λ h. (sym granted ∙ (both.0 h).0, (both.0 h).1)), (λ h. both.1 (granted ∙ h.0, h.1)))

-- A module that registers without an error is found under its ID until it unregisters, and no other
-- ID is affected by either call.
get-register :
    (x : AvailableModule) (id : Str) (m : ModuleManager)
    → (register x m).1 ≡ none
    → let m' = (register x m).0 in
      (get id m' ≡ (if str_eq x.module_id id then some x else get id m))
      × (get id (unregister x.module_id m').0 ≡ get id m)
unfolding register unregister get
get-register x id m h = elim (Option-cases (lookup x.module_id m.modules)) [
  | inl e ↦ ground (
    arith,
    e,
    str_eq_iff x.module_id id,
    str_eq_refl x.module_id,
    lookup-insert x.module_id id x m.modules,
    lookup-insert x.module_id x.module_id x m.modules,
    lookup-delete x.module_id id (insert x.module_id x m.modules),
  )
  | inr (old, e) ↦ ground (arith, e)
]
