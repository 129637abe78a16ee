-- ===== src/Access/Enforcement/Shadow.antt =====
-- The modes in which both services are asked, by those in which one is.
use playbook_dispatcher.Common.{
  ◌≡◌, refl, String, Option, none, some, List, [], ◌∷◌, all, Result, ok, err, inl, inr, Bool-cases,
  and_false,
}
use playbook_dispatcher.Access.Identity.{Identity}
use playbook_dispatcher.Access.Modes.{
  rbac_only, both_rbac_enforces, both_kessel_enforces, kessel_only,
}
use playbook_dispatcher.Access.Permissions.{
  Failure, failed, panicked, Access, RequiredPermission, get_permissions,
}
use playbook_dispatcher.Access.Kessel.{GlobalManager}
use playbook_dispatcher.Access.Enforcement.{
  Env, Refusal, Context, kessel_services, kessel_answer, get_kessel_allowed_services,
  compute_allowed_services, meets, rbac_tier, after_rbac, enforce_in_mode, service_tier,
  get_rbac_allowed_services,
}

both_rbac_tier :
    (env : Env) (manager : GlobalManager) (required : List RequiredPermission) (id : Identity)
    (answer : Result Failure (List Access))
    → (after_rbac env id both_rbac_enforces (rbac_tier answer required)).1
      ≡ (after_rbac (record env { manager = manager }) id rbac_only (rbac_tier answer required)).1
unfolding compute_allowed_services
both_rbac_tier env manager required id (err (failed e)) = refl
both_rbac_tier env manager required id (err (panicked fault)) = refl
both_rbac_tier env manager required id (ok permissions) =
    elim (Bool-cases (all (meets permissions) required)) [
      | inl h ↦ rw (h, and_false _) refl
      | inr h ↦ rw h refl
    ]

-- In the mode both-rbac-enforces a request is decided as in the mode rbac-only, whatever Kessel
-- answers there and here.
pub enforce_in_mode-both_rbac :
    (env : Env) (manager : GlobalManager) (required : List RequiredPermission) (id : Identity)
    → (enforce_in_mode env required id both_rbac_enforces).1
      ≡ (enforce_in_mode (record env { manager = manager }) required id rbac_only).1
unfolding enforce_in_mode
enforce_in_mode-both_rbac env manager required id =
    both_rbac_tier env manager required id (get_permissions env.rbac)

-- Both decisions: the permissions of the first, and the services of the second.
abbrev pub both : Result Refusal Context → Result Refusal Context → Result Refusal Context
both (err e) second = err e
both (ok first) (err e) = err e
both (ok first) (ok second) =
    ok (record { permissions = first.permissions; allowed_services = second.allowed_services })

one_service :
    (permissions : Option (List Access)) (from_rbac services : List String)
    → service_tier both_kessel_enforces permissions services
      ≡ both
          (ok (record { permissions = permissions; allowed_services = from_rbac }))
          (service_tier kessel_only none services)
one_service permissions from_rbac [] = refl
one_service permissions from_rbac (service ∷ services) = refl

both_kessel_tier :
    (env : Env) (required : List RequiredPermission) (id : Identity)
    (answer : Result Failure (List Access))
    → (after_rbac env id both_kessel_enforces (rbac_tier answer required)).1
      ≡ both
          (after_rbac env id rbac_only (rbac_tier answer required)).1
          (after_rbac env id kessel_only ([], ok none)).1
unfolding compute_allowed_services get_kessel_allowed_services
both_kessel_tier env required id (err (failed e)) = refl
both_kessel_tier env required id (err (panicked fault)) = refl
both_kessel_tier env required id (ok permissions) =
    elim (Bool-cases (all (meets permissions) required)) [
      | inl h ↦
          rw (h, and_false _)
            (one_service (some permissions) (get_rbac_allowed_services permissions)
              (kessel_services (kessel_answer env id)).1)
      | inr h ↦ rw h refl
    ]

-- In the mode both-kessel-enforces a request is let through exactly if the modes rbac-only and
-- kessel-only both let it through, with the permissions of the first and the services of the second;
-- else it is refused as the first of them that refuses it.
pub enforce_in_mode-both_kessel :
    (env : Env) (required : List RequiredPermission) (id : Identity)
    → (enforce_in_mode env required id both_kessel_enforces).1
      ≡ both
          (enforce_in_mode env required id rbac_only).1
          (enforce_in_mode env required id kessel_only).1
unfolding enforce_in_mode
enforce_in_mode-both_kessel env required id =
    both_kessel_tier env required id (get_permissions env.rbac)
