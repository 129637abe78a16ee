-- ===== src/Access/Enforcement/Safety.antt =====
-- Which requests the middleware lets through, and with which services.
use playbook_dispatcher.Common.{
  ◌≡◌, refl, sym, ◌∙◌, ap, Bool, true, false, ◌&&◌, String, Option, none, some, List, [], ◌∷◌,
  has_none, all, any, contains, ◌==◌, eq_iff, eq_refl, Result, ok, err, >>=-eq-ok, ◌⊎◌, inl, inr,
  Bool-cases, and_false, arith,
}
use mathlib.Core.Bool.{false≢true}
use playbook_dispatcher.Access.Identity.{Identity}
use playbook_dispatcher.Access.Modes.{
  both_kessel_enforces, kessel_only, get_kessel_auth_mode_with_context,
}
use playbook_dispatcher.Access.Permissions.{
  Failure, failed, panicked, Access, RequiredPermission, get_permissions,
}
use playbook_dispatcher.Access.Kessel.{get_workspace_id, allowed_true, check_permission}
use playbook_dispatcher.Access.Kessel.Checks.{passes, said, check_application_permissions-contains}
use playbook_dispatcher.Access.Kessel.Asked.{IsAsked, check_permission-IsAsked}
use playbook_dispatcher.Access.Enforcement.{
  http_error, panic, Env, Refusal, Context, Probe, kessel_services, kessel_answer,
  get_kessel_allowed_services, compute_allowed_services, meets, rbac_tier, is_kessel_enforcing,
  granted, service_tier, after_rbac, enforce_in_mode, enforce_permissions, or_unknown,
}

-- What RBAC granted, where it was asked.
abbrev pub IsGrantedByRbac : Env → List RequiredPermission → Option (List Access) → Type 0
IsGrantedByRbac env required none = ⊥
IsGrantedByRbac env required (some permissions) =
    (get_permissions env.rbac ≡ ok permissions) × (all (meets permissions) required ≡ true)

abbrev pub IsGuarded :
    Env → List RequiredPermission → Identity → String → Result Refusal Context → Type 0
IsGuarded env required id mode (err (http_error code message)) = (code ≡ 503) ⊎ (code ≡ 403)
IsGuarded env required id mode (err (panic fault)) = get_permissions env.rbac ≡ err (panicked fault)
IsGuarded env required id mode (ok context) =
    (((mode == kessel_only) ≡ true) ⊎ IsGrantedByRbac env required context.permissions)
    × ((is_kessel_enforcing mode ≡ false)
        ⊎ ((has_none context.allowed_services ≡ false)
            × (kessel_answer env id ≡ ok context.allowed_services)))

kessel_services-eq :
    (answer : Result String (List String))
    → has_none (kessel_services answer).1 ≡ false
    → answer ≡ ok (kessel_services answer).1
kessel_services-eq (err e) h = absurd (false≢true (sym h))
kessel_services-eq (ok []) h = absurd (false≢true (sym h))
kessel_services-eq (ok (app ∷ apps)) h = refl

-- Where Kessel enforces, the services are those of Kessel.
computed-kessel :
    (env : Env) (id : Identity) (permissions : List Access) (mode : String)
    → is_kessel_enforcing mode ≡ true
    → (compute_allowed_services env id permissions mode).1
      ≡ (kessel_services (kessel_answer env id)).1
unfolding compute_allowed_services get_kessel_allowed_services
computed-kessel env id permissions mode h = elim (Bool-cases (mode == both_kessel_enforces)) [
  | inl e ↦ rw ((eq_iff mode both_kessel_enforces).0 e) refl
  | inr e ↦ rw ((eq_iff mode kessel_only).0 (rw e at h)) refl
]

service_tier-IsGuarded :
    (env : Env) (required : List RequiredPermission) (id : Identity) (mode : String)
    (permissions : Option (List Access))
    → ((mode == kessel_only) ≡ true) ⊎ IsGrantedByRbac env required permissions
    → IsGuarded env required id mode (
        service_tier mode permissions
          (compute_allowed_services env id (granted permissions) mode).1)
service_tier-IsGuarded env required id mode permissions tier =
    elim (Bool-cases (is_kessel_enforcing mode)) [
      | inl k ↦
          rw (computed-kessel env id (granted permissions) mode k, k)
            (elim (Bool-cases (has_none (kessel_services (kessel_answer env id)).1)) [
              | inl e ↦ rw e (inr refl)
              | inr e ↦ rw e (tier, inr (e, kessel_services-eq (kessel_answer env id) e))
            ])
      | inr k ↦ rw (k, and_false _) (tier, inl k)
    ]

rbac_tier-IsGuarded :
    (env : Env) (required : List RequiredPermission) (id : Identity) (mode : String)
    (answer : Result Failure (List Access))
    → get_permissions env.rbac ≡ answer
    → IsGuarded env required id mode (after_rbac env id mode (rbac_tier answer required)).1
rbac_tier-IsGuarded env required id mode (err (failed e)) p = inl refl
rbac_tier-IsGuarded env required id mode (err (panicked fault)) p = p
rbac_tier-IsGuarded env required id mode (ok permissions) p =
    elim (Bool-cases (all (meets permissions) required)) [
      | inl h ↦ rw h (service_tier-IsGuarded env required id mode (some permissions) (inr (p, h)))
      | inr h ↦ rw h (inr refl)
    ]

enforce_in_mode-IsGuarded :
    (env : Env) (required : List RequiredPermission) (id : Identity) (mode : String)
    → IsGuarded env required id mode (enforce_in_mode env required id mode).1
unfolding enforce_in_mode
enforce_in_mode-IsGuarded env required id mode = elim (Bool-cases (mode == kessel_only)) [
  | inl h ↦ rw h (service_tier-IsGuarded env required id mode none (inl h))
  | inr h ↦ rw h (rbac_tier-IsGuarded env required id mode (get_permissions env.rbac) refl)
]

-- A request is refused with 503 or 403, or the lookup of RBAC panics, or it is let through, and then: RBAC granted every required
-- permission, unless the mode is kessel-only; and where Kessel enforces, the services of the request
-- are those that Kessel answered, and there is one. So an error of RBAC or of Kessel, where they
-- count, lets no request through.
pub enforce_permissions-IsGuarded :
    (env : Env) (required : List RequiredPermission) (id : Identity)
    → IsGuarded env required id
        (get_kessel_auth_mode_with_context env.mode_config env.unleash id)
        (enforce_permissions env required id).1
unfolding enforce_permissions
enforce_permissions-IsGuarded env required id =
    enforce_in_mode-IsGuarded env required id
      (get_kessel_auth_mode_with_context env.mode_config env.unleash id)

-- Where Kessel enforces, the services of a request that is let through are Kessel's, and there is one.
services-eq :
    (env : Env) (required : List RequiredPermission) (id : Identity) (probes : List Probe)
    (context : Context)
    → is_kessel_enforcing (get_kessel_auth_mode_with_context env.mode_config env.unleash id) ≡ true
    → enforce_permissions env required id ≡ (probes, ok context)
    → (has_none context.allowed_services ≡ false)
      × (kessel_answer env id ≡ ok context.allowed_services)
services-eq env required id probes context enforcing e =
    elim (rw e at (enforce_permissions-IsGuarded env required id)).1 [
      | inl off ↦ absurd (false≢true (sym off ∙ enforcing))
      | inr on ↦ on
    ]

pub services_present :
    (env : Env) (required : List RequiredPermission) (id : Identity) (probes : List Probe)
    (context : Context)
    → is_kessel_enforcing (get_kessel_auth_mode_with_context env.mode_config env.unleash id) ≡ true
    → enforce_permissions env required id ≡ (probes, ok context)
    → has_none context.allowed_services ≡ false
services_present env required id probes context enforcing e =
    (services-eq env required id probes context enforcing e).0

passes-eq : (answer : Result String Bool) → said answer ≡ true → answer ≡ ok true
passes-eq (ok b) h = ap ok h
passes-eq (err e) h = absurd (false≢true h)

passing_entry :
    (check : String → Result String Bool) (app : String) (entries : List (String × String))
    → any (λ entry. entry.0 == app && passes check entry) entries ≡ true
    → (permission : String) × (any (λ entry. entry.0 == app && entry.1 == permission) entries
        ≡ true)
      × (check permission ≡ ok true)
passing_entry check app [] h = absurd (false≢true h)
passing_entry check app (entry ∷ entries) h =
    elim (Bool-cases (entry.0 == app && passes check entry)) [
      | inl here ↦
          let passed : passes check entry ≡ true = ground arith in
          (entry.1, ground (arith, eq_refl entry.1), passes-eq (check entry.1) passed)
      | inr there ↦
          let (permission, listed, c) = passing_entry check app entries (rw there at h) in
          (permission, ground arith, c)
    ]

-- Kessel answered ALLOWED_TRUE for a permission of the service, for the user of the identity and the
-- workspace of its org.
abbrev pub IsGranted : Env → Identity → String → Type 0
IsGranted env id app =
    (workspace_id : String) × (permission : String) × (get_workspace_id env.manager id
        (or_unknown id.org_id)
      ≡ ok workspace_id)
    × (any (λ entry. entry.0 == app && entry.1 == permission) env.applications ≡ true)
    × IsAsked env.manager id workspace_id permission allowed_true

-- Where Kessel enforces, a service that a request is let through with is one for which Kessel answered
-- ALLOWED_TRUE, for the user of the request's identity and the workspace of its org.
pub enforce_permissions-IsGranted :
    (env : Env) (required : List RequiredPermission) (id : Identity) (probes : List Probe)
    (context : Context) (app : String)
    → is_kessel_enforcing (get_kessel_auth_mode_with_context env.mode_config env.unleash id) ≡ true
    → enforce_permissions env required id ≡ (probes, ok context)
    → contains app context.allowed_services ≡ true
    → IsGranted env id app
unfolding kessel_answer
enforce_permissions-IsGranted env required id probes context app enforcing e listed =
    let answered = (services-eq env required id probes context enforcing e).1 in
    let (workspace_id, found, checked) =
      >>=-eq-ok (get_workspace_id env.manager id (or_unknown id.org_id)) _ answered in
    let (permission, entry, allowed) =
      passing_entry (check_permission env.manager id workspace_id) app env.applications (
        sym (
          check_application_permissions-contains env.manager id workspace_id env.applications app
            checked)
        ∙ listed) in
    (
      workspace_id,
      permission,
      found,
      entry,
      check_permission-IsAsked env.manager id workspace_id permission allowed,
    )
