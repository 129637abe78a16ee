-- ===== src/Access/Enforcement.antt =====
-- The authorization of a request of the public API: `EnforcePermissions` of
-- internal/api/middleware/rbac.go. The probes are the metrics that it counts, in their order.
pub mod Safety
pub mod Shadow
use playbook_dispatcher.Common.{
  Fault, ℕ, Bool, true, false, ◌&&◌, ◌||◌, not, String, Option, none, some, List, [], ◌∷◌, ◌++◌,
  has_none, all, if◌then◌else◌, ◌==◌, text_lt, Result, ok, err, ◌>>=◌,
}
use playbook_dispatcher.Satellite.{sort_slice}
use playbook_dispatcher.Access.Identity.{Identity}
use playbook_dispatcher.Access.Modes.{
  ModeConfig, Unleash, rbac_only, both_rbac_enforces, both_kessel_enforces, kessel_only,
  get_kessel_auth_mode_with_context,
}
use playbook_dispatcher.Access.Permissions.{
  Access, RequiredPermission, PermissionAnswer, Failure, failed, panicked, get_permissions,
  filter_permissions, get_predicate_values,
}
use playbook_dispatcher.Access.Kessel.{
  GlobalManager, get_workspace_id, check_application_permissions,
}

pub data Probe : Type 0 where
  rbac_error rbac_rejected kessel_passed kessel_failed kessel_error kessel_rbac_match
        kessel_rbac_mismatch :
      Probe

-- What the middleware is built from and what the services answer to this request. The permissions
-- are the entries of `V2ApplicationPermissions` in the order in which Go visits them.
pub record Env : Type 0 where
  pub mode_config : ModeConfig
  pub unleash : Unleash
  pub rbac : PermissionAnswer
  pub manager : GlobalManager
  pub applications : List (String × String)

pub data Refusal : Type 0 where
  http_error : ℕ → String → Refusal
  panic : Fault → Refusal

-- What the middleware puts into the context of the request.
pub record Context : Type 0 where
  pub permissions : Option (List Access)
  pub allowed_services : List String

-- `getRbacAllowedServices`
abbrev pub get_rbac_allowed_services : List Access → List String
get_rbac_allowed_services permissions = get_predicate_values permissions "service"

abbrev pub or_unknown : String → String
or_unknown text = if text == "" then "unknown" else text

-- The end of `getKesselAllowedServices`: no error leaves it.
abbrev pub kessel_services : Result String (List String) → List Probe × List String
kessel_services (err e) = (kessel_error ∷ [], [])
kessel_services (ok []) = (kessel_failed ∷ [], [])
kessel_services (ok (app ∷ apps)) = (kessel_passed ∷ [], app ∷ apps)

-- What the workspace lookup and the checks of Kessel return.
unfoldable pub kessel_answer : Env → Identity → Result String (List String)
kessel_answer env id = get_workspace_id env.manager id (or_unknown id.org_id) >>= λ workspace_id.
    check_application_permissions env.manager id workspace_id env.applications

-- `getKesselAllowedServices`
unfoldable pub get_kessel_allowed_services : Env → Identity → List Probe × List String
get_kessel_allowed_services env id = kessel_services (kessel_answer env id)

-- `reflect.DeepEqual` of two slices of texts
abbrev pub same_texts : List String → List String → Bool
same_texts [] [] = true
same_texts (x ∷ xs) (y ∷ ys) = x == y && same_texts xs ys
same_texts xs ys = false

-- `logComparison`
unfoldable pub log_comparison : List String → List String → List Probe
unfolding sort_slice
log_comparison rbac_services kessel =
    if same_texts (sort_slice text_lt rbac_services) (sort_slice text_lt kessel)
    then kessel_rbac_match ∷ []
    else kessel_rbac_mismatch ∷ []

-- `computeAllowedServices`
unfoldable pub compute_allowed_services :
    Env → Identity → List Access → String → List Probe × List String
compute_allowed_services env id permissions mode =
    let from_rbac = get_rbac_allowed_services permissions in
    let from_kessel = get_kessel_allowed_services env id in
    let compared = from_kessel.0 ++ log_comparison from_rbac from_kessel.1 in
    if mode == rbac_only
    then ([], from_rbac)
    else if mode == both_rbac_enforces
    then (compared, from_rbac)
    else if mode == both_kessel_enforces
    then (compared, from_kessel.1)
    else if mode == kessel_only
    then from_kessel
    else ([], from_rbac)

-- The loop over the required permissions.
abbrev pub meets : List Access → RequiredPermission → Bool
meets permissions required = not (has_none (filter_permissions permissions required))

-- The first tier: the permissions that RBAC grants meet what is required.
abbrev pub rbac_tier :
    Result Failure (List Access)
    → List RequiredPermission
    → List Probe × Result Refusal (Option (List Access))
rbac_tier (err (failed e)) required =
    (rbac_error ∷ [], err (http_error 503 "error getting permissions from RBAC"))
rbac_tier (err (panicked fault)) required = ([], err (panic fault))
rbac_tier (ok permissions) required =
    if all (meets permissions) required
    then ([], ok (some permissions))
    else (rbac_rejected ∷ [], err (http_error 403 "Forbidden"))

-- Kessel's answer is the one that counts.
abbrev pub is_kessel_enforcing : String → Bool
is_kessel_enforcing mode = mode == both_kessel_enforces || mode == kessel_only

abbrev granted : Option (List Access) → List Access
granted none = []
granted (some permissions) = permissions

-- The second tier: the services of the context.
abbrev pub service_tier : String → Option (List Access) → List String → Result Refusal Context
service_tier mode permissions services =
    if has_none services && is_kessel_enforcing mode
    then err (http_error 403 "Forbidden")
    else ok (record { permissions = permissions; allowed_services = services })

abbrev pub after_rbac :
    Env
    → Identity
    → String
    → List Probe × Result Refusal (Option (List Access))
    → List Probe × Result Refusal Context
after_rbac env id mode (probes, err e) = (probes, err e)
after_rbac env id mode (probes, ok permissions) =
    let computed = compute_allowed_services env id (granted permissions) mode in
    (probes ++ computed.0, service_tier mode permissions computed.1)

-- The middleware in one mode; a context is what the next handler is called with.
unfoldable pub enforce_in_mode :
    Env → List RequiredPermission → Identity → String → List Probe × Result Refusal Context
enforce_in_mode env required id mode =
    after_rbac env id mode
      (if mode == kessel_only then ([], ok none) else rbac_tier (get_permissions env.rbac) required)

-- `EnforcePermissions`
unfoldable pub enforce_permissions :
    Env → List RequiredPermission → Identity → List Probe × Result Refusal Context
unfolding enforce_in_mode
enforce_permissions env required id =
    enforce_in_mode env required id
      (get_kessel_auth_mode_with_context env.mode_config env.unleash id)

-- `GetPermissions` and `GetAllowedServices`, on the context of a request, if it passed the middleware.
abbrev pub get_context_permissions : Option Context → List Access
get_context_permissions none = []
get_context_permissions (some context) = granted context.permissions

abbrev pub get_allowed_services : Option Context → List String
get_allowed_services none = []
get_allowed_services (some context) = context.allowed_services
