-- ===== src/Access/Kessel.antt =====
-- Kessel's clients and its checks: internal/common/kessel/authorization.go, permissions.go and the
-- state of client.go. What the inventory service, its token client and the lookup of workspaces
-- answer are parameters. Go visits the map of permissions in an order of its own: the permissions
-- are an argument, in any order.
pub mod Checks
pub mod Asked
pub mod Startup
use playbook_dispatcher.Common.{
  Bool, true, false, String, Option, none, some, List, [], ◌∷◌, if◌then◌else◌, ◌==◌, concat, Result,
  ok, err, ◌>>=◌,
}
use playbook_dispatcher.Access.Identity.{Identity, extract_user_id}

pub record ResourceReference : Type 0 where
  pub resource_type : String
  pub resource_id : String
  pub reporter : String

-- `CheckRequest` and `CheckForUpdateRequest`; a subject is the reference to a resource.
pub record CheckRequest : Type 0 where
  pub object : ResourceReference
  pub relation : String
  pub subject : ResourceReference

pub data Allowed : Type 0 where
  allowed_unspecified allowed_true allowed_false : Allowed

abbrev pub CallOptions : Type 0
CallOptions = List String

-- `KesselInventoryService`, with `GetTokenCallOption`.
pub record Inventory : Type 0 where
  pub check : CheckRequest → CallOptions → Result String Allowed
  pub check_for_update : CheckRequest → CallOptions → Result String Allowed
  pub get_token_call_option : Result String CallOptions

-- `ClientManager`. The RBAC client looks up the default workspace of an org, the identity being
-- that of the request. Of the token client only its presence matters here.
pub record ClientManager : Type 0 where
  pub client : Option Inventory
  pub has_token_client : Bool
  pub rbac_client : Option (Identity → String → Result String String)

-- `globalManager`
abbrev pub GlobalManager : Type 0
GlobalManager = Option ClientManager

-- `globalManager.client`; both nil tests of `validateClientAndIdentity`.
abbrev pub get_client : GlobalManager → Option Inventory
get_client none = none
get_client (some manager) = manager.client

abbrev pub initialized : Option Inventory → Result String Inventory
initialized none = err "Kessel client not initialized"
initialized (some client) = ok client

-- `validateClientAndIdentity`, returning the client with the principal.
unfoldable pub validate_client_and_identity :
    GlobalManager → Identity → Result String (Inventory × String)
validate_client_and_identity manager id = initialized (get_client manager) >>= λ client.
    extract_user_id id >>= λ user_id. ok (client, concat "redhat/" user_id)

-- `buildKesselReferences`
unfoldable pub build_kessel_references :
    String → String → Result String (ResourceReference × ResourceReference)
build_kessel_references workspace_id principal_id =
    if workspace_id == ""
    then err "workspaceID cannot be empty"
    else if principal_id == ""
    then err "principalID cannot be empty"
    else ok (
      record { resource_type = "workspace"; resource_id = workspace_id; reporter = "rbac" },
      record { resource_type = "principal"; resource_id = principal_id; reporter = "rbac" },
    )

-- `getAuthCallOptions`, after `validateClientAndIdentity` found the client.
abbrev pub has_token : GlobalManager → Bool
has_token none = false
has_token (some manager) = manager.has_token_client

unfoldable pub get_auth_call_options : GlobalManager → Inventory → Result String CallOptions
get_auth_call_options manager client =
    if has_token manager then client.get_token_call_option else ok []

-- `response.GetAllowed() == Allowed_ALLOWED_TRUE`
abbrev pub is_allowed : Allowed → Bool
is_allowed allowed_unspecified = false
is_allowed allowed_true = true
is_allowed allowed_false = false

-- `checkPermissionInternal`
unfoldable pub check_permission_internal :
    Inventory
    → String
    → ResourceReference × ResourceReference
    → CallOptions
    → Bool
    → Result String Bool
check_permission_internal client permission references opts use_check_for_update =
    let request : CheckRequest = record {
      object = references.0;
      relation = permission;
      subject = references.1;
    } in
    (if use_check_for_update
      then client.check_for_update request opts
      else client.check request opts)
    >>= λ response. ok (is_allowed response)

-- The common start of the three checks.
abbrev pub Prepared : Type 0
Prepared = Inventory × (ResourceReference × ResourceReference) × CallOptions

unfoldable pub prepare : GlobalManager → Identity → String → Result String Prepared
prepare manager id workspace_id = validate_client_and_identity manager id >>= λ c.
    build_kessel_references workspace_id c.1 >>= λ references.
    get_auth_call_options manager c.0 >>= λ opts. ok (c.0, references, opts)

-- `CheckPermission` and `CheckPermissionForUpdate`
unfoldable pub check_permission : GlobalManager → Identity → String → String → Result String Bool
check_permission manager id workspace_id permission =
    prepare manager id workspace_id >>= λ p. check_permission_internal p.0 permission p.1 p.2 false

unfoldable pub check_permission_for_update :
    GlobalManager → Identity → String → String → Result String Bool
check_permission_for_update manager id workspace_id permission =
    prepare manager id workspace_id >>= λ p. check_permission_internal p.0 permission p.1 p.2 true

-- `GetWorkspaceID`
abbrev look_up_workspace :
    Option (Identity → String → Result String String) → Identity → String → Result String String
look_up_workspace none id org_id = err "RBAC client not initialized"
look_up_workspace (some rbac) id org_id = rbac id org_id

unfoldable pub get_workspace_id : GlobalManager → Identity → String → Result String String
get_workspace_id none id org_id = err "RBAC client not initialized"
get_workspace_id (some manager) id org_id = look_up_workspace manager.rbac_client id org_id

-- `V2ApplicationPermissions`
abbrev pub v2_application_permissions : List (String × String)
v2_application_permissions =
    ("config_manager", "playbook_dispatcher_config_manager_run_view")
    ∷ ("remediations", "playbook_dispatcher_remediations_run_view")
    ∷ ("tasks", "playbook_dispatcher_tasks_run_view")
    ∷ []

-- The loop of `CheckApplicationPermissions`; the first error ends it.
abbrev pub keep_allowed : String → Bool → List String → List String
keep_allowed app allowed apps = if allowed then app ∷ apps else apps

unfoldable pub check_applications : Prepared → List (String × String) → Result String (List String)
check_applications p [] = ok []
check_applications p ((app, permission) ∷ entries) =
    check_permission_internal p.0 permission p.1 p.2 false >>= λ allowed.
    check_applications p entries >>= λ apps. ok (keep_allowed app allowed apps)

-- `CheckApplicationPermissions`
unfoldable pub check_application_permissions :
    GlobalManager → Identity → String → List (String × String) → Result String (List String)
check_application_permissions manager id workspace_id permissions =
    prepare manager id workspace_id >>= λ p. check_applications p permissions
