-- ===== src/Access/Kessel/Startup.antt =====
-- The start of the Kessel clients: internal/common/kessel/client.go. Making the inventory client is a
-- parameter, as is what the lookups of workspaces meet. The port is given as it is printed.
use playbook_dispatcher.Common.{
  ◌≡◌, Bool, true, false, ◌&&◌, ◌||◌, not, String, Option, none, some, List, [], ◌∷◌, if◌then◌else◌,
  ◌==◌, concat, Result, ok, err, is_some, ◌⊎◌,
}
use playbook_dispatcher.Model.{Integer}
use playbook_dispatcher.Access.Identity.{Identity}
use playbook_dispatcher.Access.Modes.{Unleash}
use playbook_dispatcher.Access.Kessel.{Inventory, ClientManager, GlobalManager, get_client}
use playbook_dispatcher.Access.Workspace.Client.{
  RbacClientConfig, RbacClient, Calls, new_rbac_client,
}
use playbook_dispatcher.Access.Workspace.Tokens.{contains_text}
use playbook_dispatcher.Access.Workspace.Lookup.{get_default_workspace_id}

pub record KesselConfig : Type 0 where
  pub kessel_enabled : Bool
  pub kessel_url : String
  pub insecure : Bool
  pub auth_enabled : Bool
  pub client_id : String
  pub client_secret : String
  pub oidc_issuer : String
  pub rbac_scheme : String
  pub rbac_host : String
  pub rbac_port : String
  pub rbac_timeout : Integer
  pub token_config : RbacClientConfig

pub data ClientOption : Type 0 where
  grpc_url : String → ClientOption
  tls_insecure : Bool → ClientOption
  with_auth : String → String → String → ClientOption

-- `v1beta2.New`, and the surroundings of a lookup. The token client belongs to the SDK: what it answers is
-- given by whether it was made, or its pointer is nil. A panic of it is not among the answers.
pub record Surroundings : Type 0 where
  pub new_client : List ClientOption → Result String Inventory
  pub calls : Bool → Identity → String → Calls
  pub unleash : Unleash

abbrev pub auth_options : KesselConfig → List ClientOption
auth_options cfg =
    if cfg.auth_enabled then with_auth cfg.client_id cfg.client_secret cfg.oidc_issuer ∷ [] else []

abbrev pub client_options : KesselConfig → List ClientOption
client_options cfg = grpc_url cfg.kessel_url ∷ tls_insecure cfg.insecure ∷ auth_options cfg

-- A host that has a port keeps it.
abbrev pub rbac_url_of : KesselConfig → String
rbac_url_of cfg = concat cfg.rbac_scheme (
    concat "://" (
      concat cfg.rbac_host
        (if contains_text cfg.rbac_host ":" then "" else concat ":" cfg.rbac_port)))

abbrev pub lacks_credentials : KesselConfig → Bool
lacks_credentials cfg = cfg.client_id == "" || cfg.client_secret == "" || cfg.oidc_issuer == ""

-- A pointer that is nil becomes an interface that is not, so the client is always given a token client.
abbrev pub rbac_client_of : KesselConfig → RbacClient
rbac_client_of cfg = new_rbac_client (rbac_url_of cfg) true cfg.rbac_timeout cfg.token_config

abbrev pub manager_of : Surroundings → KesselConfig → Inventory → ClientManager
manager_of around cfg client = record {
  client = some client;
  has_token_client = cfg.auth_enabled;
  rbac_client = some (λ id org_id.
      (get_default_workspace_id (rbac_client_of cfg) (around.calls cfg.auth_enabled id org_id)
        around.unleash id org_id).1);
}

-- The manager afterwards, and the error.
abbrev pub Started : Type 0
Started = GlobalManager × Option String

abbrev pub created : Surroundings → KesselConfig → GlobalManager → Result String Inventory → Started
created around cfg manager (err e) = (manager, some (concat "failed to create Kessel client: " e))
created around cfg manager (ok client) = (some (manager_of around cfg client), none)

-- The guards of `Initialize`: the tests are whether Kessel is enabled, its address is empty,
-- authentication is enabled, and a credential is missing.
abbrev pub checked_start :
    Surroundings → KesselConfig → GlobalManager → Bool → Bool → Bool → Bool → Started
checked_start around cfg manager on no_url auth lacking =
    if not on
    then (manager, none)
    else if no_url
    then (manager, some "kessel.url is required when kessel.enabled=true")
    else if auth && lacking
    then (manager, some "kessel authentication requires client.id, client.secret, and oidc.issuer")
    else created around cfg manager (around.new_client (client_options cfg))

-- `Initialize`
unfoldable pub initialize : Surroundings → KesselConfig → GlobalManager → Started
unfolding contains_text
initialize around cfg manager =
    checked_start around cfg manager cfg.kessel_enabled (cfg.kessel_url == "") cfg.auth_enabled
      (lacks_credentials cfg)

-- `IsEnabled` and `Close`
abbrev pub is_enabled_manager : GlobalManager → Bool
is_enabled_manager manager = is_some (get_client manager)

unfoldable pub close : GlobalManager → Started
close manager = (none, none)

-- A start that fails, or that finds Kessel disabled, leaves the manager; any other one has made a client
-- with the configured options, which are complete.
abbrev pub IsStarted : Surroundings → KesselConfig → GlobalManager → Started → Type 0
IsStarted around cfg manager (manager', some e) = manager' ≡ manager
IsStarted around cfg manager (manager', none) =
    ((cfg.kessel_enabled ≡ false) × (manager' ≡ manager))
    ⊎ ((client : Inventory) × (around.new_client (client_options cfg) ≡ ok client)
        × (manager' ≡ some (manager_of around cfg client))
        × ((cfg.kessel_url == "") ≡ false)
        × ((cfg.auth_enabled ≡ false) ⊎ (lacks_credentials cfg ≡ false)))
