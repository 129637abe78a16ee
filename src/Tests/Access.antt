-- ===== src/Tests/Access.antt =====
-- A user with one service of three, in the mode both-kessel-enforces; lookups, keys and listings.
use playbook_dispatcher.Common.{
  ◌≡◌, refl, true, false, none, some, List, [], ◌∷◌, ok, err, if◌then◌else◌, ◌==◌, ◌&&◌, ◌||◌,
  insert,
}
use playbook_dispatcher.Model.{plus}
use playbook_dispatcher.Access.Identity.{Identity, extract_user_id}
use playbook_dispatcher.Access.Modes.{
  Unleash, get_kessel_auth_mode_with_context, map_variant_to_mode, build_unleash_context,
  is_valid_mode,
}
use playbook_dispatcher.Access.Permissions.{
  Access, RequiredPermission, dispatcher_permission, replied, get_permissions, filter_permissions,
  find_submatch, is_ascii, colon_field, until_colon, definition_values, get_predicate_values,
}
use playbook_dispatcher.Access.Permissions.Matching.{grants-join}
use playbook_dispatcher.Access.Kessel.{
  Inventory, ClientManager, allowed_true, allowed_false, v2_application_permissions,
  get_workspace_id, check_application_permissions, prepare, validate_client_and_identity,
  build_kessel_references, check_applications, check_permission_internal, get_auth_call_options,
}
use playbook_dispatcher.Access.Enforcement.{
  Env, Context, kessel_passed, kessel_rbac_mismatch, enforce_permissions, compute_allowed_services,
  get_kessel_allowed_services, kessel_answer, enforce_in_mode, log_comparison,
}
use playbook_dispatcher.Satellite.{insert_sorted, sort_slice}
use playbook_dispatcher.Access.Modes.{rbac_only, both_kessel_enforces, kessel_only, get_auth_mode}
use playbook_dispatcher.Access.Modes.Selection.{
  or_mode, offered, get_kessel_auth_mode_with_context_lem,
}
use playbook_dispatcher.Access.Permissions.{grants}
use playbook_dispatcher.Access.Permissions.Matching.{is_field, no_colon}
use playbook_dispatcher.Access.Kessel.{check_permission}
use playbook_dispatcher.Access.Kessel.Asked.{IsAsked, check_permission-IsAsked}
use playbook_dispatcher.Access.Kessel.Startup.{Surroundings, KesselConfig}
use playbook_dispatcher.Access.Enforcement.Safety.{IsGuarded, enforce_permissions-IsGuarded}
use playbook_dispatcher.Access.Enforcement.Shadow.{both, enforce_in_mode-both_kessel}
use playbook_dispatcher.Access.Identity.{to_lower}
use playbook_dispatcher.Access.Psk.{
  check_psk_auth, next, match_header, after_prefix, drop_spaces, all_alphanumeric, find_principal,
  build_psk_auth_config, match_env, until_equals, one_line,
}
use playbook_dispatcher.Access.Psk.Keys.{IsAccepted, check_psk_auth-IsAccepted}
use playbook_dispatcher.Tests.Lookups.{calls, token_config}

abbrev pub user : Identity
user = record { identity_type = "User"; org_id = "o1"; user = some "u1"; service_account = none }

abbrev pub unleash : Unleash
unleash = record {
  get_variant = λ flag context. some (record { name = "both-kessel-enforces"; enabled = true });
  is_enabled = λ flag context. true;
}

abbrev pub inventory : Inventory
inventory = record {
  check = λ request opts.
      if request.relation == "playbook_dispatcher_remediations_run_view"
      then ok allowed_true
      else ok allowed_false;
  check_for_update = λ request opts. err "unused";
  get_token_call_option = ok [];
}

abbrev pub manager : ClientManager
manager = record {
  client = some inventory;
  has_token_client = true;
  rbac_client = some (λ id org_id. ok "w1");
}

abbrev pub reads_runs : Access
reads_runs = record { permission = "playbook-dispatcher:run:*"; resource_definitions = [] }

abbrev pub required : List RequiredPermission
required = dispatcher_permission "run" "read" ∷ []

abbrev pub access : Env
access = record {
  mode_config = record { kessel_enabled = true; unleash_enabled = true; auth_mode = "rbac-only" };
  unleash = unleash;
  rbac = replied (some (record { access = reads_runs ∷ []; links = some none; has_meta = true }));
  manager = some manager;
  applications = v2_application_permissions;
}

abbrev pub context : Context
context = record { permissions = some (reads_runs ∷ []); allowed_services = "remediations" ∷ [] }

abbrev around : Surroundings
around = record {
  new_client = λ options. ok inventory;
  calls = λ made id org_id. calls;
  unleash = unleash;
}

abbrev settings : KesselConfig
settings = record {
  kessel_enabled = true;
  kessel_url = "kessel:9000";
  insecure = false;
  auth_enabled = true;
  client_id = "c";
  client_secret = "s";
  oidc_issuer = "i";
  rbac_scheme = "http";
  rbac_host = "rbac";
  rbac_port = "8080";
  rbac_timeout = plus 10_000_000_000;
  token_config = token_config;
}

pub user_passes :
    enforce_permissions access required user
    ≡ (kessel_passed ∷ kessel_rbac_mismatch ∷ [], ok context)
unfolding get_kessel_auth_mode_with_context map_variant_to_mode get_permissions filter_permissions
    find_submatch is_ascii colon_field until_colon compute_allowed_services
    get_kessel_allowed_services kessel_answer get_workspace_id check_application_permissions prepare
    validate_client_and_identity extract_user_id enforce_in_mode log_comparison
    build_kessel_references check_applications check_permission_internal get_auth_call_options
    build_unleash_context is_valid_mode definition_values get_predicate_values insert_sorted
    sort_slice enforce_permissions
user_passes = refl

enforce_permissions-IsGuarded_example :
    IsGuarded access required user
      (get_kessel_auth_mode_with_context access.mode_config access.unleash user)
      (enforce_permissions access required user).1
enforce_permissions-IsGuarded_example = enforce_permissions-IsGuarded access required user

enforce_in_mode-both_kessel_example :
    (enforce_in_mode access required user both_kessel_enforces).1
    ≡ both
        (enforce_in_mode access required user rbac_only).1
        (enforce_in_mode access required user kessel_only).1
enforce_in_mode-both_kessel_example = enforce_in_mode-both_kessel access required user

get_kessel_auth_mode_with_context_lem_example :
    get_kessel_auth_mode_with_context access.mode_config unleash user
    ≡ or_mode (get_auth_mode access.mode_config) (
        offered access.mode_config
          (unleash.get_variant "playbook-dispatcher-kessel" (build_unleash_context user)))
get_kessel_auth_mode_with_context_lem_example =
    get_kessel_auth_mode_with_context_lem access.mode_config unleash user

remediations_allowed :
    check_permission (some manager) user "w1" "playbook_dispatcher_remediations_run_view" ≡ ok true
unfolding check_permission prepare validate_client_and_identity build_kessel_references
    extract_user_id get_auth_call_options check_permission_internal
remediations_allowed = refl

check_permission-IsAsked_example :
    IsAsked (some manager) user "w1" "playbook_dispatcher_remediations_run_view" allowed_true
check_permission-IsAsked_example =
    check_permission-IsAsked (some manager) user "w1" "playbook_dispatcher_remediations_run_view"
      remediations_allowed

grants-join_example : grants (dispatcher_permission "run" "read") reads_runs ≡ (
    "playbook-dispatcher" == "playbook-dispatcher"
    && ("run" == "run" || "run" == "*")
    && ("*" == "read" || "*" == "*"))
unfolding is_field no_colon is_ascii
grants-join_example =
    grants-join (dispatcher_permission "run" "read") reads_runs "playbook-dispatcher" "run" "*" refl
      refl refl refl

check_psk_auth-IsAccepted_example :
    IsAccepted
      (("remediations", "abc123") ∷ [])
      "PSK abc123"
      (check_psk_auth (("remediations", "abc123") ∷ []) "PSK abc123")
check_psk_auth-IsAccepted_example =
    check_psk_auth-IsAccepted (("remediations", "abc123") ∷ []) "PSK abc123"

key_accepted : check_psk_auth (("remediations", "abc123") ∷ []) "PSK abc123" ≡ next "remediations"
unfolding check_psk_auth match_header after_prefix drop_spaces all_alphanumeric find_principal
key_accepted = refl

key_read : build_psk_auth_config [] ("PATH=/bin" ∷ "PSK_AUTH_TASKS=k1" ∷ []) ≡ ("tasks", "k1") ∷ []
unfolding build_psk_auth_config match_env after_prefix until_equals one_line to_lower insert
key_read = refl
