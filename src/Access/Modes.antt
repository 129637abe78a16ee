-- ===== src/Access/Modes.antt =====
-- The mode of authorization: internal/common/unleash/features/kessel.go, and `GetAuthMode` of
-- internal/common/kessel/client.go. The answers of Unleash are a parameter.
pub mod Selection
use playbook_dispatcher.Common.{
  Bool, true, false, ◌||◌, String, Option, none, some, List, [], ◌∷◌, if◌then◌else◌, ◌==◌, contains,
}
use playbook_dispatcher.Access.Identity.{Identity}

abbrev pub rbac_only : String
rbac_only = "rbac-only"

abbrev pub both_rbac_enforces : String
both_rbac_enforces = "both-rbac-enforces"

abbrev pub both_kessel_enforces : String
both_kessel_enforces = "both-kessel-enforces"

abbrev pub kessel_only : String
kessel_only = "kessel-only"

pub record ModeConfig : Type 0 where
  pub kessel_enabled : Bool
  pub unleash_enabled : Bool
  pub auth_mode : String

pub record Variant : Type 0 where
  pub name : String
  pub enabled : Bool

pub record UnleashContext : Type 0 where
  pub user_id : String
  pub properties : List (String × String)

-- `unleash.GetVariantWithContext` and `unleash.IsEnabledWithContext`, by the name of the flag.
pub record Unleash : Type 0 where
  pub get_variant : String → UnleashContext → Option Variant
  pub is_enabled : String → UnleashContext → Bool

abbrev pub empty_context : UnleashContext
empty_context = record { user_id = ""; properties = [] }

-- `buildUnleashContext`
unfoldable pub build_unleash_context : Identity → UnleashContext
build_unleash_context id =
    if id.identity_type == ""
    then empty_context
    else if id.org_id == ""
    then empty_context
    else record { user_id = id.org_id; properties = ("orgId", id.org_id) ∷ [] }

-- `mapVariantToMode`
unfoldable pub map_variant_to_mode : String → String
map_variant_to_mode variant_name =
    if variant_name == "rbac-only"
    then rbac_only
    else if variant_name == "both-rbac-enforces"
    then both_rbac_enforces
    else if variant_name == "both-kessel-enforces"
    then both_kessel_enforces
    else if variant_name == "kessel-only"
    then kessel_only
    else ""

abbrev pub valid_modes : List String
valid_modes = rbac_only ∷ both_rbac_enforces ∷ both_kessel_enforces ∷ kessel_only ∷ []

-- `isValidMode`
unfoldable pub is_valid_mode : String → Bool
is_valid_mode mode = contains mode valid_modes

-- The mode that a variant selects; the empty text stands for none.
abbrev pub variant_mode : Option Variant → String
variant_mode none = ""
variant_mode (some variant) = if variant.enabled then map_variant_to_mode variant.name else ""

-- The fallback of `GetKesselAuthModeWithContext`.
abbrev pub environment_mode : ModeConfig → String
environment_mode cfg = if is_valid_mode cfg.auth_mode then cfg.auth_mode else rbac_only

-- `GetKesselAuthModeWithContext`
unfoldable pub get_kessel_auth_mode_with_context : ModeConfig → Unleash → Identity → String
get_kessel_auth_mode_with_context cfg unleash id =
    let mode =
      variant_mode (unleash.get_variant "playbook-dispatcher-kessel" (build_unleash_context id)) in
    if cfg.kessel_enabled
    then (if cfg.unleash_enabled
        then (if mode == "" then environment_mode cfg else mode)
        else environment_mode cfg)
    else rbac_only

-- `GetKesselAuthMode`; the variant is that of `unleash.GetVariant`.
unfoldable pub get_kessel_auth_mode : ModeConfig → Option Variant → String
get_kessel_auth_mode cfg variant =
    let mode = variant_mode variant in
    if cfg.kessel_enabled
    then (if cfg.unleash_enabled
        then (if mode == "" then environment_mode cfg else mode)
        else environment_mode cfg)
    else rbac_only

-- `GetAuthMode`
unfoldable pub get_auth_mode : ModeConfig → String
get_auth_mode cfg =
    if cfg.kessel_enabled
    then (if cfg.auth_mode == rbac_only
          || cfg.auth_mode == both_rbac_enforces
          || cfg.auth_mode == both_kessel_enforces
          || cfg.auth_mode == kessel_only
        then cfg.auth_mode
        else rbac_only)
    else rbac_only

-- `GetVariantWithFallback`
unfoldable pub get_variant_with_fallback : Option Variant → String → Variant
get_variant_with_fallback none fallback = record { name = fallback; enabled = true }
get_variant_with_fallback (some variant) fallback =
    if variant.enabled then variant else record { name = fallback; enabled = true }

-- `IsTokenTimeoutEnabled`
unfoldable pub is_token_timeout_enabled : Unleash → Identity → Bool
is_token_timeout_enabled unleash id =
    unleash.is_enabled "playbook-dispatcher-kessel-tokentimeout" (build_unleash_context id)
