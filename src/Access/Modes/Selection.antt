-- ===== src/Access/Modes/Selection.antt =====
-- Which mode a request is authorized by.
use playbook_dispatcher.Common.{
  ◌≡◌, refl, sym, ap, ◌∙◌, Bool, true, false, ◌&&◌, String, Option, none, some, if◌then◌else◌, ◌==◌,
  eq_iff, arith, inl, inr, Bool-cases,
}
use mathlib.Core.Bool.{false≢true}
use playbook_dispatcher.Access.Identity.{Identity}
use playbook_dispatcher.Access.Modes.{
  ModeConfig, Variant, Unleash, build_unleash_context, map_variant_to_mode, is_valid_mode,
  variant_mode, get_kessel_auth_mode_with_context, get_auth_mode, rbac_only, environment_mode,
}

-- The names of the variants are the modes.
map_variant_lem :
    (name : String) → map_variant_to_mode name ≡ (if is_valid_mode name then name else "")
unfolding map_variant_to_mode is_valid_mode
map_variant_lem name = ground (
  arith,
  eq_iff name "rbac-only",
  eq_iff name "both-rbac-enforces",
  eq_iff name "both-kessel-enforces",
  eq_iff name "kessel-only",
  eq_iff "rbac-only" name,
  eq_iff "both-rbac-enforces" name,
  eq_iff "both-kessel-enforces" name,
  eq_iff "kessel-only" name,
)

-- Without a mode from Unleash, the selection is `GetAuthMode` of the Kessel client.
get_auth_mode_lem :
    (cfg : ModeConfig)
    → get_auth_mode cfg ≡ (if cfg.kessel_enabled then environment_mode cfg else rbac_only)
unfolding get_auth_mode is_valid_mode
get_auth_mode_lem cfg = ground (
  arith,
  eq_iff cfg.auth_mode "rbac-only",
  eq_iff cfg.auth_mode "both-rbac-enforces",
  eq_iff cfg.auth_mode "both-kessel-enforces",
  eq_iff cfg.auth_mode "kessel-only",
  eq_iff "rbac-only" cfg.auth_mode,
  eq_iff "both-rbac-enforces" cfg.auth_mode,
  eq_iff "both-kessel-enforces" cfg.auth_mode,
  eq_iff "kessel-only" cfg.auth_mode,
)

-- An enabled variant with the name of a mode.
abbrev pub selects : Option Variant → Option String
selects none = none
selects (some v) = if v.enabled && is_valid_mode v.name then some v.name else none

abbrev pub or_mode : String → Option String → String
or_mode fallback none = fallback
or_mode fallback (some mode) = mode

abbrev pub offered : ModeConfig → Option Variant → Option String
offered cfg variant = if cfg.kessel_enabled && cfg.unleash_enabled then selects variant else none

empty_is_no_mode : (name : String) → name ≡ "" → ¬ (is_valid_mode name ≡ true)
unfolding is_valid_mode
empty_is_no_mode name e h = absurd (false≢true (ap is_valid_mode (sym e) ∙ h))

valid_not_empty : (name : String) → is_valid_mode name ≡ true → (name == "") ≡ false
unfolding is_valid_mode
valid_not_empty name h = elim (Bool-cases (name == "")) [
  | inl e ↦ absurd (empty_is_no_mode name ((eq_iff name "").0 e) h)
  | inr e ↦ e
]

variant_mode_lem :
    (fallback : String) (variant : Option Variant)
    → (if variant_mode variant == "" then fallback else variant_mode variant)
      ≡ or_mode fallback (selects variant)
variant_mode_lem fallback none = refl
variant_mode_lem fallback (some v) = elim (Bool-cases v.enabled) [
  | inl on ↦
      rw (on, map_variant_lem v.name)
        (elim (Bool-cases (is_valid_mode v.name)) [
          | inl valid ↦ rw (valid, valid_not_empty v.name valid) refl
          | inr invalid ↦ rw invalid refl
        ])
  | inr off ↦ rw off refl
]

-- The mode of a request is the name of its variant, where Kessel and Unleash are enabled and the
-- variant is enabled and named as a mode; else it is what `GetAuthMode` of the Kessel client says.
pub get_kessel_auth_mode_with_context_lem :
    (cfg : ModeConfig) (unleash : Unleash) (id : Identity)
    → get_kessel_auth_mode_with_context cfg unleash id
      ≡ or_mode (get_auth_mode cfg) (
          offered cfg (unleash.get_variant "playbook-dispatcher-kessel" (build_unleash_context id)))
unfolding get_kessel_auth_mode_with_context
get_kessel_auth_mode_with_context_lem cfg unleash id = ground (
  arith,
  get_auth_mode_lem cfg,
  variant_mode_lem (environment_mode cfg)
      (unleash.get_variant "playbook-dispatcher-kessel" (build_unleash_context id)),
)

get_auth_mode-is_valid : (cfg : ModeConfig) → is_valid_mode (get_auth_mode cfg) ≡ true
unfolding is_valid_mode
get_auth_mode-is_valid cfg = rw (get_auth_mode_lem cfg) (elim (Bool-cases cfg.kessel_enabled) [
  | inl on ↦ rw on (elim (Bool-cases (is_valid_mode cfg.auth_mode)) [
    | inl valid ↦ rw valid valid
    | inr invalid ↦ rw invalid refl
  ])
  | inr off ↦ rw off refl
])

or_mode-is_valid :
    (fallback : String) (variant : Option Variant) (on : Bool)
    → is_valid_mode fallback ≡ true
    → is_valid_mode (or_mode fallback (if on then selects variant else none)) ≡ true
or_mode-is_valid fallback none on h = ground arith
or_mode-is_valid fallback (some v) on h = ground arith

-- The mode is always one of the four.
pub get_kessel_auth_mode_with_context-is_valid :
    (cfg : ModeConfig) (unleash : Unleash) (id : Identity)
    → is_valid_mode (get_kessel_auth_mode_with_context cfg unleash id) ≡ true
get_kessel_auth_mode_with_context-is_valid cfg unleash id =
    rw (get_kessel_auth_mode_with_context_lem cfg unleash id) (
      or_mode-is_valid (get_auth_mode cfg)
        (unleash.get_variant "playbook-dispatcher-kessel" (build_unleash_context id))
        (cfg.kessel_enabled && cfg.unleash_enabled) (get_auth_mode-is_valid cfg))
