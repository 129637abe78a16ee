-- ===== src/Access/Psk.antt =====
-- The pre-shared keys of the private API: internal/api/middleware/pskAuth.go. The keys stand in the
-- order in which Go visits their map.
pub mod Keys
use Prim.Native.Char.{Char, code}
use Prim.Native.String
use playbook_dispatcher.Common.{
  ℕ, Bool, true, false, ◌&&◌, ◌||◌, not, String, Option, none, some, List, [], ◌∷◌, if◌then◌else◌,
  leb, eqb, ◌==◌, insert, ◌>>=?◌, Result, ok, err, Fault, nil_dereference,
}
use playbook_dispatcher.Access.Identity.{to_lower}

-- What is left after a prefix.
unfoldable pub after_prefix : String → String → Option String
after_prefix String.[] text = some text
after_prefix (String.◌∷◌ p ps) String.[] = none
after_prefix (String.◌∷◌ p ps) (String.◌∷◌ c text) =
    let rest = after_prefix ps text in if eqb (code p) (code c) then rest else none

-- `\s`
abbrev pub is_space : Char → Bool
is_space c =
    eqb (code c) 9 || eqb (code c) 10 || eqb (code c) 12 || eqb (code c) 13 || eqb (code c) 32

-- `[0-9a-zA-Z]`
abbrev pub is_alphanumeric : Char → Bool
is_alphanumeric c =
    (leb 48 (code c) && leb (code c) 57)
    || (leb 97 (code c) && leb (code c) 122)
    || (leb 65 (code c) && leb (code c) 90)

unfoldable pub drop_spaces : String → String
drop_spaces String.[] = ""
drop_spaces (String.◌∷◌ c s) =
    let rest = drop_spaces s in if is_space c then rest else String.◌∷◌ c s

unfoldable pub all_alphanumeric : String → Bool
all_alphanumeric String.[] = true
all_alphanumeric (String.◌∷◌ c s) = is_alphanumeric c && all_alphanumeric s

abbrev pub after_spaces : String → Option String
after_spaces String.[] = none
after_spaces (String.◌∷◌ c s) = if is_space c then some (drop_spaces s) else none

abbrev pub key_text : String → Option String
key_text s = if not (s == "") && all_alphanumeric s then some s else none

-- `headerMatcher.FindStringSubmatch`
unfoldable pub match_header : String → Option String
unfolding after_prefix drop_spaces all_alphanumeric
match_header header =
    after_prefix "PSK" header >>=? λ rest. after_spaces rest >>=? λ key. key_text key

pub data PskOutcome : Type 0 where
  next : String → PskOutcome
  unauthorized : String → PskOutcome
  forbidden : PskOutcome

-- The loop over the keys: the first one that is equal.
unfoldable pub find_principal : List (String × String) → String → PskOutcome
find_principal [] presented = forbidden
find_principal ((principal, key) ∷ entries) presented =
    let rest = find_principal entries presented in if key == presented then next principal else rest

abbrev pub present_key : List (String × String) → Option String → PskOutcome
present_key auth_keys none = unauthorized "Unsupported authentication key format"
present_key auth_keys (some key) = find_principal auth_keys key

-- `CheckPskAuth`, from the header "authorization"; `next` carries the principal of the context.
unfoldable pub check_psk_auth : List (String × String) → String → PskOutcome
unfolding find_principal match_header
check_psk_auth auth_keys authorization =
    if authorization == ""
    then unauthorized "Unauthorized"
    else present_key auth_keys (match_header authorization)

-- `GetPSKPrincipal`: it panics where the middleware set none.
abbrev pub get_psk_principal : Option String → Result Fault String
get_psk_principal none = err nil_dereference
get_psk_principal (some principal) = ok principal

-- `(.+?)=`: up to the first equals sign after the first character.
unfoldable pub until_equals : String → Option (String × String)
until_equals String.[] = none
until_equals (String.◌∷◌ c s) =
    let rest = until_equals s in
    if eqb (code c) 61 then some ("", s) else (rest >>=? λ r. some (String.◌∷◌ c r.0, r.1))

abbrev pub name_field : String → Option (String × String)
name_field String.[] = none
name_field (String.◌∷◌ c s) = until_equals s >>=? λ r. some (String.◌∷◌ c r.0, r.1)

unfoldable pub one_line : String → Bool
one_line String.[] = true
one_line (String.◌∷◌ c s) = not (eqb (code c) 10) && one_line s

abbrev pub filled : String × String → Option (String × String)
filled (name, value) =
    if not (value == "") && one_line name && one_line value then some (name, value) else none

-- `envMatcher.FindStringSubmatch`
unfoldable pub match_env : String → Option (String × String)
unfolding after_prefix until_equals one_line
match_env param = after_prefix "PSK_AUTH_" param >>=? λ rest. name_field rest >>=? λ r. filled r

abbrev pub add_param : Option (String × String) → List (String × String) → List (String × String)
add_param none result = result
add_param (some (name, value)) result = insert (to_lower name) value result

-- The loop of `BuildPskAuthConfigFromEnv`, from the map so far.
unfoldable pub build_psk_auth_config : List (String × String) → List String → List (String × String)
unfolding match_env
build_psk_auth_config result [] = result
build_psk_auth_config result (param ∷ params) =
    build_psk_auth_config (add_param (match_env param) result) params
