-- ===== src/Access/Permissions.antt =====
-- Permissions as RBAC grants them: internal/api/rbac/transform.go, types.go and impl.go.
--
-- The filter of a resource definition is a union of JSON; it stands here as what the two decodings of
-- it return, `none` where the decoding fails.
pub mod Matching
use Prim.Native.Char.{Char, code}
use Prim.Native.String
use playbook_dispatcher.Common.{
  Fault, nil_dereference, ℕ, Bool, true, false, ◌&&◌, ◌||◌, String, Option, none, some, List, [],
  ◌∷◌, ◌++◌, if◌then◌else◌, eqb, leb, ◌==◌, Result, ok, err, ◌>>=?◌,
}

pub record OperationEqual : Type 0 where
  pub key : String
  pub value : Option String

pub record OperationIn : Type 0 where
  pub in_key : String
  pub values : List (Option String)

pub record ResourceDefinition : Type 0 where
  pub as_equal : Option OperationEqual
  pub as_in : Option OperationIn

pub record Access : Type 0 where
  pub permission : String
  pub resource_definitions : List ResourceDefinition

pub record RequiredPermission : Type 0 where
  pub application : String
  pub resource_type : String
  pub verb : String

-- `DispatcherPermission`
abbrev pub dispatcher_permission : String → String → RequiredPermission
dispatcher_permission resource_type verb = record {
  application = "playbook-dispatcher";
  resource_type = resource_type;
  verb = verb;
}

-- A match of `([[:ascii:]]+?):` at the start of a text: up to the first colon after the first
-- character. `none` where there is no such colon.
unfoldable pub until_colon : String → Option (String × String)
until_colon String.[] = none
until_colon (String.◌∷◌ c s) =
    let rest = until_colon s in
    if eqb (code c) 58 then some ("", s) else (rest >>=? λ r. some (String.◌∷◌ c r.0, r.1))

unfoldable pub colon_field : String → Option (String × String)
colon_field String.[] = none
colon_field (String.◌∷◌ c s) = until_colon s >>=? λ r. some (String.◌∷◌ c r.0, r.1)

unfoldable pub is_ascii : String → Bool
is_ascii String.[] = true
is_ascii (String.◌∷◌ c s) = leb (code c) 127 && is_ascii s

abbrev pub Parsed : Type 0
Parsed = record { parsed_application : String; parsed_resource : String; parsed_verb : String }

abbrev pub last_field : String → String → String → Option Parsed
last_field a r String.[] = none
last_field a r (String.◌∷◌ c s) =
    some (record { parsed_application = a; parsed_resource = r; parsed_verb = String.◌∷◌ c s })

-- `permissionRegex.FindStringSubmatch`
unfoldable pub find_submatch : String → Option Parsed
find_submatch text =
    if is_ascii text
    then (colon_field text >>=? λ a. colon_field a.1 >>=? λ r. last_field a.0 r.0 r.1)
    else none

abbrev pub matches : String → String → Bool
matches expected actual = actual == expected || actual == "*"

abbrev pub grants_parsed : RequiredPermission → Option Parsed → Bool
grants_parsed required none = false
grants_parsed required (some parsed) =
    required.application == parsed.parsed_application
    && matches required.resource_type parsed.parsed_resource
    && matches required.verb parsed.parsed_verb

-- The test of the loop of `FilterPermissions`.
abbrev pub grants : RequiredPermission → Access → Bool
grants required value = grants_parsed required (find_submatch value.permission)

-- `FilterPermissions`
unfoldable pub filter_permissions : List Access → RequiredPermission → List Access
filter_permissions [] required = []
filter_permissions (value ∷ values) required =
    let rest = filter_permissions values required in
    if grants required value then value ∷ rest else rest

abbrev pub present : List (Option String) → List String
present [] = []
present (none ∷ vs) = present vs
present (some v ∷ vs) = v ∷ present vs

abbrev in_values : Option OperationIn → String → List String
in_values none key = []
in_values (some op) key = if op.in_key == key then present op.values else []

-- The values of one filter: those of an equation, unless it has none or is not one.
abbrev value_or_in : Option String → Option OperationIn → String → List String
value_or_in none op key = in_values op key
value_or_in (some v) op key = v ∷ []

abbrev equal_values : Option OperationEqual → Option OperationIn → String → List String
equal_values none op key = in_values op key
equal_values (some equal) op key = if equal.key == key then value_or_in equal.value op key else []

unfoldable pub definition_values : List ResourceDefinition → String → List String
definition_values [] key = []
definition_values (d ∷ ds) key = equal_values d.as_equal d.as_in key ++ definition_values ds key

-- `GetPredicateValues`
unfoldable pub get_predicate_values : List Access → String → List String
unfolding definition_values
get_predicate_values [] key = []
get_predicate_values (p ∷ ps) key =
    definition_values p.resource_definitions key ++ get_predicate_values ps key

-- What the generated client answers: a failed request, or a reply. A reply that is not the JSON of
-- status 200 has no page. The links and the meta data of a page may be absent.
pub record Page : Type 0 where
  pub access : List Access
  pub links : Option (Option String)
  pub has_meta : Bool

pub data PermissionAnswer : Type 0 where
  request_failed : String → PermissionAnswer
  replied : Option Page → PermissionAnswer

-- An error that is returned, or a panic.
pub data Failure : Type 0 where
  failed : String → Failure
  panicked : Fault → Failure

abbrev pub page_access : Page → Option (Option String) → Result Failure (List Access)
page_access page none = err (panicked nil_dereference)
page_access page (some none) = ok page.access
page_access page (some (some next)) =
    if page.has_meta then err (failed "RBAC page overflow") else err (panicked nil_dereference)

-- `GetPermissions` of the client
unfoldable pub get_permissions : PermissionAnswer → Result Failure (List Access)
get_permissions (request_failed e) = err (failed e)
get_permissions (replied none) = err (failed "unexpected status code")
get_permissions (replied (some page)) = page_access page page.links
