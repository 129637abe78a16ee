-- ===== src/Access/Identity.antt =====
-- The identity of a request: internal/api/middleware/identityType.go, and what
-- internal/common/kessel/authorization.go and internal/common/unleash/features read of it.
--
-- An absent identity is one whose type is empty. Letters outside of ASCII that Go lower cases to an
-- ASCII letter are the dotted capital i and the sign of the kelvin; any other is left as it is.
pub mod Agreement
use Prim.Native.Char.{Char, char, code}
use playbook_dispatcher.Common.{
  ℕ, ◌+◌, Bool, ◌&&◌, ◌||◌, not, String, Option, none, some, List, [], ◌∷◌, if◌then◌else◌, leb, eqb,
  ◌==◌, concat, Result, ok, err,
}
use Prim.Native.String

pub record Identity : Type 0 where
  pub identity_type : String
  pub org_id : String
  pub user : Option String
  pub service_account : Option String

-- `strings.ToLower`
abbrev letters : List (ℕ × Char)
letters =
    (65, "a")
    ∷ (66, "b")
    ∷ (67, "c")
    ∷ (68, "d")
    ∷ (69, "e")
    ∷ (70, "f")
    ∷ (71, "g")
    ∷ (72, "h")
    ∷ (73, "i")
    ∷ (74, "j")
    ∷ (75, "k")
    ∷ (76, "l")
    ∷ (77, "m")
    ∷ (78, "n")
    ∷ (79, "o")
    ∷ (80, "p")
    ∷ (81, "q")
    ∷ (82, "r")
    ∷ (83, "s")
    ∷ (84, "t")
    ∷ (85, "u")
    ∷ (86, "v")
    ∷ (87, "w")
    ∷ (88, "x")
    ∷ (89, "y")
    ∷ (90, "z")
    ∷ (304, "i")
    ∷ (8490, "k")
    ∷ []

abbrev lower_in : List (ℕ × Char) → Char → Char
lower_in [] c = c
lower_in ((n, l) ∷ ls) c = let rest = lower_in ls c in if eqb (code c) n then l else rest

unfoldable pub to_lower : String → String
to_lower String.[] = ""
to_lower (String.◌∷◌ c s) = String.◌∷◌ (lower_in letters c) (to_lower s)

pub data Served : Type 0 where
  next : Served
  refused : ℕ → String → Served

-- `EnforceIdentityType`
unfoldable pub enforce_identity_type : Identity → Served
enforce_identity_type id =
    let principal_type = to_lower id.identity_type in
    if id.identity_type == ""
    then refused 500 "identity header missing in context"
    else if not (principal_type == "user") && not (principal_type == "serviceaccount")
    then refused 403 (concat "unauthorized principal type: " principal_type)
    else next

-- A user id that is absent or empty is refused.
abbrev pub required_id : String → Option String → Result String String
required_id message none = err message
required_id message (some user_id) = if user_id == "" then err message else ok user_id

-- `extractUserID`
unfoldable pub extract_user_id : Identity → Result String String
extract_user_id id =
    if id.identity_type == "User"
    then required_id "user ID is empty" id.user
    else if id.identity_type == "ServiceAccount"
    then required_id "service account user ID is empty" id.service_account
    else err (
        concat "unsupported identity type: "
          (concat id.identity_type " (only User and ServiceAccount are supported)"))
