-- ===== src/Access/Kessel/Checks.antt =====
-- What the checks of Kessel let through.
use playbook_dispatcher.Common.{
  ◌≡◌, refl, ◌∙◌, Bool, false, ◌&&◌, String, List, [], ◌∷◌, ◌==◌, Result, ok, err, >>=-eq-ok,
  contains, inl, inr, Bool-cases, arith, any, All,
}
use playbook_dispatcher.Access.Identity.{Identity}
use playbook_dispatcher.Access.Kessel.{
  GlobalManager, Prepared, prepare, check_permission, check_permission_internal, check_applications,
  check_application_permissions, keep_allowed,
}

-- The answer of a single check, as a test of an entry of the map of permissions.
abbrev pub said : Result String Bool → Bool
said (ok b) = b
said (err e) = false

abbrev pub passes : (String → Result String Bool) → String × String → Bool
passes check entry = said (check entry.1)

-- The names of the entries that pass, in their order.
abbrev pub passing : (String → Result String Bool) → List (String × String) → List String
passing check [] = []
passing check (entry ∷ entries) = keep_allowed entry.0 (passes check entry) (passing check entries)

-- No check of the entries fails.
abbrev pub IsAnswered : (String → Result String Bool) → List (String × String) → Type 0
IsAnswered check = All (λ entry. (b : Bool) × (check entry.1 ≡ ok b))

-- The loop over the map, for a check that is the one of the loop.
module _ (p : Prepared) (check : String → Result String Bool)
    (same : (q : String) → check q ≡ check_permission_internal p.0 q p.1 p.2 false) where
  check_applications_lem :
      (entries : List (String × String)) {apps : List String}
      → check_applications p entries ≡ ok apps
      → IsAnswered check entries × (apps ≡ passing check entries)
  unfolding check_applications
  check_applications_lem [] e = (tt, cc)
  check_applications_lem ((app, permission) ∷ entries) e =
      let (allowed, c, e1) =
        >>=-eq-ok (check_permission_internal p.0 permission p.1 p.2 false) _ e in
      let (rest, d, e2) = >>=-eq-ok (check_applications p entries) _ e1 in
      let (answered, listed) = check_applications_lem entries d in
      (((allowed, same permission ∙ c), answered), rw (same permission, c, ← listed) cc)

  check_applications-IsAnswered :
      (entries : List (String × String))
      → IsAnswered check entries
      → check_applications p entries ≡ ok (passing check entries)
  unfolding check_applications
  check_applications-IsAnswered [] h = refl
  check_applications-IsAnswered ((app, permission) ∷ entries) ((b, e), h) =
      rw (← same permission, e, check_applications-IsAnswered entries h) refl

-- A single check starts as the check of all applications does.
check_permission-prepared :
    (manager : GlobalManager) (id : Identity) (workspace_id : String) (p : Prepared)
    → prepare manager id workspace_id ≡ ok p
    → (permission : String)
    → check_permission manager id workspace_id permission
      ≡ check_permission_internal p.0 permission p.1 p.2 false
unfolding check_permission
check_permission-prepared manager id workspace_id p e permission = rw e refl

-- `CheckApplicationPermissions` succeeds only if `CheckPermission` would answer for every
-- application, and then returns the applications that it would allow, in the order visited.
pub check_application_permissions_lem :
    (manager : GlobalManager) (id : Identity) (workspace_id : String)
    (entries : List (String × String)) {apps : List String}
    → check_application_permissions manager id workspace_id entries ≡ ok apps
    → IsAnswered (check_permission manager id workspace_id) entries
      × (apps ≡ passing (check_permission manager id workspace_id) entries)
unfolding check_application_permissions
check_application_permissions_lem manager id workspace_id entries e =
    let (p, prepared, e1) = >>=-eq-ok (prepare manager id workspace_id) _ e in
    check_applications_lem p (check_permission manager id workspace_id)
      (check_permission-prepared manager id workspace_id p prepared) entries e1

passing-contains :
    (check : String → Result String Bool) (app : String) (entries : List (String × String))
    → contains app (passing check entries)
      ≡ any (λ entry. entry.0 == app && passes check entry) entries
passing-contains check app [] = refl
passing-contains check app (entry ∷ entries) = elim (Bool-cases (passes check entry)) [
  | inl h ↦ rw (h, passing-contains check app entries) (ground arith)
  | inr h ↦ rw (h, passing-contains check app entries) (ground arith)
]

-- In whatever order the map is visited, an application is returned exactly if `CheckPermission`
-- allows one of its permissions.
pub check_application_permissions-contains :
    (manager : GlobalManager) (id : Identity) (workspace_id : String)
    (entries : List (String × String)) (app : String) {apps : List String}
    → check_application_permissions manager id workspace_id entries ≡ ok apps
    → contains app apps
      ≡ any
          (λ entry. entry.0 == app && passes (check_permission manager id workspace_id) entry)
          entries
check_application_permissions-contains manager id workspace_id entries app e =
    let (_, same) = check_application_permissions_lem manager id workspace_id entries e in
    rw same (passing-contains (check_permission manager id workspace_id) app entries)

-- With a client, a user id and call options, an error of `CheckApplicationPermissions` is an error of
-- a check: where every check is answered, the allowed applications are returned.
pub check_application_permissions-IsAnswered :
    (manager : GlobalManager) (id : Identity) (workspace_id : String) (p : Prepared)
    (entries : List (String × String))
    → prepare manager id workspace_id ≡ ok p
    → IsAnswered (check_permission manager id workspace_id) entries
    → check_application_permissions manager id workspace_id entries
      ≡ ok (passing (check_permission manager id workspace_id) entries)
unfolding check_application_permissions
check_application_permissions-IsAnswered manager id workspace_id p entries e h = rw e (
    check_applications-IsAnswered p (check_permission manager id workspace_id)
      (check_permission-prepared manager id workspace_id p e) entries h)
