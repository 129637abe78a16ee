-- ===== src/Access/Kessel/Asked.antt =====
-- Which question a check puts to Kessel.
use playbook_dispatcher.Common.{
  ◌≡◌, refl, sym, ◌∙◌, ap, true, String, Option, none, some, ◌==◌, concat, Result, ok, >>=-eq-ok,
  ok_inj, err≢ok, inl, inr, Bool-cases,
}
use mathlib.Core.Bool.{false≢true}
use playbook_dispatcher.Access.Identity.{Identity, extract_user_id}
use playbook_dispatcher.Access.Kessel.{
  GlobalManager, Prepared, prepare, check_permission, check_permission_internal, Inventory,
  CallOptions, Allowed, allowed_true, allowed_false, allowed_unspecified, ResourceReference,
  CheckRequest, initialized, get_client, is_allowed, build_kessel_references,
  validate_client_and_identity, get_auth_call_options,
}

-- Whom Kessel is asked about, and what: the user of the identity, for the permission on the
-- workspace.
abbrev pub IsAsked : GlobalManager → Identity → String → String → Allowed → Type 0
IsAsked manager id workspace_id permission answer =
    (client : Inventory) × (user_id : String) × (opts : CallOptions) × (get_client manager
      ≡ some client)
    × (extract_user_id id ≡ ok user_id)
    × (client.check
          (record {
            object = record {
              resource_type = "workspace";
              resource_id = workspace_id;
              reporter = "rbac";
            };
            relation = permission;
            subject = record {
              resource_type = "principal";
              resource_id = concat "redhat/" user_id;
              reporter = "rbac";
            };
          })
          opts
        ≡ ok answer)

initialized-eq-ok :
    (client : Option Inventory) {c : Inventory} → initialized client ≡ ok c → client ≡ some c
initialized-eq-ok none e = cc
initialized-eq-ok (some client) e = cc

is_allowed-eq : (answer : Allowed) → is_allowed answer ≡ true → answer ≡ allowed_true
is_allowed-eq allowed_true e = refl
is_allowed-eq allowed_unspecified e = absurd (false≢true e)
is_allowed-eq allowed_false e = absurd (false≢true e)

abbrev referring : String → String → ResourceReference × ResourceReference
referring w u = (
  record { resource_type = "workspace"; resource_id = w; reporter = "rbac" },
  record { resource_type = "principal"; resource_id = u; reporter = "rbac" },
)

build_kessel_references-eq :
    (w u : String) {references : ResourceReference × ResourceReference}
    → build_kessel_references w u ≡ ok references
    → references ≡ referring w u
unfolding build_kessel_references
build_kessel_references-eq w u e = elim (Bool-cases (w == "")) [
  | inl h ↦ absurd (err≢ok (rw h at e))
  | inr h ↦ elim (Bool-cases (u == "")) [
    | inl k ↦ absurd (err≢ok (rw (h, k) at e))
    | inr k ↦ sym (ok_inj (rw (h, k) at e))
  ]
]

abbrev request_of : ResourceReference × ResourceReference → String → CheckRequest
request_of references permission = record {
  object = references.0;
  relation = permission;
  subject = references.1;
}

check_follows :
    {client : Inventory} {opts : CallOptions} {made : Inventory × String} {principal : String}
    {references expected : ResourceReference × ResourceReference} {p : Prepared}
    {permission : String} {answer : Result String Allowed}
    → Path (Inventory × String) (client, principal) made
    → Path Prepared (made.0, references, opts) p
    → references ≡ expected
    → p.0.check (request_of p.1 permission) p.2 ≡ answer
    → client.check (request_of expected permission) opts ≡ answer
check_follows c q r e = rw (← r) (rw (← q, ← c) at e)

-- `CheckPermission` allows a request only if Kessel answered ALLOWED_TRUE to the question whether the
-- user of the request's identity has the permission on the workspace.
pub check_permission-IsAsked :
    (manager : GlobalManager) (id : Identity) (workspace_id permission : String)
    → check_permission manager id workspace_id permission ≡ ok true
    → IsAsked manager id workspace_id permission allowed_true
unfolding check_permission prepare validate_client_and_identity check_permission_internal
check_permission-IsAsked manager id workspace_id permission e =
    let (p, e1, e2) = >>=-eq-ok (prepare manager id workspace_id) _ e in
    let (c, f1, f2) = >>=-eq-ok (validate_client_and_identity manager id) _ e1 in
    let (client, g1, g2) = >>=-eq-ok (initialized (get_client manager)) _ f1 in
    let (user_id, h1, h2) = >>=-eq-ok (extract_user_id id) _ g2 in
    let (references, i1, i2) = >>=-eq-ok (build_kessel_references workspace_id c.1) _ f2 in
    let (opts, j1, j2) = >>=-eq-ok (get_auth_call_options manager c.0) _ i2 in
    let (answer, k1, k2) = >>=-eq-ok (p.0.check (request_of p.1 permission) p.2) _ e2 in
    let made = ok_inj h2 in
    let refers =
      build_kessel_references-eq workspace_id c.1 i1
      ∙ ap (λ (m : Inventory × String). referring workspace_id m.1) (sym made) in
    (
      client,
      user_id,
      opts,
      initialized-eq-ok (get_client manager) g1,
      h1,
      check_follows made (ok_inj j2) refers (k1 ∙ ap ok (is_allowed-eq answer (ok_inj k2))),
    )
