-- ===== src/Public/Listing/Granted.antt =====
-- The listing behind the middleware that authorizes it.
use playbook_dispatcher.Common.{◌≡◌, sym, ◌∙◌, true, String, List, eq_iff, map, All, ok, inl, inr}
use mathlib.Core.Bool.{false≢true}
use playbook_dispatcher.Access.Identity.{Identity}
use playbook_dispatcher.Access.Modes.{get_kessel_auth_mode_with_context}
use playbook_dispatcher.Access.Permissions.{RequiredPermission}
use playbook_dispatcher.Access.Enforcement
use playbook_dispatcher.Access.Enforcement.{
  Context, Probe, is_kessel_enforcing, enforce_permissions,
}
use playbook_dispatcher.Access.Enforcement.Safety.{
  IsGranted, enforce_permissions-IsGranted, services_present,
}
use playbook_dispatcher.Public.Pages.{get_limit, get_offset, page}
use playbook_dispatcher.Public.Pages.Parts.{IsPart, page-IsPart}
use playbook_dispatcher.Public.Fields.{Row}
use playbook_dispatcher.Public.Listing.{
  Env, Request, Runs, listed, read_row, convert_rows, api_runs_list,
}
use playbook_dispatcher.Public.Listing.Visible.{IsVisible, All-map, take-All, drop-All}
use playbook_dispatcher.Public.Listing.Answers.{api_runs_list-IsAnswer}

-- A run of the identity's org, of a service that Kessel granted to the identity's user.
abbrev pub IsOwn : Enforcement.Env → Identity → Row → Type 0
IsOwn access id row = (row.run.org_id ≡ id.org_id) × IsGranted access id row.run.service

module _ (access : Enforcement.Env) (required : List RequiredPermission) (id : Identity)
    (probes : List Probe) (context : Context)
    (enforcing : is_kessel_enforcing
        (get_kessel_auth_mode_with_context access.mode_config access.unleash id)
      ≡ true)
    (passed : enforce_permissions access required id ≡ (probes, ok context)) where
  visible-IsOwn :
      (request : Request) (row : Row)
      → request.org_id ≡ id.org_id
      → request.allowed_services ≡ context.allowed_services
      → IsVisible request row
      → IsOwn access id row
  visible-IsOwn request row o s (own, inl none) = absurd (
      false≢true (
        sym (services_present access required id probes context enforcing passed) ∙ (rw s at none)))
  visible-IsOwn request row o s (own, inr served) = (
    (eq_iff row.run.org_id request.org_id).0 own ∙ o,
    enforce_permissions-IsGranted access required id probes context row.run.service enforcing passed
        (rw s at served),
  )

  -- Where Kessel enforces, a request that the middleware lets through is shown only runs of the
  -- table, each as often as it stands there at most, of the identity's org and of services for which Kessel answered ALLOWED_TRUE for the identity's user and
  -- the workspace of that org.
  pub api_runs_list-IsOwn :
      (env : Env) (request : Request) (rows : List Row) (runs : Runs)
      → request.org_id ≡ id.org_id
      → request.allowed_services ≡ context.allowed_services
      → api_runs_list env request rows ≡ ok (listed runs)
      → (fields : List String) × (shown : List Row) × (convert_rows
            (map (read_row env.now) shown)
            fields
          ≡ ok runs.runs_data)
        × IsPart shown rows
        × All (IsOwn access id) shown
  api_runs_list-IsOwn env request rows runs o s e =
      let (fields, filters, found, left_out, _, _, p, visible, _, _, converted, _) =
        rw e at (api_runs_list-IsAnswer env request rows) in
      let limit = get_limit request.params.limit in
      let offset = get_offset request.params.offset in
      (
        fields,
        page limit offset found,
        converted,
        page-IsPart limit offset found left_out rows p,
        take-All (IsOwn access id) limit _ (
            drop-All (IsOwn access id) offset _
              (All-map (λ row v. visible-IsOwn request row o s v) found visible)),
      )
