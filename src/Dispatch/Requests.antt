-- ===== src/Dispatch/Requests.antt =====
-- What `ProcessRun` of internal/api/dispatch/impl.go asks of Cloud Connector.
use mathlib.Core.Path.{subst}
use playbook_dispatcher.Dispatch.Runs.{Gives, IsEntity, new_run_lem}
use playbook_dispatcher.Common.{
  String, Option, none, some, [], ◌∷◌, ◌++◌, ◌≡◌, refl, ◌⊎◌, inl, inr, Result, ok, err, Fault,
  lookup, is_some, true,
}
use playbook_dispatcher.Model.{Uuid, Run, GenericRunInput, Store}
use playbook_dispatcher.Dispatch.Protocols.{Metadata, get_directive, get_response_full}
use playbook_dispatcher.Dispatch.Protocols.Metadata.{
  correlation_key, CarriesId, build_meta_data-CarriesId,
}
use playbook_dispatcher.Dispatch.{
  CloudRequest, CloudAnswer, accepted, not_found, request_error, Env, World, DispatchError, Reply,
  apply_defaults, get_protocol, create_entity, committed, panics_or, save_run, send, run_request,
  dispatch_run, process_run, new_correlation_id, create_run, executed,
}

module _ (env : Env) (org_id service : String) (run : GenericRunInput) (w : World) where
  -- The request that tells the worker of the run.
  abbrev pub IsRequest : Uuid → CloudRequest → Type 0
  IsRequest correlation_id request =
      (request.org_id ≡ org_id)
      × (request.recipient ≡ run.recipient)
      × (request.url ≡ run.url)
      × (request.directive ≡ get_directive (get_protocol run))
      × (lookup (correlation_key (get_protocol run)) request.metadata ≡ some correlation_id)

  -- Nothing was sent, or that request.
  abbrev pub IsSentOnce : World × Result Fault Reply → Type 0
  IsSentOnce (w', err f) =
      (w'.sent ≡ w.sent)
      ⊎ ((request : CloudRequest) × (w'.sent ≡ w.sent ++ request ∷ [])
          × IsRequest (new_correlation_id env) request)
  IsSentOnce (w', ok reply) =
      (reply.correlation_id ≡ new_correlation_id env)
      × (((w'.sent ≡ w.sent) × (is_some reply.error ≡ true))
          ⊎ ((request : CloudRequest) × (w'.sent ≡ w.sent ++ request ∷ [])
              × IsRequest (new_correlation_id env) request))

-- What follows the request sends nothing more, and replies with the correlation id.
abbrev SendsNoMore : World → Uuid → World × Result Fault Reply → Type 0
SendsNoMore w correlation_id (w', err f) = w'.sent ≡ w.sent
SendsNoMore w correlation_id (w', ok reply) =
    (w'.sent ≡ w.sent) × (reply.correlation_id ≡ correlation_id)

committed-SendsNoMore :
    (env : Env) (w : World) (entity : Run) (m : Result Fault (Result DispatchError Store))
    → SendsNoMore w entity.correlation_id (panics_or env w m (committed env w entity))
committed-SendsNoMore env w entity (err f) = refl
committed-SendsNoMore env w entity (ok (err e)) = (refl, refl)
committed-SendsNoMore env w entity (ok (ok store)) = (refl, refl)

save_entity-SendsNoMore :
    (env : Env) (run : GenericRunInput) (w : World) (id correlation_id : Uuid) (service : String)
    (m : Result Fault Run)
    → Gives (IsEntity env id run correlation_id service) m
    → SendsNoMore w correlation_id (
        panics_or env w m (λ entity.
          panics_or env w
            (create_entity env (executed env create_run) w.store entity run.hosts)
            (committed env w entity)))
save_entity-SendsNoMore env run w id correlation_id service (err f) g = refl
save_entity-SendsNoMore env run w id correlation_id service (ok entity) g =
    subst (λ c. SendsNoMore w c (panics_or env w rows (committed env w entity))) g.1
      (committed-SendsNoMore env w entity rows)
  where
    rows : Result Fault (Result DispatchError Store)
    rows = create_entity env (executed env create_run) w.store entity run.hosts

save_run-SendsNoMore :
    (env : Env) (service : String) (run : GenericRunInput) (w : World) (correlation_id : Uuid)
    (answer : CloudAnswer)
    → SendsNoMore w correlation_id (save_run env w service run correlation_id answer)
unfolding save_run
save_run-SendsNoMore env service run w correlation_id (request_error e) = (refl, refl)
save_run-SendsNoMore env service run w correlation_id not_found = (refl, refl)
save_run-SendsNoMore env service run w correlation_id (accepted message_id) =
    save_entity-SendsNoMore env run w (env.new_uuid 1) correlation_id service _ (
      new_run_lem env (env.new_uuid 1) run correlation_id
        (get_response_full env.config (get_protocol run)) service)

module _ (env : Env) (org_id service : String) (run : GenericRunInput) (w : World) where
  after_request :
      (request : CloudRequest) (x : World × Result Fault Reply)
      → IsRequest env org_id service run w (new_correlation_id env) request
      → SendsNoMore (send env request w) (new_correlation_id env) x
      → IsSentOnce env org_id service run w x
  after_request request (w', err f) q (s) = inr (request, s, q)
  after_request request (w', ok reply) q (s, c) = (c, inr (request, s, q))

  dispatch_run-IsSentOnce :
      (limit : Option String) (m : Result Fault Metadata)
      → CarriesId (get_protocol (apply_defaults env.config run)) (new_correlation_id env) m
      → IsSentOnce env org_id service run w (
          panics_or env w m (
            dispatch_run env org_id service
              (apply_defaults env.config run)
              (new_correlation_id env)
              w
              limit))
  unfolding apply_defaults get_protocol
  dispatch_run-IsSentOnce limit (err f) c = inl refl
  dispatch_run-IsSentOnce (some e) (ok metadata) c = (refl, inl (refl, refl))
  dispatch_run-IsSentOnce none (ok metadata) c =
      after_request (run_request env org_id (apply_defaults env.config run) metadata)
        (save_run env (send env (run_request env org_id (apply_defaults env.config run) metadata) w)
          service (apply_defaults env.config run) (new_correlation_id env)
          (env.send_request (run_request env org_id (apply_defaults env.config run) metadata)))
        (refl, refl, refl, refl, c)
        (save_run-SendsNoMore env service (apply_defaults env.config run) _ (new_correlation_id env)
          (env.send_request (run_request env org_id (apply_defaults env.config run) metadata)))

  -- A dispatch asks Cloud Connector at most once, and asks it where the dispatch has no error: for the
  -- recipient and the playbook of the request, with the directive of its protocol, and with the
  -- correlation id of the reply under the key where the worker looks for it.
  pub process_run-sent : IsSentOnce env org_id service run w (process_run env org_id service run w)
  unfolding process_run
  process_run-sent = dispatch_run-IsSentOnce env.rate_limit_error _ (
      build_meta_data-CarriesId env.hash (apply_defaults env.config run) (new_correlation_id env)
        env.config (get_protocol (apply_defaults env.config run)))
