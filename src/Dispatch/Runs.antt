-- ===== src/Dispatch/Runs.antt =====
-- What `ProcessRun` of internal/api/dispatch/impl.go leaves in the database, on every path.
use mathlib.Core.List.{append-nil}
use playbook_dispatcher.Common.{
  ℕ, suc, String, Option, none, some, List, [], ◌∷◌, ◌++◌, ◌≡◌, refl, sym, ap, length, All, Result,
  ok, err, ◌>>=◌, Fault, Bool,
}
use playbook_dispatcher.Model.{Uuid, running, Run, RunHost, Store, RunHostsInput, GenericRunInput}
use playbook_dispatcher.Dispatch.Protocols.{Metadata, get_response_full}
use playbook_dispatcher.Dispatch.{
  CloudAnswer, accepted, not_found, request_error, Env, World, DispatchError, Reply, create_run,
  create_hosts, apply_defaults, get_protocol, column_default, new_run, host_name, new_host_run,
  executed, insert_hosts, create_run_hosts, create_entity, committed, panics_or, save_run, send,
  run_request, dispatch_run, process_run, new_correlation_id,
}

-- The rows of a run's hosts.
abbrev pub AreHostsOf : Run → List RunHostsInput → List RunHost → Type 0
AreHostsOf entity inputs hosts =
    (length hosts ≡ length inputs) × All (λ h. (h.run_id ≡ entity.id) × (h.status ≡ running)) hosts

-- One run was added, and the rows of its hosts.
abbrev pub IsSaved : String → GenericRunInput → Store → Store → Reply → Type 0
IsSaved service run store store' reply =
    (entity : Run) × (hosts : List RunHost) × (store'
      ≡ record { runs = store.runs ++ entity ∷ []; run_hosts = store.run_hosts ++ hosts })
    × (entity.id ≡ reply.run_id)
    × (entity.correlation_id ≡ reply.correlation_id)
    × (entity.status ≡ running)
    × (entity.org_id ≡ column_default run.org_id)
    × (entity.service ≡ column_default service)
    × (entity.recipient ≡ run.recipient)
    × AreHostsOf entity run.hosts hosts

abbrev pub IsReplied :
    String → GenericRunInput → Store → Store → Reply → Option DispatchError → Type 0
IsReplied service run store store' reply (some e) = store' ≡ store
IsReplied service run store store' reply none = IsSaved service run store store' reply

abbrev pub IsAllOrNothing : String → GenericRunInput → Store → World × Result Fault Reply → Type 0
IsAllOrNothing service run store (w', err f) = w'.store ≡ store
IsAllOrNothing service run store (w', ok reply) =
    IsReplied service run store w'.store reply reply.error

-- `P` of a result, where there is one.
abbrev pub Gives {ℓ} : {A : Type ℓ} → (A → Type 0) → Result Fault A → Type 0
Gives P (ok a) = P a
Gives P (err f) = Unit

module _ (env : Env) where
  add_host_row :
      (n : ℕ) (entity : Run) (h : RunHostsInput) (hs : List RunHostsInput)
      (name : Result Fault String) (rest : Result Fault (List RunHost))
      → Gives (AreHostsOf entity hs) rest
      → Gives (AreHostsOf entity (h ∷ hs)) (
          name >>= λ host. rest >>= λ hosts. ok (
            record {
              id = env.new_uuid n;
              run_id = entity.id;
              inventory_id = h.inventory_id;
              subscription_manager_id = h.subscription_manager_id;
              host = host;
              sat_sequence = none;
              status = running;
              log = "";
            }
            ∷ hosts))
  add_host_row n entity h hs (err f) rest g = tt
  add_host_row n entity h hs (ok host) (err f) g = tt
  add_host_row n entity h hs (ok host) (ok hosts) g = (ap suc g.0, ((refl, refl), g.1))

  new_host_run_lem :
      (n : ℕ) (entity : Run) (hs : List RunHostsInput)
      → Gives (AreHostsOf entity hs) (new_host_run env n hs entity.id)
  unfolding new_host_run
  new_host_run_lem n entity [] = (refl, tt)
  new_host_run_lem n entity (h ∷ hs) =
      add_host_row n entity h hs (host_name h) (new_host_run env (suc n) hs entity.id)
        (new_host_run_lem (suc n) entity hs)

  -- What the transaction commits.
  abbrev IsCommitted : Store → Run → List RunHostsInput → Result DispatchError Store → Type 0
  IsCommitted store entity inputs (err e) = Unit
  IsCommitted store entity inputs (ok store') =
      (hosts : List RunHost) × (store'
        ≡ record { runs = store.runs; run_hosts = store.run_hosts ++ hosts })
      × AreHostsOf entity inputs hosts

  insert_hosts_lem :
      (o : Option DispatchError) (store : Store) (entity : Run) (inputs : List RunHostsInput)
      (m : Result Fault (List RunHost))
      → Gives (AreHostsOf entity inputs) m
      → Gives (IsCommitted store entity inputs) (m >>= λ hosts. ok (insert_hosts env o store hosts))
  insert_hosts_lem o store entity inputs (err f) g = tt
  insert_hosts_lem (some e) store entity inputs (ok hosts) g = tt
  insert_hosts_lem none store entity inputs (ok hosts) g = (hosts, refl, g)

  create_run_hosts_lem :
      (store : Store) (entity : Run) (inputs : List RunHostsInput)
      → Gives (IsCommitted store entity inputs) (create_run_hosts env store entity inputs)
  create_run_hosts_lem store entity [] = (
    [],
    ap (λ hosts. record store { run_hosts = hosts }) (sym (append-nil store.run_hosts)),
    (refl, tt),
  )
  create_run_hosts_lem store entity (h ∷ hs) =
      insert_hosts_lem (executed env create_hosts) store entity (h ∷ hs) _
        (new_host_run_lem 2 entity (h ∷ hs))

  abbrev pub IsEntity : Uuid → GenericRunInput → Uuid → String → Run → Type 0
  IsEntity id run correlation_id service entity =
      (entity.id ≡ id)
      × (entity.correlation_id ≡ correlation_id)
      × (entity.status ≡ running)
      × (entity.org_id ≡ column_default run.org_id)
      × (entity.service ≡ column_default service)
      × (entity.recipient ≡ run.recipient)

  pub new_run_lem :
      (id : Uuid) (run : GenericRunInput) (correlation_id : Uuid) (full : Bool) (service : String)
      → Gives (IsEntity id run correlation_id service) (new_run id run correlation_id full service)
  unfolding new_run
  new_run_lem id run correlation_id full service = go run.timeout run.web_console_url
    where
      go :
          (timeout : Option ℕ) (url : Option String)
          → Gives (IsEntity id run correlation_id service) (
              new_run id
                (record run { timeout = timeout; web_console_url = url })
                correlation_id
                full
                service)
      go none url = tt
      go (some t) none = tt
      go (some t) (some u) = (refl, refl, refl, refl, refl, refl)

  create_entity_lem :
      (o : Option DispatchError) (store : Store) (entity : Run) (inputs : List RunHostsInput)
      → Gives
          (IsCommitted (record store { runs = store.runs ++ entity ∷ [] }) entity inputs)
          (create_entity env o store entity inputs)
  create_entity_lem (some e) store entity inputs = tt
  create_entity_lem none store entity inputs =
      create_run_hosts_lem (record store { runs = store.runs ++ entity ∷ [] }) entity inputs

  -- From the transaction to the reply.
  committed_lem :
      (service : String) (run : GenericRunInput) (id correlation_id : Uuid) (w : World)
      (entity : Run) (m : Result Fault (Result DispatchError Store))
      → IsEntity id run correlation_id service entity
      → Gives
          (IsCommitted (record w.store { runs = w.store.runs ++ entity ∷ [] }) entity run.hosts)
          m
      → IsAllOrNothing service run w.store (panics_or env w m (committed env w entity))
  committed_lem service run id correlation_id w entity (err f) e c = refl
  committed_lem service run id correlation_id w entity (ok (err x)) e c = refl
  committed_lem service run id correlation_id w entity (ok (ok store)) (_, _, st, org, sv, rc) c =
      (entity, c.0, c.1, refl, refl, st, org, sv, rc, c.2)

  save_entity_lem :
      (service : String) (run : GenericRunInput) (id correlation_id : Uuid) (w : World)
      (m : Result Fault Run)
      → Gives (IsEntity id run correlation_id service) m
      → IsAllOrNothing service run w.store (
          panics_or env w m (λ entity.
            panics_or env w
              (create_entity env (executed env create_run) w.store entity run.hosts)
              (committed env w entity)))
  save_entity_lem service run id correlation_id w (err f) e = refl
  save_entity_lem service run id correlation_id w (ok entity) e =
      committed_lem service run id correlation_id w entity _ e
        (create_entity_lem (executed env create_run) w.store entity run.hosts)

  save_run_lem :
      (service : String) (run : GenericRunInput) (correlation_id : Uuid) (w : World)
      (answer : CloudAnswer)
      → IsAllOrNothing service run w.store (save_run env w service run correlation_id answer)
  unfolding save_run
  save_run_lem service run correlation_id w (request_error e) = refl
  save_run_lem service run correlation_id w not_found = refl
  save_run_lem service run correlation_id w (accepted message_id) =
      save_entity_lem service run (env.new_uuid 1) correlation_id w _ (
        new_run_lem (env.new_uuid 1) run correlation_id
          (get_response_full env.config (get_protocol run)) service)

  dispatch_run_lem :
      (org_id service : String) (run : GenericRunInput) (correlation_id : Uuid) (w : World)
      (o : Option String) (m : Result Fault Metadata)
      → IsAllOrNothing service run w.store
          (panics_or env w m (dispatch_run env org_id service run correlation_id w o))
  dispatch_run_lem org_id service run correlation_id w o (err f) = refl
  dispatch_run_lem org_id service run correlation_id w (some e) (ok metadata) = refl
  dispatch_run_lem org_id service run correlation_id w none (ok metadata) =
      save_run_lem service run correlation_id (send env (run_request env org_id run metadata) w)
        (env.send_request (run_request env org_id run metadata))

  -- A dispatch without an error adds one run and the rows of its hosts, all of them running: the run has
  -- the id and the correlation id of the reply and the org, service and recipient of the request, where an
  -- empty org or service is stored as unknown, and there is one row for each host, with the run's id. Whatever fails or panics, be it the limiter,
  -- Cloud Connector or either insert, the database stays as it was.
  pub process_run_lem :
      (org_id service : String) (run : GenericRunInput) (w : World)
      → IsAllOrNothing service run w.store (process_run env org_id service run w)
  unfolding process_run apply_defaults
  process_run_lem org_id service run w =
      dispatch_run_lem org_id service (apply_defaults env.config run) (new_correlation_id env) w
        env.rate_limit_error _
