-- ===== src/Dispatch/Totality.antt =====
-- When `ProcessRun` of internal/api/dispatch/impl.go does not panic.
use playbook_dispatcher.Common.{
  ℕ, suc, ◌≡◌, refl, Bool, true, ◌||◌, String, Option, none, some, List, [], ◌∷◌, Result, ok, err,
  ◌>>=◌, Fault, deref, is_some, arith, all,
}
use playbook_dispatcher.Model.{Uuid, Run, RunHostsInput, GenericRunInput, Store}
use playbook_dispatcher.Dispatch.Protocols.{
  Metadata, inventory_ids, get_hosts_line, satellite_meta_data, build_meta_data, get_response_full,
}
use playbook_dispatcher.Dispatch.{
  CloudAnswer, accepted, not_found, request_error, Env, World, DispatchError, Reply, create_run,
  apply_defaults, get_protocol, new_run, host_name, new_host_run, executed, create_entity,
  committed, panics_or, save_run, send, run_request, dispatch_run, process_run, new_correlation_id,
}

-- It returns, and does not panic.
abbrev pub Returns {ℓ} : {A : Type ℓ} → Result Fault A → Type 0
Returns (ok a) = Unit
Returns (err f) = ⊥

-- Every host has a name or an inventory id, and every host has an inventory id.
abbrev pub is_named : RunHostsInput → Bool
is_named h = is_some h.ansible_host || is_some h.inventory_id

abbrev pub has_inventory_id : RunHostsInput → Bool
has_inventory_id h = is_some h.inventory_id

bind-Returns {ℓ κ} :
    {A : Type ℓ} {B : Type κ} (m : Result Fault A) (f : A → Result Fault B)
    → Returns m
    → ((a : A) → Returns (f a))
    → Returns (m >>= f)
bind-Returns (ok a) f h k = k a
bind-Returns (err x) f h k = absurd h

deref-Returns {ℓ} : {A : Type ℓ} (o : Option A) → is_some o ≡ true → Returns (deref o)
deref-Returns none h = cc
deref-Returns (some a) h = tt

host_name-Returns : (h : RunHostsInput) → is_named h ≡ true → Returns (host_name h)
host_name-Returns h n = go h.ansible_host h.inventory_id n
  where
    go :
        (ansible inventory : Option String)
        → (is_some ansible || is_some inventory) ≡ true
        → Returns (elim ansible [ none ↦ deref inventory | some host ↦ ok host ])
    go none inventory n = deref-Returns inventory n
    go (some host) inventory n = tt

inventory_ids-Returns :
    (hs : List RunHostsInput) → all has_inventory_id hs ≡ true → Returns (inventory_ids hs)
unfolding inventory_ids
inventory_ids-Returns [] a = tt
inventory_ids-Returns (h ∷ hs) a =
    bind-Returns (deref h.inventory_id) _ (deref-Returns h.inventory_id (ground arith)) (λ id.
      bind-Returns (inventory_ids hs) _ (inventory_ids-Returns hs (ground arith)) (λ ids. tt))

module _ (env : Env) where
  new_host_run-Returns :
      (n : ℕ) (hs : List RunHostsInput) (id : Uuid)
      → all is_named hs ≡ true
      → Returns (new_host_run env n hs id)
  unfolding new_host_run
  new_host_run-Returns n [] id a = tt
  new_host_run-Returns n (h ∷ hs) id a =
      bind-Returns (host_name h) _ (host_name-Returns h (ground arith)) (λ host.
        bind-Returns (new_host_run env (suc n) hs id) _
          (new_host_run-Returns (suc n) hs id (ground arith)) (λ hosts. tt))

  panics_or-Returns {ℓ} :
      {A : Type ℓ} (w : World) (m : Result Fault A) (k : A → World × Result Fault Reply)
      → Returns m
      → ((a : A) → Returns (k a).1)
      → Returns (panics_or env w m k).1
  panics_or-Returns w (ok a) k h g = g a
  panics_or-Returns w (err f) k h g = absurd h

  committed-Returns :
      (w : World) (entity : Run) (r : Result DispatchError Store)
      → Returns (committed env w entity r).1
  committed-Returns w entity (err e) = tt
  committed-Returns w entity (ok store) = tt

  create_entity-Returns :
      (o : Option DispatchError) (store : Store) (entity : Run) (hs : List RunHostsInput)
      → all is_named hs ≡ true
      → Returns (create_entity env o store entity hs)
  create_entity-Returns (some e) store entity hs a = tt
  create_entity-Returns none store entity [] a = tt
  create_entity-Returns none store entity (h ∷ hs) a =
      bind-Returns (new_host_run env 2 (h ∷ hs) entity.id) _
        (new_host_run-Returns 2 (h ∷ hs) entity.id a) (λ hosts. tt)

  save_run-Returns :
      (w : World) (service : String) (run : GenericRunInput) (id : Uuid) (answer : CloudAnswer)
      → Returns (
          new_run (env.new_uuid 1) run id (get_response_full env.config (get_protocol run)) service)
      → all is_named run.hosts ≡ true
      → Returns (save_run env w service run id answer).1
  unfolding save_run
  save_run-Returns w service run id (request_error e) r a = tt
  save_run-Returns w service run id not_found r a = tt
  save_run-Returns w service run id (accepted message_id) r a = panics_or-Returns w _ _ r (λ entity.
      panics_or-Returns w _ (committed env w entity)
        (create_entity-Returns (executed env create_run) w.store entity run.hosts a)
        (committed-Returns w entity))

  dispatch_run-Returns :
      (org_id service : String) (run : GenericRunInput) (id : Uuid) (w : World)
      (limit : Option String) (metadata : Metadata)
      → Returns (
          new_run (env.new_uuid 1) run id (get_response_full env.config (get_protocol run)) service)
      → all is_named run.hosts ≡ true
      → Returns (dispatch_run env org_id service run id w limit metadata).1
  dispatch_run-Returns org_id service run id w (some e) metadata r a = tt
  dispatch_run-Returns org_id service run id w none metadata r a =
      save_run-Returns (send env (run_request env org_id run metadata) w) service run id
        (env.send_request (run_request env org_id run metadata)) r a

  process_run-Returns :
      (org_id service : String) (run : GenericRunInput) (w : World)
      → Returns (
          build_meta_data env.hash
            (get_protocol (apply_defaults env.config run))
            (apply_defaults env.config run)
            (new_correlation_id env)
            env.config)
      → all is_named run.hosts ≡ true
      → Returns (process_run env org_id service run w).1
  unfolding process_run apply_defaults new_run
  process_run-Returns org_id service run w b a = panics_or-Returns w _ _ b (λ metadata.
      dispatch_run-Returns org_id service (apply_defaults env.config run) (new_correlation_id env) w
        env.rate_limit_error metadata tt a)

  -- A run for a runner whose hosts all have a name or an inventory id is dispatched without a panic,
  -- whatever the limiter, Cloud Connector and the database answer.
  pub process_run-Returns_runner :
      (org_id service : String) (run : GenericRunInput) (w : World)
      → run.sat_id ≡ none
      → all is_named run.hosts ≡ true
      → Returns (process_run env org_id service run w).1
  unfolding build_meta_data apply_defaults get_protocol
  process_run-Returns_runner org_id service run w s a =
      process_run-Returns org_id service run w (rw s tt) a

  -- A run for Satellite whose hosts all have an inventory id, and that has an org of Satellite, a name
  -- and a principal, is dispatched without a panic, whatever the limiter, Cloud Connector and the
  -- database answer.
  pub process_run-Returns_satellite :
      (org_id service : String) (run : GenericRunInput) (w : World)
      → is_some run.sat_id ≡ true
      → is_some run.sat_org_id ≡ true
      → is_some run.name ≡ true
      → is_some run.principal ≡ true
      → all has_inventory_id run.hosts ≡ true
      → Returns (process_run env org_id service run w).1
  unfolding build_meta_data apply_defaults get_protocol satellite_meta_data
  process_run-Returns_satellite org_id service run w s o n p a =
      process_run-Returns org_id service run w
        (rw s (
          bind-Returns (get_hosts_line run) _
            (bind-Returns (inventory_ids run.hosts) _ (inventory_ids-Returns run.hosts a)
              (λ ids. tt))
            (λ hosts.
              bind-Returns (deref run.principal) _ (deref-Returns run.principal p) (λ principal.
                bind-Returns (deref run.name) _ (deref-Returns run.name n) (λ name.
                  bind-Returns (deref run.sat_id) _ (deref-Returns run.sat_id s) (λ sat_id.
                    bind-Returns (deref run.sat_org_id) _ (deref-Returns run.sat_org_id o)
                      (λ sat_org_id. tt)))))))
        (named run.hosts a)
    where
      named : (hs : List RunHostsInput) → all has_inventory_id hs ≡ true → all is_named hs ≡ true
      named [] a = refl
      named (h ∷ hs) a = ground (arith, named hs)
