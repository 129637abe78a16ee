-- ===== src/Private/Statuses.antt =====
-- What the statuses that the private API answers say of the database.
use playbook_dispatcher.Common.{
  ℕ, ◌≡◌, refl, false, String, Option, none, some, [], ◌∷◌, Result, ok, err, Fault, ◌⊎◌, inl, inr,
  eqb, Bool-cases, ◌++◌, ap, suc, length, length-append, arith,
}
use playbook_dispatcher.Model.{Uuid, Store, Run, GenericRunInput, CancelInput}
use playbook_dispatcher.Dispatch.{
  World, Reply, DispatchError, rate_limited, connector_failed, db_failed, recipient_not_found,
  run_not_found, run_org_id_mismatch, run_cancel_type, run_cancel_not_cancelable,
}
use playbook_dispatcher.Dispatch.Runs.{IsReplied, IsAllOrNothing, process_run_lem}
use playbook_dispatcher.Dispatch.Cancel.{IsGuarded, process_cancel_lem}
use playbook_dispatcher.Private.Inputs.{RunInputV2, parse_run_hosts, run_input_v2_generic_map}
use playbook_dispatcher.Private.Runs.{
  Env, RunCreated, RunCanceled, handle_run_create_error, create_reply, replied, created_from,
  dispatch_v2, create_run_v2, handle_run_cancel_error, cancel_reply, cancel_run, dispatch_error,
}
use playbook_dispatcher.Validator.Steps.{is_org_id_blocklisted}

-- One run was added, with the id that is answered.
abbrev pub AddsRun : Store → Store → Option Uuid → Type 0
AddsRun store store' none = ⊥
AddsRun store store' (some id) =
    (entity : Run) × (store'.runs ≡ store.runs ++ entity ∷ []) × (entity.id ≡ id)

-- The answer 201 stands for a run that is stored, and any other one for a database that is as it was.
abbrev pub IsCreatedOrKept : Store → World × Result Fault RunCreated → Type 0
IsCreatedOrKept store (w', err f) = w'.store ≡ store
IsCreatedOrKept store (w', ok created) =
    ((created.code ≡ 201) × AddsRun store w'.store created.id)
    ⊎ ((eqb created.code 201 ≡ false) × (w'.store ≡ store))

create_error_code :
    (e : DispatchError) → eqb (handle_run_create_error (dispatch_error e)).code 201 ≡ false
unfolding handle_run_create_error
create_error_code (recipient_not_found r) = refl
create_error_code (rate_limited e) = refl
create_error_code (connector_failed e) = refl
create_error_code (db_failed e) = refl
create_error_code (run_not_found id) = refl
create_error_code (run_org_id_mismatch id) = refl
create_error_code (run_cancel_type id) = refl
create_error_code (run_cancel_not_cancelable id) = refl

reply-IsCreatedOrKept :
    (service : String) (run : GenericRunInput) (store : Store) (w' : World) (reply : Reply)
    (e : Option DispatchError)
    → IsReplied service run store w'.store reply e
    → IsCreatedOrKept store (w', ok (create_reply reply e))
reply-IsCreatedOrKept service run store w' reply none (entity, hosts, s, i, _, _, _, _, _, _) =
    inl (refl, (entity, ap (λ st. st.runs) s, i))
reply-IsCreatedOrKept service run store w' reply (some e) s = inr (create_error_code e, s)

created_from-IsCreatedOrKept :
    (service : String) (run : GenericRunInput) (store : Store) (r : World × Result Fault Reply)
    → IsAllOrNothing service run store r
    → IsCreatedOrKept store (created_from r)
created_from-IsCreatedOrKept service run store (w', err f) h = h
created_from-IsCreatedOrKept service run store (w', ok reply) h =
    reply-IsCreatedOrKept service run store w' reply reply.error h

dispatch_v2-IsCreatedOrKept :
    (env : Env) (i : ℕ) (input : RunInputV2) (w : World) (m : Result Fault (Option Uuid))
    → IsCreatedOrKept w.store (dispatch_v2 env i input w m)
dispatch_v2-IsCreatedOrKept env i input w (err f) = refl
dispatch_v2-IsCreatedOrKept env i input w (ok sat_id) =
    created_from-IsCreatedOrKept env.psk_principal
      (run_input_v2_generic_map input input.recipient (parse_run_hosts input.hosts) sat_id) w.store
      _
      (process_run_lem (env.dispatch i) input.org_id env.psk_principal
        (run_input_v2_generic_map input input.recipient (parse_run_hosts input.hosts) sat_id) w)

-- An input of the version 2 is answered with 201 if and only if its run was stored, and then with the
-- id of that run. With any other answer, and with a panic, the database stays as it was.
pub create_run_v2-IsCreatedOrKept :
    (env : Env) (i : ℕ) (input : RunInputV2) (w : World)
    → IsCreatedOrKept w.store (create_run_v2 env i input w)
unfolding create_run_v2 handle_run_create_error
create_run_v2-IsCreatedOrKept env i input w =
    elim (Bool-cases (is_org_id_blocklisted env.blocklist_org_ids input.org_id)) [
      | inl b ↦ rw b (inr (refl, refl))
      | inr b ↦ rw b (dispatch_v2-IsCreatedOrKept env i input w _)
    ]

-- The answer 202 stands for a request that Cloud Connector was given.
abbrev pub IsAskedOrRefused : World → World × Result Fault RunCanceled → Type 0
IsAskedOrRefused w (w', err f) = ⊥
IsAskedOrRefused w (w', ok canceled) =
    (w'.store ≡ w.store)
    × ((eqb canceled.code 202 ≡ false)
        ⊎ ((canceled.code ≡ 202) × (length w'.sent ≡ suc (length w.sent))))

cancel_error_code : (e : DispatchError) → eqb (handle_run_cancel_error e).code 202 ≡ false
unfolding handle_run_cancel_error
cancel_error_code (recipient_not_found r) = refl
cancel_error_code (rate_limited e) = refl
cancel_error_code (connector_failed e) = refl
cancel_error_code (db_failed e) = refl
cancel_error_code (run_not_found id) = refl
cancel_error_code (run_org_id_mismatch id) = refl
cancel_error_code (run_cancel_type id) = refl
cancel_error_code (run_cancel_not_cancelable id) = refl

reply-IsAskedOrRefused :
    (env : Env) (i : ℕ) (input : CancelInput) (w w' : World) (reply : Reply)
    (e : Option DispatchError)
    → e ≡ reply.error
    → IsGuarded (env.dispatch i) input.org_id input w (w', ok reply)
    → IsAskedOrRefused w (w', ok (cancel_reply reply e))
reply-IsAskedOrRefused env i input w w' reply (some e) q (s, g) = (s, inl (cancel_error_code e))
reply-IsAskedOrRefused env i input w w' reply none q (s, inl (n, e)) = cc
reply-IsAskedOrRefused env i input w w' reply none q (s, inr (run, f, o, a, b, c, d, t)) =
    (s, inr (refl, rw t (omega (arith, length-append w.sent _))))

replied-IsAskedOrRefused :
    (env : Env) (i : ℕ) (input : CancelInput) (w : World) (r : World × Result Fault Reply)
    → IsGuarded (env.dispatch i) input.org_id input w r
    → IsAskedOrRefused w (replied (λ reply. cancel_reply reply reply.error) r)
replied-IsAskedOrRefused env i input w (w', err f) g = g
replied-IsAskedOrRefused env i input w (w', ok reply) g =
    reply-IsAskedOrRefused env i input w w' reply reply.error refl g

-- A cancellation never panics and never changes the database. It is answered with 202 only
-- if Cloud Connector was given one more request.
pub cancel_run-IsAskedOrRefused :
    (env : Env) (i : ℕ) (input : CancelInput) (w : World)
    → IsAskedOrRefused w (cancel_run env i input w)
unfolding cancel_run
cancel_run-IsAskedOrRefused env i input w =
    replied-IsAskedOrRefused env i input w _
      (process_cancel_lem (env.dispatch i) input.org_id input w)
