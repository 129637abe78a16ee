-- ===== src/Private/Runs.antt =====
-- The handlers of internal/api/controllers/private that create and cancel runs: runsCreate.go,
-- runsCreateV2.go, runsCancelV2.go and the statuses that they answer.
--
-- The inputs of a request are processed concurrently; here they are one after another, which is one
-- of the orders that can happen, each with its own new uuids. The body is decoded, or is not
-- (`none`). The translation of account numbers, the parsing of uuids and the principal of the
-- pre-shared key are what `Env` holds.
use playbook_dispatcher.Common.{
  ℕ, suc, String, Option, none, some, List, [], ◌∷◌, if◌then◌else◌, Result, ok, err, ◌>>=◌, Fault,
  invalid_uuid,
}
use playbook_dispatcher.Model.{Uuid, CancelInput}
use playbook_dispatcher.Dispatch.{
  World, DispatchError, recipient_not_found, run_not_found, run_org_id_mismatch, run_cancel_type,
  run_cancel_not_cancelable, Reply, process_run, process_cancel,
}
use playbook_dispatcher.Dispatch.{Env as DispatchEnv}
use playbook_dispatcher.Validator.Steps.{is_org_id_blocklisted}
use playbook_dispatcher.Private.Inputs.{
  RunInputV2, RunInput, parse_run_hosts, run_input_v1_generic_map, config_sat_id,
  run_input_v2_generic_map, validate_satellite_fields,
}

pub record RunCreated : Type 0 where
  pub code : ℕ
  pub id : Option Uuid
  pub message : Option String

pub record RunCanceled : Type 0 where
  pub code : ℕ
  pub run_id : Option Uuid

-- What `handleRunCreateError` tells apart.
pub data CreateError : Type 0 where
  dispatch_error : DispatchError → CreateError
  tenant_not_found blocklisted_org_id other_error : CreateError

pub record Env : Type 0 where
  pub dispatch : ℕ → DispatchEnv
  pub parse_uuid : String → Option Uuid
  pub blocklist_org_ids : String
  pub ean_to_org_id : String → Result CreateError String
  pub psk_principal : String

pub data Response (A : Type 0) : Type 0 where
  bad_request : Response A
  invalid_request : String → Response A
  multi_status : List A → Response A

abbrev pub run_create_error : ℕ → String → RunCreated
run_create_error code message = record { code = code; id = none; message = some message }

unfoldable pub handle_run_create_error : CreateError → RunCreated
handle_run_create_error (dispatch_error (recipient_not_found r)) =
    run_create_error 404 "Receipient not found"
handle_run_create_error tenant_not_found = run_create_error 404 "Tenant not found"
handle_run_create_error blocklisted_org_id = run_create_error 400 "Block listed org"
handle_run_create_error _ = run_create_error 500 "Unexpected error during processing"

-- `runCreated`, or `handleRunCreateError` of the error.
abbrev pub create_reply : Reply → Option DispatchError → RunCreated
create_reply reply none = record { code = 201; id = some reply.run_id; message = none }
create_reply reply (some e) = handle_run_create_error (dispatch_error e)

abbrev pub replied {ℓ} :
    {A : Type ℓ} → (Reply → A) → World × Result Fault Reply → World × Result Fault A
replied f (w, err fault) = (w, err fault)
replied f (w, ok reply) = (w, ok (f reply))

abbrev pub created_from : World × Result Fault Reply → World × Result Fault RunCreated
created_from r = replied (λ reply. create_reply reply reply.error) r

-- `parseValidatedUUID`, where there is a `sat_id`.
abbrev pub parse_sat_id : Env → Option String → Result Fault (Option Uuid)
parse_sat_id env none = ok none
parse_sat_id env (some text) = elim (env.parse_uuid text) [
  | none ↦ err invalid_uuid
  | some id ↦ ok (some id)
]

abbrev pub dispatch_v2 :
    Env → ℕ → RunInputV2 → World → Result Fault (Option Uuid) → World × Result Fault RunCreated
dispatch_v2 env i input w (err f) = (w, err f)
dispatch_v2 env i input w (ok sat_id) = created_from (
    process_run (env.dispatch i) input.org_id env.psk_principal
      (run_input_v2_generic_map input input.recipient (parse_run_hosts input.hosts) sat_id) w)

-- What `ApiInternalV2RunsCreate` does with the input number `i`.
unfoldable pub create_run_v2 : Env → ℕ → RunInputV2 → World → World × Result Fault RunCreated
unfolding run_input_v2_generic_map parse_run_hosts handle_run_create_error
create_run_v2 env i input w =
    if is_org_id_blocklisted env.blocklist_org_ids input.org_id
    then (w, ok (handle_run_create_error blocklisted_org_id))
    else dispatch_v2 env i input w (parse_sat_id env (config_sat_id input.recipient_config))

abbrev pub dispatch_v1 :
    Env → ℕ → RunInput → World → Result CreateError String → World × Result Fault RunCreated
dispatch_v1 env i input w (err e) = (w, ok (handle_run_create_error e))
dispatch_v1 env i input w (ok org_id) =
    if is_org_id_blocklisted env.blocklist_org_ids org_id
    then (w, ok (handle_run_create_error blocklisted_org_id))
    else created_from (
        process_run (env.dispatch i) org_id env.psk_principal
          (run_input_v1_generic_map input org_id input.recipient (parse_run_hosts input.hosts)) w)

-- What `ApiInternalRunsCreate` does with the input number `i`.
unfoldable pub create_run_v1 : Env → ℕ → RunInput → World → World × Result Fault RunCreated
unfolding run_input_v1_generic_map parse_run_hosts handle_run_create_error
create_run_v1 env i input w = dispatch_v1 env i input w (env.ean_to_org_id input.account)

-- `PMap`: the results in the order of the inputs.
module _ {A B : Type 0} (fn : ℕ → A → World → World × Result Fault B) where
  abbrev pub then_map :
      (World → World × Result Fault (List B))
      → World × Result Fault B
      → World × Result Fault (List B)
  then_map rest (w, err f) = (w, err f)
  then_map rest (w, ok b) = let (w', r) = rest w in (w', r >>= λ bs. ok (b ∷ bs))

  unfoldable pub p_map : ℕ → List A → World → World × Result Fault (List B)
  p_map i [] w = (w, ok [])
  p_map i (a ∷ as') w = then_map (p_map (suc i) as') (fn i a w)

abbrev pub answered :
    {A : Type 0} → World × Result Fault (List A) → World × Result Fault (Response A)
answered (w, r) = (w, r >>= λ rs. ok (multi_status rs))

-- The first error of the loop over the inputs.
abbrev pub or_next : Option String → Option String → Option String
or_next none rest = rest
or_next (some e) rest = some e

unfoldable pub first_invalid : List RunInputV2 → Option String
first_invalid [] = none
first_invalid (i ∷ inputs) = or_next (validate_satellite_fields i) (first_invalid inputs)

abbrev pub create_valid :
    Env → List RunInputV2 → Option String → World → World × Result Fault (Response RunCreated)
create_valid env inputs (some e) w = (w, ok (invalid_request e))
create_valid env inputs none w = answered (p_map (create_run_v2 env) 0 inputs w)

-- `ApiInternalV2RunsCreate`
unfoldable pub runs_create_v2 :
    Env → Option (List RunInputV2) → World → World × Result Fault (Response RunCreated)
runs_create_v2 env none w = (w, ok bad_request)
runs_create_v2 env (some inputs) w = create_valid env inputs (first_invalid inputs) w

-- `ApiInternalRunsCreate`
unfoldable pub runs_create_v1 :
    Env → Option (List RunInput) → World → World × Result Fault (Response RunCreated)
runs_create_v1 env none w = (w, ok bad_request)
runs_create_v1 env (some inputs) w = answered (p_map (create_run_v1 env) 0 inputs w)

-- `handleRunCancelError`
abbrev pub run_cancel_error : ℕ → RunCanceled
run_cancel_error code = record { code = code; run_id = none }

unfoldable pub handle_run_cancel_error : DispatchError → RunCanceled
handle_run_cancel_error (run_not_found id) = run_cancel_error 404
handle_run_cancel_error (run_org_id_mismatch id) = run_cancel_error 400
handle_run_cancel_error (recipient_not_found r) = run_cancel_error 409
handle_run_cancel_error (run_cancel_not_cancelable id) = run_cancel_error 409
handle_run_cancel_error (run_cancel_type id) = run_cancel_error 400
handle_run_cancel_error _ = run_cancel_error 500

abbrev pub cancel_reply : Reply → Option DispatchError → RunCanceled
cancel_reply reply none = record { code = 202; run_id = some reply.run_id }
cancel_reply reply (some e) = handle_run_cancel_error e

-- What `ApiInternalV2RunsCancel` does with the input number `i`; `CancelInputV2` has the fields of
-- `CancelInput`.
unfoldable pub cancel_run : Env → ℕ → CancelInput → World → World × Result Fault RunCanceled
unfolding handle_run_cancel_error
cancel_run env i input w =
    replied (λ reply. cancel_reply reply reply.error)
      (process_cancel (env.dispatch i) input.org_id input w)

-- `ApiInternalV2RunsCancel`
unfoldable pub runs_cancel :
    Env → Option (List CancelInput) → World → World × Result Fault (Response RunCanceled)
runs_cancel env none w = (w, ok bad_request)
runs_cancel env (some inputs) w = answered (p_map (cancel_run env) 0 inputs w)
