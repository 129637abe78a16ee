-- ===== src/Dispatch/Cancel.antt =====
-- The guards of `ProcessCancel` of internal/api/dispatch/impl.go.
use playbook_dispatcher.Common.{
  String, Option, none, some, [], ◌∷◌, ◌++◌, ◌≡◌, refl, ◌⊎◌, inl, inr, Result, ok, err, Fault, true,
  Bool-cases, ◌==◌, eq_iff, is_some,
}
use playbook_dispatcher.Model.{Uuid, Run, CancelInput, is_running}
use playbook_dispatcher.Dispatch.{
  CloudAnswer, accepted, not_found, request_error, Env, World, DispatchError, Reply, select_run,
  find_run, select_first, cancel_request, cancel_answer, send_cancel, cancel_found, process_cancel,
  refused, send, nil_uuid, rate_limited, run_not_found, run_org_id_mismatch, run_cancel_type,
  run_cancel_not_cancelable,
}

module _ (env : Env) (org_id : String) (cancel : CancelInput) (w : World) where
  -- A request was sent, for a run that may be canceled, or nothing was.
  abbrev pub IsGuarded : World × Result Fault Reply → Type 0
  IsGuarded (w', err f) = ⊥
  IsGuarded (w', ok reply) =
      (w'.store ≡ w.store)
      × (((w'.sent ≡ w.sent) × (is_some reply.error ≡ true))
          ⊎ ((run : Run) × (find_run env cancel.run_id w.store.runs ≡ some run)
              × (run.org_id ≡ org_id)
              × (is_some run.sat_id ≡ true)
              × (is_some run.sat_org_id ≡ true)
              × (is_running run.status ≡ true)
              × (reply.correlation_id ≡ run.correlation_id)
              × (w'.sent ≡ w.sent ++ cancel_request env org_id run cancel ∷ [])))

  not_sent :
      (correlation_id : Uuid) (e : DispatchError) → IsGuarded (refused env w correlation_id e)
  not_sent correlation_id e = (refl, inl (refl, refl))

  cancel_answer-IsGuarded :
      (run : Run) (answer : CloudAnswer)
      → find_run env cancel.run_id w.store.runs ≡ some run
      → run.org_id ≡ org_id
      → is_some run.sat_id ≡ true
      → is_some run.sat_org_id ≡ true
      → is_running run.status ≡ true
      → IsGuarded
          (cancel_answer env (send env (cancel_request env org_id run cancel) w) run cancel answer)
  cancel_answer-IsGuarded run (request_error e) f o s t r =
      (refl, inr (run, f, o, s, t, r, refl, refl))
  cancel_answer-IsGuarded run not_found f o s t r = (refl, inr (run, f, o, s, t, r, refl, refl))
  cancel_answer-IsGuarded run (accepted m) f o s t r = (refl, inr (run, f, o, s, t, r, refl, refl))

  send_cancel-IsGuarded :
      (run : Run) (limit : Option String)
      → find_run env cancel.run_id w.store.runs ≡ some run
      → run.org_id ≡ org_id
      → is_some run.sat_id ≡ true
      → is_some run.sat_org_id ≡ true
      → is_running run.status ≡ true
      → IsGuarded (send_cancel env org_id run cancel w limit)
  send_cancel-IsGuarded run (some e) f o s t r = not_sent nil_uuid (rate_limited e)
  send_cancel-IsGuarded run none f o s t r = cancel_answer-IsGuarded run _ f o s t r

  cancel_found-IsGuarded :
      (o : Option Run)
      → ((run : Run) → o ≡ some run → find_run env cancel.run_id w.store.runs ≡ some run)
      → IsGuarded (cancel_found env org_id cancel w o)
  cancel_found-IsGuarded none f = not_sent nil_uuid (run_not_found cancel.run_id)
  cancel_found-IsGuarded (some run) f = elim (Bool-cases (run.org_id == org_id)) [
    | inr o ↦ rw (o) (not_sent run.correlation_id (run_org_id_mismatch cancel.run_id))
    | inl o ↦ elim (Bool-cases (is_some run.sat_id)) [
      | inr s ↦ rw (o, s) (not_sent run.correlation_id (run_cancel_type run.id))
      | inl s ↦ elim (Bool-cases (is_some run.sat_org_id)) [
        | inr t ↦ rw (o, s, t) (not_sent run.correlation_id (run_cancel_type run.id))
        | inl t ↦ elim (Bool-cases (is_running run.status)) [
          | inr r ↦ rw (o, s, t, r) (not_sent run.correlation_id (run_cancel_not_cancelable run.id))
          | inl r ↦
              rw (o, s, t, r)
                (send_cancel-IsGuarded run env.rate_limit_error (f run refl)
                  ((eq_iff run.org_id org_id).0 o) s t r)
        ]
      ]
    ]
  ]

  -- A cancellation never changes the database. It asks Cloud Connector for something only for a run
  -- that exists, is of the caller's org, is one of Satellite with an org of Satellite, and is running;
  -- and then it sends one request to cancel and replies with the run's correlation id. In every
  -- other case it sends nothing and replies with an error. It does not panic.
  pub process_cancel_lem : IsGuarded (process_cancel env org_id cancel w)
  unfolding process_cancel
  process_cancel_lem = cancel_found-IsGuarded _ (first_lem (env.db_fails select_run))
    where
      first_lem :
          (o : Option String) (run : Run)
          → select_first env o cancel.run_id w.store.runs ≡ some run
          → find_run env cancel.run_id w.store.runs ≡ some run
      first_lem none run e = e
      first_lem (some x) run e = cc

  -- For a running run of Satellite that is the caller's, and where neither the database nor the limiter
  -- fails, the request is sent, and its run is the one replied where Cloud Connector accepts it.
  pub process_cancel-sends :
      (run : Run) (message_id : String)
      → env.db_fails select_run ≡ none
      → env.rate_limit_error ≡ none
      → find_run env cancel.run_id w.store.runs ≡ some run
      → run.org_id ≡ org_id
      → is_some run.sat_id ≡ true
      → is_some run.sat_org_id ≡ true
      → is_running run.status ≡ true
      → env.send_request (cancel_request env org_id run cancel) ≡ accepted message_id
      → process_cancel env org_id cancel w ≡ (
        record w { sent = w.sent ++ cancel_request env org_id run cancel ∷ [] },
        ok (record { run_id = cancel.run_id; correlation_id = run.correlation_id; error = none }),
      )
  unfolding process_cancel
  process_cancel-sends run message_id d l f o s t r a =
      simp (d, f, (eq_iff run.org_id org_id).1 o, s, t, r, l, a)
