-- ===== src/ResponseConsumer/Handler/Hosts.antt =====
-- The rows of `run_hosts` that a runner's message leaves.
use playbook_dispatcher.Common.{
  ◌≡◌, refl, ◌∙◌, ap, true, false, String, Option, none, some, List, [], ◌∷◌, arith, ◌==◌, eq_iff,
  eq_refl, ok, contains, IsDistinct, inl, inr, Bool-cases,
}
use playbook_dispatcher.Model.{Uuid, Run, RunStatus, RunHost, RunnerEvent}
use playbook_dispatcher.Ansible.{get_ansible_hosts, get_stdout}
use playbook_dispatcher.Ansible.Output.{get_ansible_hosts_lem}
use playbook_dispatcher.ResponseConsumer.Status.{infer_status}
use playbook_dispatcher.ResponseConsumer.RunHosts.{create_record}
use playbook_dispatcher.ResponseConsumer.RunHosts.Upsert.{
  is_at, find_host, merge, overwrite, HasDistinctKeys, find_host-create_record,
}
use playbook_dispatcher.ResponseConsumer.Handler.Messages.{
  Env, ParsedMessageInfo, runner_message_header_value,
}
use playbook_dispatcher.ResponseConsumer.Handler.Writing.{or_localhost, write_hosts}
use playbook_dispatcher.ResponseConsumer.Handler.Runner.{
  RowsMade, map_hosts_total, Accepts, write_hosts_runner,
}

module _ (events : List RunnerEvent) (run_id : Uuid) where
  find_host-RowsMade-none :
      (other : Uuid) (h : String) (hosts : List String) (rows : List RunHost)
      → RowsMade events run_id hosts rows
      → contains h hosts ≡ false
      → find_host other h rows ≡ none
  unfolding find_host is_at
  find_host-RowsMade-none other h [] [] m c = refl
  find_host-RowsMade-none other h [] (r ∷ rows) m c = absurd m
  find_host-RowsMade-none other h (x ∷ hosts) [] m c = absurd m
  find_host-RowsMade-none other h (x ∷ hosts) (r ∷ rows) (e, _, _, _, m) c =
      ground (arith, ap (λ s. s == h) e, find_host-RowsMade-none other h hosts rows m)

  find_host-RowsMade :
      (h : String) (hosts : List String) (rows : List RunHost)
      → RowsMade events run_id hosts rows
      → contains h hosts ≡ true
      → (r : RunHost) × (find_host run_id h rows ≡ some r)
        × (r.status ≡ infer_status events (some h))
        × (get_stdout events none ≡ ok r.log)
  unfolding find_host is_at
  find_host-RowsMade h [] [] m c = cc
  find_host-RowsMade h [] (r ∷ rows) m c = absurd m
  find_host-RowsMade h (x ∷ hosts) [] m c = absurd m
  find_host-RowsMade h (x ∷ hosts) (r ∷ rows) (e, i, s, l, m) c = elim (Bool-cases (x == h)) [
    | inl here ↦
        let same : x ≡ h = (eq_iff x h).0 here in
        (r, rw (e, i, here, eq_refl run_id), s ∙ ap (λ k. infer_status events (some k)) same, l)
    | inr other ↦
        let (q, f, s', l') = find_host-RowsMade h hosts rows m (rw other at c) in
        (q, rw (e, other) (ground arith), s', l')
  ]

  RowsMade-HasDistinctKeys :
      (hosts : List String) (rows : List RunHost)
      → RowsMade events run_id hosts rows
      → IsDistinct hosts
      → HasDistinctKeys rows
  RowsMade-HasDistinctKeys [] [] m d = tt
  RowsMade-HasDistinctKeys [] (r ∷ rows) m d = absurd m
  RowsMade-HasDistinctKeys (x ∷ hosts) [] m d = absurd m
  RowsMade-HasDistinctKeys (x ∷ hosts) (r ∷ rows) (e, i, s, l, m) (fresh, d) = (
    rw e (find_host-RowsMade-none r.run_id x hosts rows m fresh),
    RowsMade-HasDistinctKeys hosts rows m d,
  )

or_localhost-IsDistinct : (hosts : List String) → IsDistinct hosts → IsDistinct (or_localhost hosts)
or_localhost-IsDistinct [] d = (refl, tt)
or_localhost-IsDistinct (h ∷ hosts) d = d

made_rows-HasDistinctKeys :
    (events : List RunnerEvent) (run_id : Uuid) (rows : List RunHost)
    → RowsMade events run_id (or_localhost (get_ansible_hosts events)) rows
    → HasDistinctKeys rows
made_rows-HasDistinctKeys events run_id rows m =
    RowsMade-HasDistinctKeys events run_id (or_localhost (get_ansible_hosts events)) rows m
      (or_localhost-IsDistinct (get_ansible_hosts events) (get_ansible_hosts_lem events).1)

-- What a host of a run has after a message that gives it a status and an output: a new row, or its old
-- one with both, unless that is a success or a failure.
abbrev pub IsWritten : RunStatus → String → Option RunHost → Option RunHost → Type 0
IsWritten status output none found =
    (r : RunHost) × (found ≡ some r) × (r.status ≡ status) × (r.log ≡ output)
IsWritten status output (some old) found = found ≡ some (overwrite old.status old status output)

merge-IsWritten :
    (status : RunStatus) (output : String) (r : RunHost) (old : Option RunHost)
    → r.status ≡ status
    → r.log ≡ output
    → IsWritten status output old (merge old (some r))
merge-IsWritten status output r none s l = (r, refl, s, l)
merge-IsWritten status output r (some old) s l = rw (s, l) refl

-- A runner's message is written where the database accepts it: a host that the events name (or localhost,
-- if they name none) then has its own status and the output of the whole run, in a new row or in its old
-- one; an old row that is a success or a failure stays.
pub write_hosts-IsWritten :
    (env : Env) (info : ParsedMessageInfo) (run : Run) (old : List RunHost)
    {events : List RunnerEvent} (host : String)
    → Accepts env
    → info.runner ≡ some events
    → contains host (or_localhost (get_ansible_hosts events)) ≡ true
    → (new : List RunHost) × (output : String) × (write_hosts env runner_message_header_value info
          run old
        ≡ ok new)
      × (get_stdout events none ≡ ok output)
      × IsWritten
          (infer_status events (some host))
          output
          (find_host run.id host old)
          (find_host run.id host new)
write_hosts-IsWritten env info run old {events} host db i c =
    let hosts = or_localhost (get_ansible_hosts events) in
    let (rows, made, each) = map_hosts_total env run events 0 hosts in
    let (r, found, s, l) = find_host-RowsMade events run.id host hosts rows each c in
    let distinct = made_rows-HasDistinctKeys events run.id rows each in
    (
      create_record rows old,
      r.log,
      write_hosts_runner env "" info db run old rows events i made,
      l,
      rw (find_host-create_record run.id host rows old distinct, found)
          (merge-IsWritten (infer_status events (some host)) r.log r (find_host run.id host old) s
            refl),
    )

-- The rows of a host that the events do not name, of whatever run, stay what they were.
pub other_rows_kept :
    (events : List RunnerEvent) (run_id other : Uuid) (rows old : List RunHost) (h : String)
    → RowsMade events run_id (or_localhost (get_ansible_hosts events)) rows
    → contains h (or_localhost (get_ansible_hosts events)) ≡ false
    → find_host other h (create_record rows old) ≡ find_host other h old
other_rows_kept events run_id other rows old h m c =
    let hosts = or_localhost (get_ansible_hosts events) in
    find_host-create_record other h rows old (made_rows-HasDistinctKeys events run_id rows m)
    ∙ rw (find_host-RowsMade-none events run_id other h hosts rows m c)
