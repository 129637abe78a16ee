-- ===== src/Public/Listing/Shown.antt =====
-- The filter on the status agrees with the status that is shown.
use playbook_dispatcher.Common.{ℕ, ◌≡◌, all, arith}
use playbook_dispatcher.Model.{RunStatus, running, success, failure, timeout, canceled}
use playbook_dispatcher.Public.Fields.{Row}
use playbook_dispatcher.Public.Listing.{same_status, shown_status, status_conditions}

-- A row passes the filter on a status exactly if that status is what the listing shows of it: a running
-- run that has expired is found as a timeout and not as running.
pub status_conditions-shown_status :
    (now : ℕ) (status : RunStatus) (row : Row)
    → all (λ condition. condition row) (status_conditions now status)
      ≡ same_status (shown_status now row) status
unfolding status_conditions shown_status
status_conditions-shown_status now timeout row = ground arith
status_conditions-shown_status now running row = ground arith
status_conditions-shown_status now success row = ground arith
status_conditions-shown_status now failure row = ground arith
status_conditions-shown_status now canceled row = ground arith
