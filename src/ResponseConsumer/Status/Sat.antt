-- ===== src/ResponseConsumer/Status/Sat.antt =====
-- What the Satellite inferences answer.
use playbook_dispatcher.Common.{
  ◌≡◌, refl, ◌∙◌, Bool, true, false, ◌||◌, not, String, List, [], ◌∷◌, arith, any, all,
  if◌then◌else◌, ok, is_some,
}
use mathlib.Core.List.{Perm, Permᴰ}
use mathlib.Core.Logic.{∥∥₁_elim}
use playbook_dispatcher.Model.{
  RunStatus, running, success, failure, canceled, is_running, is_failure, is_canceled, SatEvent,
  is_completed_type,
}
use playbook_dispatcher.ResponseConsumer.Status.{
  summarize, infer_sat_from, infer_sat_playbook_status, check_sat_status_partial, note_host,
}

-- One status for several hosts: any that still runs keeps the run running; otherwise a failure
-- outweighs a cancellation, which outweighs success.
abbrev pub verdict : Bool → Bool → Bool → RunStatus
verdict some_running some_failure some_canceled =
    if some_running
    then running
    else if some_failure
    then failure
    else if some_canceled
    then canceled
    else success

summarize_from :
    (f c : Bool) (ss : List RunStatus)
    → summarize f c ss
      ≡ verdict (any is_running ss) (f || any is_failure ss) (c || any is_canceled ss)
unfolding summarize
summarize_from f c [] = ground arith
summarize_from f c (s ∷ ss) =
    ground (arith, summarize_from (f || is_failure s) (c || is_canceled s) ss)

pub summarize_lem :
    (ss : List RunStatus)
    → summarize false false ss
      ≡ verdict (any is_running ss) (any is_failure ss) (any is_canceled ss)
summarize_lem ss = summarize_from false false ss

module _ {ℓ} {A : Type ℓ} (p : A → Bool) where
  any-Permᴰ : {xs ys : List A} → Permᴰ xs ys → any p xs ≡ any p ys
  any-Permᴰ Permᴰ.nil = refl
  any-Permᴰ (Permᴰ.cons e q) = cc (any-Permᴰ q)
  any-Permᴰ (Permᴰ.swap {a} {b} {a' = c} {b' = d} {l} e f) = ground arith
  any-Permᴰ (Permᴰ.trans q r) = any-Permᴰ q ∙ any-Permᴰ r

Bool-set : IsSet Bool
Bool-set = hlevel

pub any-perm {ℓ} : {A : Type ℓ} (p : A → Bool) (xs ys : List A) → Perm xs ys → any p xs ≡ any p ys
any-perm p xs ys q = ∥∥₁_elim q (Bool-set _ _) (λ r. any-Permᴰ p r)

RunStatus-set : IsSet RunStatus
RunStatus-set = hlevel

-- The loop over `hostStatusMap` answers the same in whatever order Go visits the map.
pub summarize-perm :
    (xs ys : List RunStatus) → Perm xs ys → summarize false false xs ≡ summarize false false ys
summarize-perm xs ys q = ∥∥₁_elim q (RunStatus-set _ _) λ r. cc (
  summarize_lem xs,
  summarize_lem ys,
  any-Permᴰ is_running r,
  any-Permᴰ is_failure r,
  any-Permᴰ is_canceled r,
)

-- A completed event carries a status.
abbrev pub completed_has_status : SatEvent → Bool
completed_has_status e = not (is_completed_type e.type) || is_some e.status

infer_sat_from_completed :
    (statuses : List (String × RunStatus)) (events : List SatEvent)
    → all completed_has_status events ≡ true
    → any (λ e. is_completed_type e.type) events ≡ true
    → infer_sat_from statuses events ≡ ok (check_sat_status_partial events)
unfolding infer_sat_from check_sat_status_partial
infer_sat_from_completed statuses [] h k = cc
infer_sat_from_completed statuses (e ∷ es) h k =
    ground (arith, infer_sat_from_completed (note_host e.host e.status statuses) es)

-- When the run has been reported as completed, and each such event carries a status, the inference
-- from the hosts and the inference for partial responses agree.
pub infer_sat_playbook_status_completed :
    (events : List SatEvent)
    → all completed_has_status events ≡ true
    → any (λ e. is_completed_type e.type) events ≡ true
    → infer_sat_playbook_status events ≡ ok (check_sat_status_partial events)
unfolding infer_sat_playbook_status
infer_sat_playbook_status_completed events h k = infer_sat_from_completed [] events h k

pub check_sat_status_partial_open :
    (events : List SatEvent)
    → any (λ e. is_completed_type e.type) events ≡ false
    → check_sat_status_partial events ≡ running
unfolding check_sat_status_partial
check_sat_status_partial_open [] h = refl
check_sat_status_partial_open (e ∷ es) h = ground (arith, check_sat_status_partial_open es)
