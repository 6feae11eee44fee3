-- ===== src/Operations/Transitions.antt =====
-- The transition diagram of workflow statuses.
use dbos_workload.Prelude.{◌≡◌, refl, true, false, arith, ◌||◌}
use dbos_workload.Schema.{
  Status, is_complete, is_cancelled, is_enqueued, is_delayed, is_pending, pending, success, error,
  cancelled, enqueued, max_recovery_attempts_exceeded,
}

infix 40 ◌⟶◌ ◌⟶*◌
pub data ◌⟶◌ : Status → Status → Type 0 where
  dequeue : {s : Status} → is_enqueued s ≡ true → s ⟶ pending
  undelay : {s : Status} → is_delayed s ≡ true → s ⟶ enqueued
  requeue : {s : Status} → is_pending s ≡ true → s ⟶ enqueued
  exhaust : {s : Status} → is_pending s ≡ true → s ⟶ max_recovery_attempts_exceeded
  cancel : {s : Status} → is_complete s ≡ false → s ⟶ cancelled
  resume : {s : Status} → is_complete s ≡ false → s ⟶ enqueued
  succeed : {s : Status} → is_cancelled s ≡ false → s ⟶ success
  fail : {s : Status} → is_cancelled s ≡ false → s ⟶ error

pub data ◌⟶*◌ : Status → Status → Type 0 where
  here : {s : Status} → s ⟶* s
  then : {s t u : Status} → s ⟶ t → t ⟶* u → s ⟶* u

pub one : {s t : Status} → s ⟶ t → s ⟶* t
one e = then e here

pub ⟶*-trans : {s t u : Status} → s ⟶* t → t ⟶* u → s ⟶* u
⟶*-trans here q = q
⟶*-trans (then e p) q = then e (⟶*-trans p q)

-- A complete status is left for no other than a complete one.
complete_is_no_other :
    (s : Status) → is_complete s ≡ true → (is_enqueued s || is_delayed s || is_pending s) ≡ false
complete_is_no_other success h = refl
complete_is_no_other error h = refl
complete_is_no_other _ h = cc

complete_step : {s t : Status} → s ⟶ t → is_complete s ≡ true → is_complete t ≡ true
complete_step (dequeue {s} e) h = ground (arith, complete_is_no_other s h)
complete_step (undelay {s} e) h = ground (arith, complete_is_no_other s h)
complete_step (requeue {s} e) h = ground (arith, complete_is_no_other s h)
complete_step (exhaust {s} e) h = ground (arith, complete_is_no_other s h)
complete_step (cancel e) h = cc
complete_step (resume e) h = cc
complete_step (succeed e) h = refl
complete_step (fail e) h = refl

pub complete_stays : {s t : Status} → s ⟶* t → is_complete s ≡ true → is_complete t ≡ true
complete_stays here h = h
complete_stays (then e p) h = complete_stays p (complete_step e h)
