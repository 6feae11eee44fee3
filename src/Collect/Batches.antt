-- ===== src/Collect/Batches.antt =====
-- Deleting in batches is deleting at once.
use dbos_workload.Collect.{cutoff_of, gc_filter, is_gone}
use dbos_workload.Prelude.{Option, Option-cases, inl, inr, length, none, sym, ◌-◌, ◌∙◌}
use dbos_workload.Table.Laws.{count_where-le-length}
use dbos_workload.Transaction.{Result, err, ok}
use dbos_workload.Collect.{above, in_batch}
use dbos_workload.Prelude.{
  Bool, List, String, [], arith, compares_nat, compares_option, compares_text, get_elem?, map, refl,
  some, suc, true, zero, ℕ, ◌&&◌, ◌<◌, ◌==◌, ◌||◌, ◌∷◌, ◌≡◌, ◌≤◌,
}
use dbos_workload.Schema.{SysDb, WorkflowRow}
use dbos_workload.Table.{select, delete_where, any_where, count_where}
use dbos_workload.Collect.{
  ascending, insert_number, batch_step, delete_batches, delete_rows, garbage_collect, collect_from,
  delete_old,
}

module _ {A : Type 0} where
  delete_where-delete_where :
      (p q r : A → Bool) (rs : List A)
      → ((x : A) → (p x || q x) ≡ r x)
      → delete_where p (delete_where q rs) ≡ delete_where r rs
  unfolding delete_where
  delete_where-delete_where p q r [] same = refl
  delete_where-delete_where p q r (x ∷ rs) same =
      ground (arith, same x, delete_where-delete_where p q r rs same)

is_gone-delete :
    (p q : WorkflowRow → Bool) (id : String) (rs : List WorkflowRow)
    → ((r : WorkflowRow) → q r ≡ true → p r ≡ true)
    → (any_where (λ w. p w && w.workflow_uuid == id) (delete_where q rs)
        || any_where (λ w. q w && w.workflow_uuid == id) rs)
      ≡ any_where (λ w. p w && w.workflow_uuid == id) rs
unfolding any_where delete_where
is_gone-delete p q id [] within = refl
is_gone-delete p q id (r ∷ rs) within = ground (arith, within r, is_gone-delete p q id rs within)

implied :
    (p q : WorkflowRow → Bool)
    → ((r : WorkflowRow) → q r ≡ true → p r ≡ true)
    → (r : WorkflowRow) → (p r || q r) ≡ p r
implied p q within r = ground (arith, within r)

-- Rows that are deleted anyway may be deleted before, with all that refers to them.
delete_rows-delete_rows :
    (p q : WorkflowRow → Bool) (db : SysDb)
    → ((r : WorkflowRow) → q r ≡ true → p r ≡ true)
    → delete_rows p (delete_rows q db) ≡ delete_rows p db
unfolding delete_rows
delete_rows-delete_rows p q db within =
    let rest = delete_rows q db in
    λ i. record {
      workflow_status = delete_where-delete_where p q p db.workflow_status (implied p q within) i;
      operation_outputs =
          delete_where-delete_where (λ r. is_gone p rest r.workflow_uuid)
            (λ r. is_gone q db r.workflow_uuid) (λ r. is_gone p db r.workflow_uuid)
            db.operation_outputs (λ r. is_gone-delete p q r.workflow_uuid db.workflow_status within)
            i;
      notifications =
          delete_where-delete_where (λ r. is_gone p rest r.destination_uuid)
            (λ r. is_gone q db r.destination_uuid) (λ r. is_gone p db r.destination_uuid)
            db.notifications (λ r. is_gone-delete p q r.destination_uuid db.workflow_status within)
            i;
      workflow_events =
          delete_where-delete_where (λ r. is_gone p rest r.workflow_uuid)
            (λ r. is_gone q db r.workflow_uuid) (λ r. is_gone p db r.workflow_uuid)
            db.workflow_events (λ r. is_gone-delete p q r.workflow_uuid db.workflow_status within)
            i;
      workflow_events_history =
          delete_where-delete_where (λ r. is_gone p rest r.workflow_uuid)
            (λ r. is_gone q db r.workflow_uuid) (λ r. is_gone p db r.workflow_uuid)
            db.workflow_events_history
            (λ r. is_gone-delete p q r.workflow_uuid db.workflow_status within) i;
      streams =
          delete_where-delete_where (λ r. is_gone p rest r.workflow_uuid)
            (λ r. is_gone q db r.workflow_uuid) (λ r. is_gone p db r.workflow_uuid) db.streams
            (λ r. is_gone-delete p q r.workflow_uuid db.workflow_status within) i;
      application_versions = db.application_versions;
      queues = db.queues;
      workflow_schedules = db.workflow_schedules;
    }

any_insert :
    (t n : ℕ) (ns : List ℕ)
    → any_where (λ x. x == t) (insert_number n ns) ≡ ((n == t) || any_where (λ x. x == t) ns)
unfolding any_where insert_number
any_insert t n [] = ground arith
any_insert t n (x ∷ xs) = ground (arith, any_insert t n xs)

any_ascending :
    (t : ℕ) (ns : List ℕ) → any_where (λ x. x == t) (ascending ns) ≡ any_where (λ x. x == t) ns
unfolding any_where ascending
any_ascending t [] = refl
any_ascending t (n ∷ ns) = ground (arith, any_insert t n (ascending ns), any_ascending t ns)

any-get_elem? :
    (t k : ℕ) (ns : List ℕ) → get_elem? ns k ≡ some t → any_where (λ x. x == t) ns ≡ true
unfolding any_where
any-get_elem? t k [] e = cc
any-get_elem? t zero (n ∷ ns) e = ground arith
any-get_elem? t (suc k) (n ∷ ns) e = ground (arith, any-get_elem? t k ns e)

-- A row of a batch's end, and those above it.
count-above :
    (cutoff watermark step : ℕ) (rs : List WorkflowRow)
    → watermark ≤ step
    → count_where (above cutoff step) (delete_where (in_batch cutoff watermark step) rs)
      ≤ count_where (above cutoff watermark) rs
unfolding count_where delete_where
count-above cutoff watermark step [] h = omega arith
count-above cutoff watermark step (r ∷ rs) h =
    ground (arith, count-above cutoff watermark step rs h)

step_above :
    (cutoff watermark step : ℕ) (rs : List WorkflowRow)
    → any_where (λ x. x == step) (map (λ r. r.created_at) (select (above cutoff watermark) rs))
      ≡ true
    → watermark < step
unfolding any_where select
step_above cutoff watermark step [] h = cc
step_above cutoff watermark step (r ∷ rs) h = ground (arith, step_above cutoff watermark step rs)

count_fewer_above :
    (cutoff watermark step : ℕ) (rs : List WorkflowRow)
    → any_where (λ x. x == step) (map (λ r. r.created_at) (select (above cutoff watermark) rs))
      ≡ true
    → watermark ≤ step
    → count_where (above cutoff step) (delete_where (in_batch cutoff watermark step) rs)
      < count_where (above cutoff watermark) rs
unfolding count_where delete_where any_where select
count_fewer_above cutoff watermark step [] h later = cc
count_fewer_above cutoff watermark step (r ∷ rs) h later =
    ground (
      arith,
      count-above cutoff watermark step rs later,
      count_fewer_above cutoff watermark step rs,
    )

-- Whatever the rounds have deleted, they end with all that the filter admits deleted.
fewer_after :
    (cutoff watermark step rounds : ℕ) (db : SysDb)
    → count_where
        (above cutoff step)
        (delete_where (in_batch cutoff watermark step) db.workflow_status)
      < rounds
    → count_where
        (above cutoff step)
        (delete_rows (in_batch cutoff watermark step) db).workflow_status
      < rounds
unfolding delete_rows
fewer_after cutoff watermark step rounds db h = h

step_found :
    (batch cutoff watermark : ℕ) (db : SysDb) (step : ℕ)
    → batch_step batch cutoff watermark db ≡ some step
    → any_where
        (λ x. x == step)
        (map (λ r. r.created_at) (select (above cutoff watermark) db.workflow_status))
      ≡ true
unfolding batch_step
step_found batch cutoff watermark db step found =
    let xs =
      map (λ (r : WorkflowRow). r.created_at)
        (select (above cutoff watermark) db.workflow_status) in
    sym (any_ascending step xs) ∙ any-get_elem? step (batch - 1) (ascending xs) found

delete_batches-all :
    (rounds batch cutoff watermark : ℕ) (db : SysDb)
    → count_where (above cutoff watermark) db.workflow_status < rounds
    → delete_batches rounds batch cutoff watermark db ≡ some (delete_rows (gc_filter cutoff) db)
unfolding delete_batches
delete_batches-all zero batch cutoff watermark db enough = absurd (omega arith)
delete_batches-all (suc rounds) batch cutoff watermark db enough =
    elim (Option-cases (batch_step batch cutoff watermark db)) [
      | inl last ↦ ground arith
      | inr (step, found) ↦
          let there = step_found batch cutoff watermark db step found in
          let later = step_above cutoff watermark step db.workflow_status there in
          let fewer =
            count_fewer_above cutoff watermark step db.workflow_status there (omega arith) in
          let next =
            delete_batches-all rounds batch cutoff step
              (delete_rows (in_batch cutoff watermark step) db)
              (fewer_after cutoff watermark step rounds db (omega (arith, fewer))) in
          let joined =
            delete_rows-delete_rows (gc_filter cutoff) (in_batch cutoff watermark step) db
              (λ r e. ground arith) in
          ground (arith, next, joined)
    ]

collected :
    (rounds batch : ℕ) (cutoff : Result (Option ℕ)) (db : SysDb)
    → length db.workflow_status < rounds
    → collect_from rounds (some (suc batch)) cutoff db ≡ collect_from 0 none cutoff db
unfolding collect_from delete_old
collected rounds batch (err e) db enough = refl
collected rounds batch (ok none) db enough = refl
collected rounds batch (ok (some cutoff)) db enough =
    let all =
      delete_batches-all rounds (suc batch) cutoff 0 db
        (omega (arith, count_where-le-length (above cutoff 0) db.workflow_status)) in
    ground (arith, all)

-- Garbage collection in batches, of at least one, ends within one round more than there are
-- workflows, with the same answer and the same database as garbage collection at once.
pub garbage_collect_batches :
    (rounds batch : ℕ) (cutoff threshold : Option ℕ) (db : SysDb)
    → length db.workflow_status < rounds
    → garbage_collect rounds cutoff threshold (some (suc batch)) db
      ≡ garbage_collect 0 cutoff threshold none db
unfolding garbage_collect
garbage_collect_batches rounds batch cutoff threshold db enough =
    ground (arith, collected rounds batch (cutoff_of cutoff threshold db) db enough)
