-- ===== src/Transactions/Once.antt =====
-- A transaction that was committed is not run again.
use dbos_workload.Prelude.{
  Bool, [], ◌∷◌, ◌==◌, arith, compares_nat, compares_text, eq_refl, beq_refl, false, none, some,
  suc, Option-cases, inl, inr,
}
use dbos_workload.Prelude.{String, ◌≡◌, Option, ℕ, refl}
use dbos_workload.Schema.{SysDb}
use dbos_workload.Serialization.{Serializers, deserialize_value, serialize_value}
use dbos_workload.Serialization.Roundtrip.{AllReadBack, NamesAgree, deserialize_value-own}
use dbos_workload.Steps.{check_operation_execution, record_operation_result}
use dbos_workload.Steps.Call.{step_result}
use dbos_workload.Steps.Recorded.{check-record, replayed}
use dbos_workload.Table.{find_row}
use dbos_workload.Table.Laws.{find_row-append}
use dbos_workload.Transaction.{Error, Result, err, ok}
use dbos_workload.Transactions.{
  AppDb, RecordedTransaction, by_transaction, check_transaction_execution, find_transaction,
  if_truthy, transaction_row,
}
use dbos_workload.Transactions.Atomic.{after_commit, try_transaction_atomic}
use dbos_workload.Transactions.Invoke.{
  TransactionCode, committed, end_tried, invoke_tx, output_result, replay_found, return_found,
  try_transaction,
}

abbrev pub output_of : String → RecordedTransaction
output_of text = record { output = some text; error = none; serialization = none }

module _ {U : Type 0} (id : String) (n : ℕ) (name : String) where
  -- The row of a commit is found.
  find-after_commit :
      (now : ℕ) (u : U) (text : String) (db : AppDb U)
      → check_transaction_execution id n name db ≡ ok none
      → find_transaction id n (after_commit id n name now u text db)
        ≡ some (transaction_row (output_result id n name (some text) none) (some text) none now)
  unfolding check_transaction_execution find_row
  find-after_commit now u text db fresh = elim (Option-cases (find_transaction id n db)) [
    | inl missing ↦
        let row = transaction_row (output_result id n name (some text) none) (some text) none now in
        ground (
          arith,
          missing,
          find_row-append (by_transaction id n) db.transaction_outputs (row ∷ []),
          eq_refl id,
          beq_refl n,
        )
    | inr (row, there) ↦ absurd (ground arith)
  ]

  -- And with the name of the transaction, whatever other transactions were committed since.
  check-after_commit :
      (now : ℕ) (u : U) (text : String) (db later : AppDb U)
      → check_transaction_execution id n name db ≡ ok none
      → find_transaction id n later ≡ find_transaction id n (after_commit id n name now u text db)
      → check_transaction_execution id n name later ≡ ok (some (output_of text))
  unfolding check_transaction_execution
  check-after_commit now u text db later fresh same =
      ground (arith, find-after_commit now u text db fresh, eq_refl name)

if_truthy-filled : (text : String) → (text == "") ≡ false → if_truthy (some text) ≡ some text
if_truthy-filled text filled = rw filled refl

module _ {U V : Type 0} (s : Serializers V) (se : Serializers Error) (own : Option String)
    (id : String) (n : ℕ) (name : String) (start now : ℕ) (v : V) (text : String)
    (filled : (text == "") ≡ false) (reads : deserialize_value s (some text) none ≡ ok v) where
  -- An output that is found is recorded of the step, and returned.
  replay_found-output :
      (db : AppDb U) (sys : SysDb)
      → (record_operation_result own (step_result id n name (some text) none start) now sys).0
        ≡ ok tt
      → replay_found s se own id n name start now (output_of text) db sys ≡ (
        ok v,
        db,
        (record_operation_result own (step_result id n name (some text) none start) now sys).1,
      )
  unfolding replay_found
  replay_found-output db sys done =
      let res = step_result id n name (some text) none start in
      rw (if_truthy-filled text filled) (returned (record_operation_result own res now sys) done)
    where
      returned :
          (x : Result (Unit {0}) × SysDb)
          → x.0 ≡ ok tt
          → return_found s se own id n name start now text none db x ≡ (ok v, db, x.1)
      returned (ok u, sys') h = rw reads refl
      returned (err e, sys') h = cc

module _ {U W V : Type 0} (s : Serializers V) (se : Serializers Error) (own : Option String)
    (id : String) (n : ℕ) (name : String) (v : V) (text : String) (filled : (text == "") ≡ false)
    (reads : deserialize_value s (some text) none ≡ ok v) where
  -- A committed transaction that has no checkpoint of its step gets one, and runs nothing.
  replays_row :
      (retriable : Error → Bool) (commits : ℕ → Option Error) (start now attempts : ℕ)
      (fn : TransactionCode U W V) (db : AppDb U) (sys : SysDb) (w : W)
      → check_transaction_execution id n name db ≡ ok (some (output_of text))
      → check_operation_execution id n name sys ≡ ok none
      → (record_operation_result own (step_result id n name (some text) none start) now sys).0
        ≡ ok tt
      → invoke_tx s se own id n name retriable commits start now fn (suc attempts) db sys w
        ≡ some (
          ok v,
          db,
          (record_operation_result own (step_result id n name (some text) none start) now sys).1,
          w,
        )
  unfolding invoke_tx try_transaction end_tried
  replays_row retriable commits start now attempts fn db sys w there missing done =
      let once = replay_found-output s se own id n name start now v text filled reads db sys done in
      rw (missing, there, once) refl

  -- With a checkpoint, the databases are left as they are.
  replays_checkpoint :
      (retriable : Error → Bool) (commits : ℕ → Option Error) (start now attempts : ℕ)
      (fn : TransactionCode U W V) (format : Option String) (db : AppDb U) (sys : SysDb) (w : W)
      (started : ℕ)
      → check_operation_execution id n name sys
        ≡ ok (some (replayed (step_result id n name (some text) format started)))
      → invoke_tx s se own id n name retriable commits start now fn attempts db sys w
        ≡ some (ok v, db, sys, w)
  unfolding invoke_tx
  replays_checkpoint retriable commits start now attempts fn format db sys w started there =
      rw (there, if_truthy-filled text filled, reads) refl

-- Exactly once: if the attempts of a transaction end with a commit, and the process crashes before
-- the step has a checkpoint, running the transaction again, with whatever code under its name and
-- in any world, returns the value that was committed, leaves the application's database as it is,
-- runs nothing, and gives the step its checkpoint; and so it is when it is run once more, from the
-- checkpoint. Other transactions may have been committed since. The value is written, as a text
-- that is not empty, and read back by the codecs, and recording the checkpoint does not raise.
pub transaction_once :
    {U W V : Type 0} (s : Serializers V) (se : Serializers Error) (own : Option String)
    (id : String) (n : ℕ) (name : String) (retriable retriable' : Error → Bool)
    (commits commits' : ℕ → Option Error) (attempts again start' now now' : ℕ)
    (fn fn' : TransactionCode U W V) (before after later : AppDb U) (sys : SysDb)
    (w w' second third : W) (v : V) (text format : String)
    → AllReadBack s v
    → NamesAgree s v
    → serialize_value s v none ≡ ok (text, format)
    → (text == "") ≡ false
    → try_transaction s id n name retriable commits now fn attempts 0 before w
      ≡ some (committed v, after, w')
    → find_transaction id n later ≡ find_transaction id n after
    → check_operation_execution id n name sys ≡ ok none
    → (record_operation_result own (step_result id n name (some text) none start') now' sys).0
      ≡ ok tt
    → let sys' =
        (record_operation_result own (step_result id n name (some text) none start') now' sys).1 in
      (invoke_tx s se own id n name retriable' commits' start' now' fn' (suc again) later sys second
        ≡ some (ok v, later, sys', second))
      × (invoke_tx s se own id n name retriable' commits' start' now' fn' again later sys' third
          ≡ some (ok v, later, sys', third))
transaction_once s se own id n name retriable retriable' commits commits' attempts again start' now
      now' fn fn' before after later sys w w' second third v text format back agree written filled
      first kept missing done =
    let commit =
      try_transaction_atomic s id n name retriable commits now fn attempts 0 before w (committed v)
        after w' first in
    let same : commit.text ≡ text = cc in
    let kept' : find_transaction id n later
        ≡ find_transaction id n (after_commit id n name now commit.made text before) =
      cc in
    let there = check-after_commit id n name now commit.made text before later commit.fresh kept' in
    let reads = deserialize_value-own s v back agree text format written in
    (
      replays_row s se own id n name v text filled reads retriable' commits' start' now' again fn'
          later sys second there missing done,
      replays_checkpoint s se own id n name v text filled reads retriable' commits' start' now'
          again fn' none later
          (record_operation_result own (step_result id n name (some text) none start') now' sys).1
          third start'
          (check-record own (step_result id n name (some text) none start') now' sys missing done),
    )
