-- ===== src/Transactions/Atomic.antt =====
-- The attempts of a transaction: what is committed of them.
use dbos_workload.Prelude.{
  Bool, Bool-cases, arith, compares_text, Option-cases, inl, inr, [], ◌∷◌, ◌++◌, false, none, some,
  subst, suc, true, zero,
}
use dbos_workload.Prelude.{String, ◌≡◌, Option, ℕ, refl}
use dbos_workload.Serialization.{Serializers, serialize_value}
use dbos_workload.Transaction.{Error, Result, err, ok}
use dbos_workload.Transactions.{
  AppDb, RecordedTransaction, check_transaction_execution, find_transaction,
  record_transaction_output, transaction_row,
}
use dbos_workload.Transactions.Invoke.{
  TransactionCode, TriedTransaction, after_attempt, after_code, committed, end_transaction, failed,
  found, output_result, put_transaction, try_transaction, unless_found,
}

module _ {U : Type 0} (id : String) (n : ℕ) (name : String) (now : ℕ) where
  -- The database after a commit: the tables that the code made, and the row of the transaction.
  abbrev pub after_commit : U → String → AppDb U → AppDb U
  after_commit u text db = record {
    tables = u;
    transaction_outputs =
        db.transaction_outputs
        ++ (transaction_row (output_result id n name (some text) none) (some text) none now ∷ []);
  }

  recorded_new :
      (u : U) (text : String) (db : AppDb U)
      → check_transaction_execution id n name db ≡ ok none
      → record_transaction_output
          (output_result id n name (some text) none)
          now
          (record db { tables = u })
        ≡ (ok tt, after_commit u text db)
  unfolding record_transaction_output check_transaction_execution
  recorded_new u text db fresh = elim (Option-cases (find_transaction id n db)) [
    | inl missing ↦ rw missing refl
    | inr (row, there) ↦ absurd (ground arith)
  ]

module _ {U W V : Type 0} (s : Serializers V) (id : String) (n : ℕ) (name : String)
    (retriable : Error → Bool) (commits : ℕ → Option Error) (now : ℕ) where
  -- One run of the code, on the tables as they were, made what was committed.
  pub record IsCommitOf (fn : TransactionCode U W V) (before : AppDb U) (v : V) (after : AppDb U)
      : Type 0 where
    pub world : W
    pub world_after : W
    pub made : U
    pub text : String
    pub format : String
    pub fresh : check_transaction_execution id n name before ≡ ok none
    pub ran : fn before.tables world ≡ (ok v, made, world_after)
    pub written : serialize_value s v none ≡ ok (text, format)
    pub row : after ≡ after_commit id n name now made text before

  -- What the attempts leave, by how they end.
  abbrev pub Leaves : TransactionCode U W V → AppDb U → TriedTransaction V → AppDb U → Type 0
  Leaves fn before (committed v) after = IsCommitOf fn before v after
  Leaves fn before (found r) after =
      (after ≡ before) × (check_transaction_execution id n name before ≡ ok (some r))
  Leaves fn before (failed e) after = after ≡ before

  module _ (fn : TransactionCode U W V) (before : AppDb U) (w : W)
      (fresh : check_transaction_execution id n name before ≡ ok none) where
    ended :
        (v : V) (u : U) (w' : W) (text format : String) (refused : Option Error)
        (x : Result (Unit {0}) × AppDb U) (v' : V) (after : AppDb U) (w'' : W)
        → fn before.tables w ≡ (ok v, u, w')
        → serialize_value s v none ≡ ok (text, format)
        → x ≡ (ok tt, after_commit id n name now u text before)
        → end_transaction s id n name retriable commits now v refused before x w'
          ≡ (ok v', after, w'')
        → IsCommitOf fn before v' after
    ended v u w' text format refused (err e, db) v' after w'' ran written put h = cc
    ended v u w' text format (some e) (ok t, db) v' after w'' ran written put h = cc
    ended v u w' text format none (ok t, db) v' after w'' ran written put h = record {
      world = w;
      world_after = w';
      made = u;
      text = text;
      format = format;
      fresh = fresh;
      ran = cc;
      written = cc;
      row = cc;
    }

    put :
        (i : ℕ) (v : V) (u : U) (w' : W) (y : Result (String × String)) (v' : V) (after : AppDb U)
        (w'' : W)
        → fn before.tables w ≡ (ok v, u, w')
        → serialize_value s v none ≡ y
        → put_transaction s id n name retriable commits now i v y before
            (record before { tables = u })
            w'
          ≡ (ok v', after, w'')
        → IsCommitOf fn before v' after
    put i v u w' (err e) v' after w'' ran written h = cc
    put i v u w' (ok (text, format)) v' after w'' ran written h =
        ended v u w' text format (commits i)
          (record_transaction_output (output_result id n name (some text) none) now
            (record before { tables = u }))
          v' after w'' ran written (recorded_new id n name now u text before fresh) h

    code :
        (i : ℕ) (x : Result V × U × W) (v : V) (after : AppDb U) (w'' : W)
        → fn before.tables w ≡ x
        → after_code s id n name retriable commits now i before x ≡ (ok v, after, w'')
        → IsCommitOf fn before v after
    code i (err e, u, w') v after w'' ran h = cc
    code i (ok v', u, w') v after w'' ran h =
        put i v' u w' (serialize_value s v' none) v after w'' ran refl h

  end_failed :
      (v : V) (refused : Option Error) (before : AppDb U) (x : Result (Unit {0}) × AppDb U) (w : W)
      (e : Error) (after : AppDb U) (w' : W)
      → end_transaction s id n name retriable commits now v refused before x w ≡ (err e, after, w')
      → after ≡ before
  end_failed v refused before (err e', db) w e after w' h = cc
  end_failed v (some e') before (ok t, db) w e after w' h = cc
  end_failed v none before (ok t, db) w e after w' h = cc

  put_failed :
      (i : ℕ) (v : V) (y : Result (String × String)) (before : AppDb U) (u : U) (w : W) (e : Error)
      (after : AppDb U) (w' : W)
      → put_transaction s id n name retriable commits now i v y before
          (record before { tables = u })
          w
        ≡ (err e, after, w')
      → after ≡ before
  put_failed i v (err e') before u w e after w' h = cc
  put_failed i v (ok (text, format)) before u w e after w' h =
      end_failed v (commits i) before
        (record_transaction_output (output_result id n name (some text) none) now
          (record before { tables = u }))
        w e after w' h

  -- A failed attempt leaves the database as it was.
  code_failed :
      (i : ℕ) (before : AppDb U) (x : Result V × U × W) (e : Error) (after : AppDb U) (w' : W)
      → after_code s id n name retriable commits now i before x ≡ (err e, after, w')
      → after ≡ before
  code_failed i before (err e', u, w) e after w' h = cc
  code_failed i before (ok v, u, w) e after w' h =
      put_failed i v (serialize_value s v none) before u w e after w' h

  -- An attempt is committed, or the next ones decide, or it fails and leaves nothing.
  attempt :
      (fn : TransactionCode U W V) (before : AppDb U) (w : W) (i : ℕ) (x : Result V × AppDb U × W)
      (rest : W → Option (TriedTransaction V × AppDb U × W)) (tried : TriedTransaction V)
      (after : AppDb U) (w'' : W)
      → check_transaction_execution id n name before ≡ ok none
      → after_code s id n name retriable commits now i before (fn before.tables w) ≡ x
      → ((w' : W) → rest w' ≡ some (tried, after, w'') → Leaves fn before tried after)
      → after_attempt s id n name retriable commits now x rest ≡ some (tried, after, w'')
      → Leaves fn before tried after
  attempt fn before w i (ok v, db, w') rest tried after w'' fresh ran later h =
      let e : (committed v, db, w') ≡ (tried, after, w'') = cc in
      subst (λ (y : TriedTransaction V × AppDb U × W). Leaves fn before y.0 y.1) e
        (code fn before w fresh i (fn before.tables w) v db w' refl ran)
  attempt fn before w i (err e, db, w') rest tried after w'' fresh ran later h =
      elim (Bool-cases (retriable e)) [
        | inl again ↦ later w' (
            subst
              (λ (b : Bool).
                elim b as (λ k. Option (TriedTransaction V × AppDb U × W)) [
                  | true ↦ rest w'
                  | false ↦ some (failed e, db, w')
                ]
                ≡ some (tried, after, w''))
              again h)
        | inr over ↦
            let h' : some (failed e, db, w') ≡ some (tried, after, w'') =
              subst
                (λ (b : Bool).
                  elim b as (λ k. Option (TriedTransaction V × AppDb U × W)) [
                    | true ↦ rest w'
                    | false ↦ some (failed e, db, w')
                  ]
                  ≡ some (tried, after, w''))
                over h in
            let same : (failed e, db, w') ≡ (tried, after, w'') = cc in
            subst (λ (y : TriedTransaction V × AppDb U × W). Leaves fn before y.0 y.1) same
              (code_failed i before (fn before.tables w) e db w' ran)
      ]

  unless_found-Leaves :
      (fn : TransactionCode U W V) (before : AppDb U) (w : W)
      (c : Result (Option RecordedTransaction)) (runs : Option (TriedTransaction V × AppDb U × W))
      (tried : TriedTransaction V) (after : AppDb U) (w'' : W)
      → check_transaction_execution id n name before ≡ c
      → (c ≡ ok none → runs ≡ some (tried, after, w'') → Leaves fn before tried after)
      → unless_found s id n name retriable commits now c before w runs ≡ some (tried, after, w'')
      → Leaves fn before tried after
  unless_found-Leaves fn before w (err e) runs tried after w'' checked go h =
      let same : (failed e, before, w) ≡ (tried, after, w'') = cc in
      subst (λ (y : TriedTransaction V × AppDb U × W). Leaves fn before y.0 y.1) same refl
  unless_found-Leaves fn before w (ok (some r)) runs tried after w'' checked go h =
      let same : (found r, before, w) ≡ (tried, after, w'') = cc in
      subst (λ (y : TriedTransaction V × AppDb U × W). Leaves fn before y.0 y.1) same
        (refl, checked)
  unless_found-Leaves fn before w (ok none) runs tried after w'' checked go h = go refl h

  -- However many attempts there are: if the transaction is committed, one run of its code on the
  -- tables as they were at the start returned the value, and the database is the tables that this
  -- run made, with one row more, which holds the value as it was written. If an earlier run is
  -- found, or an exception is raised, the application's database is as it was.
  pub try_transaction_atomic :
      (fn : TransactionCode U W V) (attempts i : ℕ) (before : AppDb U) (w : W)
      (tried : TriedTransaction V) (after : AppDb U) (w' : W)
      → try_transaction s id n name retriable commits now fn attempts i before w
        ≡ some (tried, after, w')
      → Leaves fn before tried after
  unfolding try_transaction
  try_transaction_atomic fn zero i before w tried after w' h = cc
  try_transaction_atomic fn (suc left) i before w tried after w' h =
      unless_found-Leaves fn before w (check_transaction_execution id n name before)
        (after_attempt s id n name retriable commits now
          (after_code s id n name retriable commits now i before (fn before.tables w))
          (try_transaction s id n name retriable commits now fn left (suc i) before))
        tried after w' refl
        (λ fresh runs.
          attempt fn before w i
            (after_code s id n name retriable commits now i before (fn before.tables w))
            (try_transaction s id n name retriable commits now fn left (suc i) before) tried after
            w' fresh refl
            (λ w'' again. try_transaction_atomic fn left (suc i) before w'' tried after w' again)
            runs)
        h
