-- ===== src/Transaction.antt =====
-- The errors that the system database raises (dbos/_error.py), and a transaction of the database:
-- `with engine.begin()` commits when its body returns, and goes back to the last commit when the
-- body raises.
use dbos_workload.Prelude.{ℕ, String, Option, Bool, true, false}
use dbos_workload.Schema.{SysDb}

-- Messages are left out; what identifies the error is kept. `assertion` is a failed `assert`.
pub data Error : Type 0 where
  queue_deduplicated : String → Option String → Option String → Error
  conflicting_workflow : String → Error
  max_recovery_attempts : String → ℕ → Error
  awaited_workflow_cancelled : String → Error
  awaited_max_recovery_attempts : String → Error
  workflow_cancelled : String → Error
  workflow_conflict_id : String → Error
  unexpected_step : String → ℕ → String → String → Error
  recorded : String → Option String → Error
  not_authorized key_error recovery_error function_not_found nonexistent_workflow dbos_exception
        value_error type_error assertion integrity no_result database_error :
      Error

pub data Result {ℓ} (A : Type ℓ) : Type ℓ where
  ok : A → Result A
  err : Error → Result A

-- What the transaction sees, and what a rollback goes back to.
pub record Conn : Type 0 where
  pub work : SysDb
  pub saved : SysDb

abbrev pub Tx : Type 0 → Type 0
Tx A = Conn → Result A × Conn

abbrev pub continue : {A B : Type 0} → Result A → (A → Tx B) → Tx B
continue (ok a) f c = f a c
continue (err e) f c = (err e, c)

infixl 5 ◌>>=◌ ◌>>◌
abbrev pub ◌>>=◌ : {A B : Type 0} → Tx A → (A → Tx B) → Tx B
◌>>=◌ m f c = let (r, c') = m c in continue r f c'

abbrev pub ◌>>◌ : {A B : Type 0} → Tx A → Tx B → Tx B
m >> k = m >>= λ _. k

abbrev pub pure : {A : Type 0} → A → Tx A
pure a c = (ok a, c)

abbrev pub raise : {A : Type 0} → Error → Tx A
raise e c = (err e, c)

abbrev pub lift : {A : Type 0} → Result A → Tx A
lift r c = (r, c)

abbrev pub assert : Bool → Tx (Unit {0})
assert true = pure tt
assert false = raise assertion

-- A query, and a statement.
abbrev pub query : {A : Type 0} → (SysDb → A) → Tx A
query f c = (ok (f c.work), c)

abbrev pub execute : (SysDb → SysDb) → Tx (Unit {0})
execute f c = (ok tt, record c { work = f c.work })

-- conn.commit()
abbrev pub commit : Tx (Unit {0})
commit c = (ok tt, record c { saved = c.work })

-- What is left when the `with` block ends.
abbrev pub close : {A : Type 0} → Result A × Conn → Result A × SysDb
close (ok a, c) = (ok a, c.work)
close (err e, c) = (err e, c.saved)

-- with self.engine.begin() as c: m
abbrev pub begin : {A : Type 0} → Tx A → SysDb → Result A × SysDb
begin m db = close (m (record { work = db; saved = db }))
