-- ===== src/Operations/Keeping.antt =====
-- Transactions that keep a workflow: rules for the statements they are made of. Both what a
-- transaction sees and what it would go back to evolve from the database that it began with.
use dbos_workload.Transaction.{◌>>◌}
use dbos_workload.Transaction.{query}
use dbos_workload.Schema.{WorkflowRow}
use dbos_workload.Steps.{require_workflow}
use dbos_workload.Operations.Evolution.{Evolves, Evolves-refl, Evolves-trans}
use dbos_workload.Prelude.{Bool, false, if◌then◌else◌, none, some, true}
use dbos_workload.Schema.{SysDb}
use dbos_workload.Transaction.{
  Conn, Result, Tx, assert, begin, close, commit, continue, err, execute, ok,
}
use dbos_workload.Prelude.{String, Option}
use dbos_workload.Transaction.{◌>>=◌}

module _ (id : String) (base : SysDb) where
  abbrev pub Within : Conn → Type 0
  Within c = Evolves id base c.work × Evolves id base c.saved

  abbrev pub Keeps : {A : Type 0} → Tx A → Type 0
  Keeps m = (c : Conn) → Within c → Within (m c).1

  -- What leaves the database alone: pure, raise, lift, query.
  pub Keeps-still : {A : Type 0} (r : Conn → Result A) → Keeps (λ c. (r c, c))
  Keeps-still r c w = w

  pub Keeps-assert : (b : Bool) → Keeps (assert b)
  Keeps-assert true c w = w
  Keeps-assert false c w = w

  pub Keeps-require : (o : Option WorkflowRow) → Keeps (require_workflow o)
  Keeps-require none c w = w
  Keeps-require (some r) c w = w

  pub Keeps-commit : Keeps commit
  Keeps-commit c w = (w.0, w.0)

  pub Keeps-execute :
      (f : SysDb → SysDb) → ((db : SysDb) → Evolves id db (f db)) → Keeps (execute f)
  Keeps-execute f h c w = (Evolves-trans w.0 (h c.work), w.1)

  -- A statement, and what comes after it.
  pub Keeps-after :
      {A : Type 0} (f : SysDb → SysDb) (k : Tx A)
      → ((db : SysDb) → Evolves id db (f db))
      → Keeps k
      → Keeps (execute f >> k)
  Keeps-after f k h h' c w = h' (record c { work = f c.work }) (Keeps-execute f h c w)

  pub continued :
      {A B : Type 0} (r : Result A) (k : A → Tx B) (c : Conn)
      → ((a : A) → Keeps (k a))
      → Within c
      → Within (continue r k c).1
  continued (ok a) k c h w = h a c w
  continued (err e) k c h w = w

  pub Keeps-bind :
      {A B : Type 0} (m : Tx A) (k : A → Tx B) → Keeps m → ((a : A) → Keeps (k a)) → Keeps (m >>= k)
  Keeps-bind m k h h' c w = continued (m c).0 k (m c).1 h' (h c w)

  pub Keeps-if :
      {A : Type 0} (b : Bool) (m n : Tx A) → Keeps m → Keeps n → Keeps (if b then m else n)
  Keeps-if true m n h h' = h
  Keeps-if false m n h h' = h'

  pub Keeps-option :
      {A B : Type 0} (o : Option B) (m : Tx A) (k : B → Tx A)
      → Keeps m
      → ((b : B) → Keeps (k b))
      → Keeps (elim o [ none ↦ m | some b ↦ k b ])
  Keeps-option none m k h h' = h
  Keeps-option (some b) m k h h' = h' b

  closed : {A : Type 0} (r : Result A) (c : Conn) → Within c → Evolves id base (close (r, c)).1
  closed (ok a) c w = w.0
  closed (err e) c w = w.1

  -- What a transaction leaves when it ends.
  pub Evolves-begin : {A : Type 0} (m : Tx A) → Keeps m → Evolves id base (begin m base).1
  Evolves-begin m h =
      let c : Conn = record { work = base; saved = base } in
      closed (m c).0 (m c).1 (h c (Evolves-refl, Evolves-refl))

  pub Evolves-begin_query :
      {A B : Type 0} (f : SysDb → A) (k : A → Tx B)
      → ((a : A) → Keeps (k a))
      → Evolves id base (begin (query f >>= k) base).1
  Evolves-begin_query f k h = Evolves-begin (query f >>= k) (λ c. h (f c.work) c)
