-- ===== src/Queues/Registered.antt =====
-- A queue that is registered is the one that is got.
use dbos_workload.Queues.{
  Limiter, Queue, QueueValues, by_queue, exceeds_concurrency, find_queue, get_queue, got_queue,
  lacks_field, put_queue, queue_found, queue_from_db_row, queue_row, reconfigured, upsert_queue,
  validate_queue,
}
use dbos_workload.Transaction.{err, ok, value_error}
use dbos_workload.Prelude.{
  Bool, Bool-cases, Option, Option-cases, String, ap, arith, compares_nat, compares_option,
  compares_text, eq_iff, eq_refl, false, if◌then◌else◌, inl, inr, is_none, leb, ltb, none, refl,
  some, sym, true, ℕ, ◌<◌, ◌==◌, ◌||◌, ◌∙◌, ◌≡◌, ◌≤◌, ◌⊎◌,
}
use mathlib.Core.Bool.{true≢false}
use dbos_workload.Table.Laws.{find_row-holds}
use dbos_workload.Schema.{QueueRow, SysDb}
use dbos_workload.Table.Keyed.{find_row-insert_key, find_row-update_key}

abbrev queue_key : QueueRow → String
queue_key r = r.name

-- The row of a queue after an upsert: new, reconfigured, or the one that it was.
abbrev settled : QueueValues → Bool → String → ℕ → Option QueueRow → QueueRow
settled v update_existing uuid now none = queue_row v uuid now
settled v update_existing uuid now (some old) =
    if update_existing then reconfigured v now old else old

module _ (v : QueueValues) (update_existing : Bool) (uuid : String) (now : ℕ) (db : SysDb) where
  abbrev put_for : Option QueueRow → SysDb
  put_for o = put_queue v update_existing uuid now o db

  find-put_queue :
      (o : Option QueueRow)
      → find_queue v.name db ≡ o
      → (name : String)
      → find_queue name (put_for o) ≡ (
          if v.name == name
          then some (settled v update_existing uuid now o)
          else find_queue name db)
  unfolding put_queue
  find-put_queue none absent name =
      find_row-insert_key queue_key (queue_row v uuid now) name db.queues absent
  find-put_queue (some old) found name =
      let renamed =
        find_row-update_key queue_key v.name name (reconfigured v now) db.queues (λ r. refl) in
      elim (Bool-cases update_existing) [
        | inl e ↦ rw e (ground (arith, renamed))
        | inr e ↦ rw e (elim (Bool-cases (v.name == name)) [
          | inl here ↦
              let same : find_queue v.name db ≡ find_queue name db =
                ap (λ n. find_queue n db) ((eq_iff v.name name).0 here) in
              ground (arith, same)
          | inr other ↦ ground arith
        ])
      ]

get_queue-found :
    (name : String) (db : SysDb) (m : QueueRow)
    → find_queue name db ≡ some m
    → get_queue name db ≡ got_queue (queue_from_db_row m)
unfolding get_queue
get_queue-found name db m found = ap queue_found found

-- The same, as the arguments and what is kept of an old row.
abbrev registered_row : QueueValues → Bool → String → ℕ → Option QueueRow → QueueRow
registered_row v update_existing uuid now none = queue_row v uuid now
registered_row v update_existing uuid now (some old) =
    if update_existing
    then record (queue_row v uuid now) { queue_id = old.queue_id; created_at = old.created_at }
    else old

settled-registered :
    (v : QueueValues) (update_existing : Bool) (uuid : String) (now : ℕ) (db : SysDb)
    (o : Option QueueRow)
    → find_queue v.name db ≡ o
    → settled v update_existing uuid now o ≡ registered_row v update_existing uuid now o
settled-registered v update_existing uuid now db none found = refl
settled-registered v false uuid now db (some old) found = refl
settled-registered v true uuid now db (some old) found =
    let here = find_row-holds (by_queue v.name) db.queues old found in
    ap (λ (n : String). record (registered_row v true uuid now (some old)) { name = n })
      ((eq_iff old.name v.name).0 here)

-- Workers run at most what the queue may run.
abbrev pub HasRoom : Option ℕ → Option ℕ → Type 0
HasRoom (some worker) (some concurrency) = worker ≤ concurrency
HasRoom _ _ = Unit

-- A limit has a period.
abbrev pub HasPeriod : Option ℕ → Option ℕ → Type 0
HasPeriod (some limit) none = ⊥
HasPeriod _ _ = Unit

-- What a queue may be given.
abbrev pub IsValid : QueueValues → Type 0
IsValid v =
    HasRoom v.worker_concurrency v.concurrency
    × (0 < v.polling_interval_ms)
    × HasPeriod v.rate_limit_max v.rate_limit_period_ms

abbrev pub limiter_from : Option ℕ → Option ℕ → Option Limiter
limiter_from max period = elim max [
  | none ↦ none
  | some limit ↦ some (record { limit = some limit; period_ms = period })
]

-- The queue that has the values.
abbrev pub queue_of_values : QueueValues → Queue
queue_of_values v = record {
  name = v.name;
  concurrency = v.concurrency;
  limiter = limiter_from v.rate_limit_max v.rate_limit_period_ms;
  worker_concurrency = v.worker_concurrency;
  priority_enabled = v.priority_enabled;
  partition_queue = v.partition_queue;
  polling_interval_ms = v.polling_interval_ms;
  database_backed_queue = true;
}

-- A test that fails just where the predicate holds.
abbrev Tests : Bool → Type 0 → Type 0
Tests b P = ((b ≡ false) × P) ⊎ ((b ≡ true) × (¬ P))

exceeds_concurrency-HasRoom : (wc c : Option ℕ) → Tests (exceeds_concurrency wc c) (HasRoom wc c)
exceeds_concurrency-HasRoom none none = inl (refl, tt)
exceeds_concurrency-HasRoom none (some c) = inl (refl, tt)
exceeds_concurrency-HasRoom (some wc) none = inl (refl, tt)
exceeds_concurrency-HasRoom (some wc) (some c) = elim (Bool-cases (ltb c wc)) [
  | inl e ↦ inr (e, (λ h. ground arith))
  | inr e ↦ inl (e, ground arith)
]

lacks_field-HasPeriod :
    (max period : Option ℕ) → Tests (lacks_field (limiter_from max period)) (HasPeriod max period)
lacks_field-HasPeriod none period = inl (refl, tt)
lacks_field-HasPeriod (some limit) none = inr (refl, (λ h. h))
lacks_field-HasPeriod (some limit) (some period) = inl (refl, tt)

module _ (v : QueueValues) (id : String) (created updated : ℕ) where
  abbrev kept_as : QueueRow
  kept_as = record (queue_row v id updated) { created_at = created }

  queue_from_db_row-IsValid : IsValid v → queue_from_db_row kept_as ≡ ok (queue_of_values v)
  unfolding queue_from_db_row validate_queue
  queue_from_db_row-IsValid (room, polls, period) =
      let often : leb v.polling_interval_ms 0 ≡ false = ground arith in
      elim (exceeds_concurrency-HasRoom v.worker_concurrency v.concurrency) [
        | inl (e, h) ↦ elim (lacks_field-HasPeriod v.rate_limit_max v.rate_limit_period_ms) [
          | inl (f, k) ↦ rw (e, often, f) refl
          | inr (f, k) ↦ absurd (k period)
        ]
        | inr (e, h) ↦ absurd (h room)
      ]

  queue_from_db_row-invalid : ¬ IsValid v → queue_from_db_row kept_as ≡ err value_error
  unfolding queue_from_db_row validate_queue
  queue_from_db_row-invalid invalid =
      elim (exceeds_concurrency-HasRoom v.worker_concurrency v.concurrency) [
        | inl (e, h) ↦ elim (Bool-cases (leb v.polling_interval_ms 0)) [
          | inl never ↦ rw (e, never) refl
          | inr often ↦ elim (lacks_field-HasPeriod v.rate_limit_max v.rate_limit_period_ms) [
            | inl (f, k) ↦ absurd (invalid (h, ground arith, k))
            | inr (f, k) ↦ rw (e, often, f) refl
          ]
        ]
        | inr (e, h) ↦ rw e refl
      ]

module _ (v : QueueValues) (update_existing : Bool) (uuid : String) (now : ℕ) (db : SysDb) where
  abbrev upserted : SysDb
  upserted = (upsert_queue v update_existing uuid now db).1

  find-upserted :
      find_queue v.name upserted
      ≡ some (registered_row v update_existing uuid now (find_queue v.name db))
  unfolding upsert_queue
  find-upserted = ground (
    arith,
    find-put_queue v update_existing uuid now db (find_queue v.name db) refl v.name,
    eq_refl v.name,
    settled-registered v update_existing uuid now db (find_queue v.name db) refl,
  )

  find-upserted_as :
      (o : Option QueueRow) (row : QueueRow)
      → find_queue v.name db ≡ o
      → registered_row v update_existing uuid now o ≡ row
      → find_queue v.name upserted ≡ some row
  find-upserted_as o row found e =
      find-upserted ∙ ap some (ap (registered_row v update_existing uuid now) found ∙ e)

  get-upserted :
      (id : String) (created : ℕ)
      → registered_row v update_existing uuid now (find_queue v.name db) ≡ kept_as v id created now
      → (IsValid v → get_queue v.name upserted ≡ ok (some (queue_of_values v)))
        × (¬ IsValid v → get_queue v.name upserted ≡ err value_error)
  get-upserted id created kept =
      let got =
        get_queue-found v.name upserted (kept_as v id created now) (find-upserted ∙ ap some kept) in
      (
        (λ h. got ∙ ap got_queue (queue_from_db_row-IsValid v id created now h)),
        (λ h. got ∙ ap got_queue (queue_from_db_row-invalid v id created now h)),
      )

  -- Registering a queue answers whether its name is new. If it is new, or is to be updated, the
  -- queue that is got by the name afterwards has just the given values, or the ValueError of its
  -- validation is raised: where the workers may run more than the queue, the polling interval is 0,
  -- or a limit has no period. An update keeps the ID and the time of creation. Otherwise the name
  -- has the row that it had, and in any case each other name has.
  pub upsert_queue-get_queue :
      ((upsert_queue v update_existing uuid now db).0 ≡ ok (is_none (find_queue v.name db)))
      × ((is_none (find_queue v.name db) || update_existing) ≡ true
          → (IsValid v → get_queue v.name upserted ≡ ok (some (queue_of_values v)))
            × (¬ IsValid v → get_queue v.name upserted ≡ err value_error))
      × ((old : QueueRow)
          → find_queue v.name db ≡ some old
          → (row : QueueRow) × (find_queue v.name upserted ≡ some row)
            × (row.queue_id ≡ old.queue_id)
            × (row.created_at ≡ old.created_at)
            × (update_existing ≡ false → row ≡ old))
      × ((name : String) → (v.name == name) ≡ false → find_queue name upserted ≡ find_queue name db)
  unfolding upsert_queue
  upsert_queue-get_queue = (
    refl,
    (λ given. elim (Option-cases (find_queue v.name db)) [
      | inl e ↦ get-upserted uuid now (rw e refl)
      | inr (old, e) ↦
          let update : update_existing ≡ true = rw e at given in
          get-upserted old.queue_id old.created_at (rw (e, update) refl)
    ]),
    (λ old found. elim (Bool-cases update_existing) [
      | inl e ↦ (
        kept_as v old.queue_id old.created_at now,
        find-upserted_as (some old) (kept_as v old.queue_id old.created_at now) found (rw e refl),
        refl,
        refl,
        (λ f. absurd (true≢false (sym e ∙ f))),
      )
      | inr e ↦ (old, find-upserted_as (some old) old found (rw e refl), refl, refl, (λ f. refl))
    ]),
    (λ name other.
        ground
          (arith, find-put_queue v update_existing uuid now db (find_queue v.name db) refl name)),
  )
