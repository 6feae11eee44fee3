-- ===== src/Streams/Offsets.antt =====
-- The offsets of a stream are 0, 1, 2, … in the order of writing.
use dbos_workload.Prelude.{zero}
use dbos_workload.Streams.{
  write_directly, write_stream_from_step, retry_write, attempt_write, is_integrity,
}
use dbos_workload.Schema.{WorkflowRow}
use dbos_workload.Steps.{find_workflow}
use dbos_workload.Prelude.{
  ℕ, suc, String, ◌≡◌, ◌≤◌, ◌+◌, refl, Bool, true, Option, none, some, arith, List, [], ◌∷◌, ◌++◌,
  ◌==◌, compares_text, compares_nat, eq_refl, eq_iff, length, if◌then◌else◌, ◌≢◌, Bool-cases, inl,
  subst, inr, sym, ap, and-true_split, ◌∙◌,
}
use dbos_workload.Table.{find_row, select}
use dbos_workload.Table.Laws.{find_row-append, select-append}
use dbos_workload.Schema.{StreamRow, SysDb}
use dbos_workload.Transaction.{ok}
use dbos_workload.Serialization.{Serializers, Format, serialize_value}
use dbos_workload.Serialization.Roundtrip.{
  AllReadBack, NamesAgree, deserialize_value-serialize_value,
}
use dbos_workload.Streams.{
  in_stream, next_offset, stream_row, insert_stream, by_offset, read_stream,
}

-- The rows of one stream.
abbrev pub stream : String → String → SysDb → List StreamRow
stream id key db = select (in_stream id key) db.streams

-- The offsets count up from `k`.
abbrev pub Counts : ℕ → List StreamRow → Type 0
Counts k [] = Unit
Counts k (r ∷ rs) = (r.offset ≡ k) × Counts (suc k) rs

-- Every stream's offsets count up from 0.
abbrev pub AreNumbered : SysDb → Type 0
AreNumbered db = (id key : String) → Counts 0 (stream id key db)

next_offset-Counts :
    (k : ℕ) (rs : List StreamRow) → Counts k rs → rs ≢ [] → next_offset rs ≡ k + length rs
unfolding next_offset
next_offset-Counts k [] h some_row = absurd (some_row refl)
next_offset-Counts k (r ∷ []) h some_row = ground arith
next_offset-Counts k (r ∷ x ∷ xs) h some_row =
    ground (arith, next_offset-Counts (suc k) (x ∷ xs) h.1)

Counts-snoc :
    (k : ℕ) (rs : List StreamRow) (r : StreamRow)
    → Counts k rs
    → r.offset ≡ k + length rs
    → Counts k (rs ++ (r ∷ []))
Counts-snoc k [] r h e = (omega arith, tt)
Counts-snoc k (x ∷ xs) r h e = (h.0, Counts-snoc (suc k) xs r h.1 (omega arith))

append_nil : (rs : List StreamRow) → rs ++ [] ≡ rs
append_nil [] = refl
append_nil (r ∷ rs) = ap (λ (t : List StreamRow). r ∷ t) (append_nil rs)

-- A row that is added at the length of its stream keeps every stream numbered.
Counts-insert :
    (p : StreamRow → Bool) (rs : List StreamRow) (r : StreamRow)
    → Counts 0 (select p rs)
    → (p r ≡ true → r.offset ≡ length (select p rs))
    → Counts 0 (select p (rs ++ (r ∷ [])))
unfolding select
Counts-insert p rs r h next = elim (Bool-cases (p r)) [
  | inl e ↦
      subst (Counts 0) (sym (select-append p rs (r ∷ [])))
        (rw e (Counts-snoc 0 (select p rs) r h (omega (arith, next e))))
  | inr e ↦
      subst (Counts 0) (sym (select-append p rs (r ∷ [])))
        (rw e (subst (Counts 0) (sym (append_nil (select p rs))) h))
]

next_offset-stream : (rs : List StreamRow) → Counts 0 rs → next_offset rs ≡ length rs
unfolding next_offset
next_offset-stream [] h = refl
next_offset-stream (x ∷ xs) h = omega (arith, next_offset-Counts 0 (x ∷ xs) h (λ e. cc))

-- No row stands at an offset past the end.
find_row-past :
    (id key : String) (offset k : ℕ) (rs : List StreamRow)
    → Counts k (select (in_stream id key) rs)
    → k + length (select (in_stream id key) rs) ≤ offset
    → find_row (by_offset id key offset) rs ≡ none
unfolding select find_row
find_row-past id key offset k [] h past = refl
find_row-past id key offset k (r ∷ rs) h past = elim (Bool-cases (in_stream id key r)) [
  | inl e ↦ ground (arith, find_row-past id key offset (suc k) rs, (rw e at h), (rw e at past))
  | inr e ↦ ground (arith, find_row-past id key offset k rs, (rw e at h), (rw e at past))
]

pub insert_stream-AreNumbered :
    (id : String) (n : ℕ) (key text format : String) (db : SysDb)
    → AreNumbered db
    → AreNumbered (insert_stream id n key text format db)
unfolding insert_stream
insert_stream-AreNumbered id n key text format db numbered id' key' =
    Counts-insert (in_stream id' key') db.streams (stream_row id n key text format db)
      (numbered id' key')
      (λ e.
        let (same_id, same_key) = and-true_split (id == id') (key == key') e in
        let i : id ≡ id' = (eq_iff id id').0 same_id in
        let k : key ≡ key' = (eq_iff key key').0 same_key in
        next_offset-stream (stream id key db) (numbered id key)
        ∙ ap (λ (x : String). length (select (in_stream x key) db.streams)) i
        ∙ ap (λ (x : String). length (select (in_stream id' x) db.streams)) k)

-- What is found at each offset after an insertion.
find_row-insert :
    (id : String) (n : ℕ) (key text format : String) (db : SysDb) (offset : ℕ)
    → AreNumbered db
    → find_row (by_offset id key offset) (insert_stream id n key text format db).streams ≡ (
        if offset == length (stream id key db)
        then some (stream_row id n key text format db)
        else find_row (by_offset id key offset) db.streams)
unfolding insert_stream find_row
find_row-insert id n key text format db offset numbered =
    let next = next_offset-stream (stream id key db) (numbered id key) in
    let past = find_row-past id key offset 0 db.streams (numbered id key) in
    let split =
      find_row-append (by_offset id key offset) db.streams
        (stream_row id n key text format db ∷ []) in
    ground (arith, next, past, split, eq_refl id, eq_refl key)

module _ {V : Type 0} (s : Serializers V) (id : String) (n : ℕ) (key : String) (v : V)
    (format : Option Format) (db : SysDb) (text name : String)
    (written : serialize_value s v format ≡ ok (text, name)) where
  attempted :
      (attempts : ℕ) (w : WorkflowRow)
      → find_workflow id db ≡ some w
      → write_stream_from_step s (suc attempts) id n key v format db
        ≡ some (ok tt, insert_stream id n key text name db)
  unfolding write_stream_from_step write_directly retry_write attempt_write is_integrity
  attempted attempts w found = rw written (ground arith)

  starved :
      (attempts : ℕ)
      → find_workflow id db ≡ none
      → write_directly attempts id n key (ok (text, name)) db ≡ none
  unfolding write_directly retry_write attempt_write is_integrity
  starved zero absent = refl
  starved (suc attempts) absent = ground (arith, starved attempts absent)

-- A step's write of a value that serializes to the stream of an existing workflow returns at its
-- first attempt. If every stream was numbered 0, 1, 2, … in the order of writing, every stream
-- still is; the value is read back at the offset that was the stream's length, and every other
-- offset of the stream reads as before. The codecs must read back the value.
pub write_stream_from_step-read_stream :
    {V : Type 0} (s : Serializers V) (attempts : ℕ) (id : String) (n : ℕ) (key : String) (v : V)
    (format : Option Format) (db : SysDb) (w : WorkflowRow) (text name : String)
    → AllReadBack s v
    → NamesAgree s v
    → AreNumbered db
    → find_workflow id db ≡ some w
    → serialize_value s v format ≡ ok (text, name)
    → (db' : SysDb) × (write_stream_from_step s (suc attempts) id n key v format db
        ≡ some (ok tt, db'))
      × AreNumbered db'
      × (read_stream s id key (length (stream id key db)) db' ≡ ok v)
      × ((offset : ℕ)
          → offset ≢ length (stream id key db)
          → read_stream s id key offset db' ≡ read_stream s id key offset db)
unfolding read_stream
write_stream_from_step-read_stream s attempts id n key v format db w text name back agree numbered
      found written =
    let db' = insert_stream id n key text name db in
    let reads = deserialize_value-serialize_value s v back agree format text name written in
    (
      db',
      attempted s id n key v format db text name written attempts w found,
      insert_stream-AreNumbered id n key text name db numbered,
      ground (
        arith,
        reads,
        find_row-insert id n key text name db (length (stream id key db)) numbered,
      ),
      (λ offset other. ground (arith, find_row-insert id n key text name db offset numbered)),
    )

-- A step's write of a value that serializes to the stream of a workflow that does not exist never
-- returns, however often it is attempted: the loop takes the violation of the foreign key for a
-- conflict of offsets.
pub write_stream_from_step_stuck :
    {V : Type 0} (s : Serializers V) (attempts : ℕ) (id : String) (n : ℕ) (key : String) (v : V)
    (format : Option Format) (db : SysDb) (text name : String)
    → find_workflow id db ≡ none
    → serialize_value s v format ≡ ok (text, name)
    → write_stream_from_step s attempts id n key v format db ≡ none
unfolding write_stream_from_step
write_stream_from_step_stuck s attempts id n key v format db text name absent written =
    rw written (starved s id n key v format db text name written attempts absent)
