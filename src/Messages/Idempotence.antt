-- ===== src/Messages/Idempotence.antt =====
-- A send with idempotency keys can be repeated.
use dbos_workload.Prelude.{
  ℕ, suc, String, ◌≡◌, refl, true, false, Option, none, List, [], ◌∷◌, arith, eq_refl,
  compares_text, All, map, is_some, subst, sym,
}
use dbos_workload.Table.{any_where}
use dbos_workload.Table.Laws.{any_where-append}
use dbos_workload.Schema.{NotificationRow, SysDb}
use dbos_workload.Transaction.{Result, ok, err, Conn}
use dbos_workload.Serialization.{Serializers, Format}
use dbos_workload.Messages.{
  SendMessage, Forks, Prepared, prepare, prepare_next, rows_to, rows_of, by_message,
  insert_notification, insert_notifications, send_bulk, forks_of, deliver, has_duplicates,
  send_from, provided_keys,
}
use mathlib.Core.Path.{subst₂}

abbrev IsPresent : SysDb → String → Type 0
IsPresent db id = any_where (by_message id) db.notifications ≡ true

abbrev ids_of : List NotificationRow → List String
ids_of = map (λ r. r.message_uuid)

IsPresent-insert_notification :
    (r : NotificationRow) (c : Conn) (id : String)
    → IsPresent c.work id
    → IsPresent (insert_notification r c).1.work id
unfolding insert_notification
IsPresent-insert_notification r c id h =
    ground (arith, any_where-append (by_message id) c.work.notifications (r ∷ []))

inserted-IsPresent :
    (r : NotificationRow) (c : Conn)
    → (insert_notification r c).0 ≡ ok tt
    → IsPresent (insert_notification r c).1.work r.message_uuid
unfolding insert_notification any_where
inserted-IsPresent r c done = ground (
  arith,
  any_where-append (by_message r.message_uuid) c.work.notifications (r ∷ []),
  eq_refl r.message_uuid,
)

All-IsPresent-insert :
    (r : NotificationRow) (c : Conn) (ids : List String)
    → All (IsPresent c.work) ids
    → All (IsPresent (insert_notification r c).1.work) ids
All-IsPresent-insert r c [] h = tt
All-IsPresent-insert r c (id ∷ ids) h =
    (IsPresent-insert_notification r c id h.0, All-IsPresent-insert r c ids h.1)

IsPresent-insert_notifications :
    (rs : List NotificationRow) (c : Conn) (id : String)
    → IsPresent c.work id
    → IsPresent (insert_notifications rs c).1.work id
unfolding insert_notifications
IsPresent-insert_notifications [] c id h = h
IsPresent-insert_notifications (r ∷ rs) c id h = ground (
  arith,
  IsPresent-insert_notification r c id h,
  IsPresent-insert_notifications rs (insert_notification r c).1 id,
)

insert_notification-ok :
    (r : NotificationRow) (rs : List NotificationRow) (c : Conn)
    → (insert_notifications (r ∷ rs) c).0 ≡ ok tt
    → ((insert_notification r c).0 ≡ ok tt)
      × ((insert_notifications rs (insert_notification r c).1).0 ≡ ok tt)
      × ((insert_notifications (r ∷ rs) c).1
          ≡ (insert_notifications rs (insert_notification r c).1).1)
unfolding insert_notifications
insert_notification-ok r rs c done = ground arith

-- After an INSERT that returned, the ID of each of its rows is in the table.
inserted-All :
    (rs : List NotificationRow) (c : Conn)
    → (insert_notifications rs c).0 ≡ ok tt
    → All (IsPresent (insert_notifications rs c).1.work) (ids_of rs)
unfolding insert_notifications
inserted-All [] c done = tt
inserted-All (r ∷ rs) c done =
    let first = insert_notification-ok r rs c done in
    subst (λ (d : Conn). All (IsPresent d.work) (ids_of (r ∷ rs))) (sym first.2)
      (
        IsPresent-insert_notifications rs (insert_notification r c).1 r.message_uuid
            (inserted-IsPresent r c first.0),
        inserted-All rs (insert_notification r c).1 first.1,
      )

-- An INSERT whose IDs are all in the table changes nothing.
insert-present :
    (rs : List NotificationRow) (c : Conn)
    → All (IsPresent c.work) (ids_of rs)
    → insert_notifications rs c ≡ (ok tt, c)
unfolding insert_notifications insert_notification
insert-present [] c h = refl
insert-present (r ∷ rs) c h = ground (arith, insert-present rs c h.1)

-- The IDs of the rows of prepared messages that have keys depend on the messages alone.
abbrev AllKeyed : {V : Type 0} → List (SendMessage V) → Type 0
AllKeyed ms = All (λ m. is_some m.idempotency_key ≡ true) ms

module _ {V : Type 0} (s : Serializers V) (uuid uuid' : ℕ → String) (now now' : ℕ) where
  ids-rows_to :
      (m : SendMessage V) (text format text' format' : String) (dests : List String) (n n' : ℕ)
      (rest rest' : ℕ → List NotificationRow)
      → is_some m.idempotency_key ≡ true
      → ((i j : ℕ) → ids_of (rest i) ≡ ids_of (rest' j))
      → ids_of (rows_to uuid now n (m, text, format) dests rest)
        ≡ ids_of (rows_to uuid' now' n' (m, text', format') dests rest')
  unfolding rows_to
  ids-rows_to m text format text' format' [] n n' rest rest' keyed same = same n n'
  ids-rows_to m text format text' format' (d ∷ dests) n n' rest rest' keyed same =
      ground (
        arith,
        ids-rows_to m text format text' format' dests (suc n) (suc n') rest rest' keyed same,
      )

  -- What a successful `prepare` returned, one message at a time.
  prepare-cons :
      (m : SendMessage V) (ms : List (SendMessage V)) (format : Option Format)
      (ps : List (Prepared V))
      → prepare s format (m ∷ ms) ≡ ok ps
      → (text : String) × (name : String) × (rest : List (Prepared V)) × (prepare s format ms
          ≡ ok rest)
        × (ps ≡ (m, text, name) ∷ rest)
  unfolding prepare prepare_next
  prepare-cons m ms format ps done = ground arith

  ids-rows_of :
      (forks : Forks) (ms : List (SendMessage V)) (format format' : Option Format)
      (ps ps' : List (Prepared V)) (n n' : ℕ)
      → AllKeyed ms
      → prepare s format ms ≡ ok ps
      → prepare s format' ms ≡ ok ps'
      → ids_of (rows_of uuid now forks ps n) ≡ ids_of (rows_of uuid' now' forks ps' n')
  unfolding prepare rows_of
  ids-rows_of forks [] format format' ps ps' n n' keyed done done' = ground arith
  ids-rows_of forks (m ∷ ms) format format' ps ps' n n' keyed done done' =
      let (text, name, rest, more, e) = prepare-cons m ms format ps done in
      let (text', name', rest', more', e') = prepare-cons m ms format' ps' done' in
      rw (e, e')
        (ids-rows_to m text name text' name' (m.destination_id ∷ forks_of m.destination_id forks) n
          n' (rows_of uuid now forks rest) (rows_of uuid' now' forks rest') keyed.0
          (λ i j. ids-rows_of forks ms format format' rest rest' i j keyed.1 more more'))

module _ {V : Type 0} (s : Serializers V) (own : Option String) (uuid uuid' : ℕ → String)
    (now now' : ℕ) (format : Option Format) (forks : Forks) (ms : List (SendMessage V)) where
  deliver-ok :
      (ps : List (Prepared V)) (c c' : Conn)
      → prepare s format ms ≡ ok ps
      → deliver s own uuid ms format forks now c ≡ (ok tt, c')
      → ((insert_notifications (rows_of uuid now forks ps 0) c).0 ≡ ok tt)
        × ((insert_notifications (rows_of uuid now forks ps 0) c).1 ≡ c')
  unfolding deliver
  deliver-ok ps c c' made done = ground arith

  deliver_twice :
      (c c' : Conn)
      → AllKeyed ms
      → deliver s own uuid ms format forks now c ≡ (ok tt, c')
      → (d : Conn) → d.work ≡ c'.work
      → deliver s own uuid' ms format forks now' d ≡ (ok tt, d)
  unfolding deliver
  deliver_twice c c' keyed done d same = go (prepare s format ms) refl
    where
      go :
          (p : Result (List (Prepared V)))
          → prepare s format ms ≡ p
          → deliver s own uuid' ms format forks now' d ≡ (ok tt, d)
      go (err e) failed = cc
      go (ok ps) made =
          let sent = deliver-ok ps c c' made done in
          let again = inserted-All (rows_of uuid now forks ps 0) c sent.0 in
          let kept =
            subst (λ (x : Conn). All (IsPresent x.work) (ids_of (rows_of uuid now forks ps 0)))
              sent.1 again in
          let held =
            subst₂ (λ (x : SysDb) (ids : List String). All (IsPresent x) ids) (sym same)
              (ids-rows_of s uuid uuid' now now' forks ms format format ps ps 0 0 keyed made made)
              kept in
          rw made (insert-present (rows_of uuid' now' forks ps 0) d held)

  send-ok :
      (start : ℕ) (name : String) (db db' : SysDb)
      → send_bulk s own uuid ms format forks none name start now db ≡ (ok tt, db')
      → (c' : Conn) × (has_duplicates (provided_keys ms) ≡ false)
        × (deliver s own uuid ms format forks now (record { work = db; saved = db }) ≡ (ok tt, c'))
        × (db' ≡ c'.work)
  unfolding send_bulk send_from
  send-ok start name db db' done = (
    (deliver s own uuid ms format forks now (record { work = db; saved = db })).1,
    ground arith,
    ground arith,
    ground arith,
  )

-- Sending messages that all have idempotency keys, from outside a workflow, can be repeated: if a
-- send of them returned, sending the same messages to the same forks again, at any later time and
-- with whatever generated IDs, returns and changes nothing.
pub send_bulk_twice :
    {V : Type 0} (s : Serializers V) (own : Option String) (uuid uuid' : ℕ → String)
    (start now start' now' : ℕ) (name : String) (format : Option Format) (forks : Forks)
    (ms : List (SendMessage V)) (db db' : SysDb)
    → AllKeyed ms
    → send_bulk s own uuid ms format forks none name start now db ≡ (ok tt, db')
    → send_bulk s own uuid' ms format forks none name start' now' db' ≡ (ok tt, db')
unfolding send_bulk send_from
send_bulk_twice s own uuid uuid' start now start' now' name format forks ms db db' keyed done =
    let first = send-ok s own uuid uuid' now now' format forks ms start name db db' done in
    let second =
      deliver_twice s own uuid uuid' now now' format forks ms (record { work = db; saved = db })
        first.0 keyed first.2 (record { work = db'; saved = db' }) first.3 in
    ground (arith)
