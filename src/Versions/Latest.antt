-- ===== src/Versions/Latest.antt =====
-- The latest version, as it is got and as dequeues take it.
use dbos_workload.Dequeue.{is_latest}
use dbos_workload.Prelude.{eq_iff, if◌then◌else◌}
use dbos_workload.Schema.{SysDb}
use dbos_workload.Versions.{get_latest_application_version, update_application_version_timestamp}
use dbos_workload.Prelude.{
  All, Bool-cases, ap, arith, compares_nat, compares_option, compares_text, inl, inr, true, ◌<◌,
  ◌==◌, ◌≤◌,
}
use dbos_workload.Table.{any_where, update_where}
use dbos_workload.Versions.{by_version, stamped}
use dbos_workload.Prelude.{List, [], none, some, ◌∷◌}
use dbos_workload.Schema.{VersionRow}
use dbos_workload.Transaction.{err, ok, dbos_exception}
use dbos_workload.Prelude.{String, ◌≡◌, Option, ℕ, refl}
use dbos_workload.Dequeue.{latest_version, newer}
use dbos_workload.Versions.{place_version, newest_first, first_version}

first-place :
    (v : VersionRow) (vs : List VersionRow) (best : Option VersionRow)
    → first_version vs ≡ elim best [ none ↦ err dbos_exception | some x ↦ ok x ]
    → first_version (place_version v vs) ≡ ok (newer v best)
unfolding place_version first_version newer
first-place v [] none h = refl
first-place v [] (some x) h = cc
first-place v (y ∷ ys) none h = cc
first-place v (y ∷ ys) (some x) h = ground arith

first-newest_first :
    (vs : List VersionRow)
    → first_version (newest_first vs)
      ≡ elim (latest_version vs) [ none ↦ err dbos_exception | some x ↦ ok x ]
unfolding newest_first latest_version first_version
first-newest_first [] = refl
first-newest_first (v ∷ vs) =
    first-place v (newest_first vs) (latest_version vs) (first-newest_first vs)

module _ (name : String) (t : ℕ) where
  abbrev restamped : List VersionRow → List VersionRow
  restamped = update_where (by_version name) (stamped t)

  top_below :
      (v : VersionRow) (o : Option VersionRow)
      → v.version_timestamp ≤ t
      → ((best : VersionRow) → o ≡ some best → best.version_timestamp ≤ t)
      → (newer v o).version_timestamp ≤ t
  unfolding newer
  top_below v none own h = own
  top_below v (some best) own h = ground (arith, h best refl)

  latest_below :
      (vs : List VersionRow) (best : VersionRow)
      → All (λ v. v.version_timestamp < t) vs
      → latest_version (restamped vs) ≡ some best
      → best.version_timestamp ≤ t
  unfolding latest_version newer update_where
  latest_below [] best older h = cc
  latest_below (v ∷ vs) best older h =
      let v' = if v.version_name == name then stamped t v else v in
      let below =
        top_below v' (latest_version (restamped vs)) (ground (arith, older.0))
          (λ b. latest_below vs b older.1) in
      ground (arith, below)

  top_stamped :
      (v : VersionRow) (o : Option VersionRow)
      → ((best : VersionRow) → o ≡ some best → best.version_timestamp ≤ t)
      → newer (stamped t v) o ≡ stamped t v
  unfolding newer
  top_stamped v none h = refl
  top_stamped v (some best) h = ground (arith, h best refl)

  top_other :
      (v best : VersionRow)
      → v.version_timestamp < t
      → best.version_timestamp ≡ t
      → newer v (some best) ≡ best
  unfolding newer
  top_other v best older at_t = ground arith

  latest_stamped :
      (vs : List VersionRow)
      → All (λ v. v.version_timestamp < t) vs
      → any_where (by_version name) vs ≡ true
      → (v : VersionRow) × (latest_version (restamped vs) ≡ some v)
        × ((v.version_name == name) ≡ true)
        × (v.version_timestamp ≡ t)
  unfolding latest_version update_where any_where
  latest_stamped [] older h = cc
  latest_stamped (v ∷ vs) older h = elim (Bool-cases (v.version_name == name)) [
    | inl e ↦ (
      stamped t v,
      rw e (
          ap some (top_stamped v (latest_version (restamped vs)) (λ b. latest_below vs b older.1))),
      e,
      refl,
    )
    | inr e ↦
        let (best, found, named, at_t) = latest_stamped vs older.1 (ground arith) in
        (best, rw e (rw found (ap some (top_other v best older.0 at_t))), named, at_t)
  ]

-- A version whose timestamp is set beyond those of all versions is the latest, as it is got and as
-- dequeues take it: from then on they give the workflows without a version to it.
pub update_application_version_timestamp_latest :
    (name : String) (t : ℕ) (db : SysDb)
    → All (λ v. v.version_timestamp < t) db.application_versions
    → any_where (by_version name) db.application_versions ≡ true
    → (v : VersionRow) × (get_latest_application_version
          (update_application_version_timestamp name t db)
        ≡ ok v)
      × (v.version_name ≡ name)
      × (is_latest name
            (latest_version (update_application_version_timestamp name t db).application_versions)
          ≡ true)
unfolding get_latest_application_version update_application_version_timestamp
update_application_version_timestamp_latest name t db older known =
    let vs = db.application_versions in
    let (v, found, named, at_t) = latest_stamped name t vs older known in
    (
      v,
      ground (arith, first-newest_first (update_where (by_version name) (stamped t) vs), found),
      (eq_iff v.version_name name).0 named,
      rw found named,
    )
