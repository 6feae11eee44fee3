-- ===== src/Versions.antt =====
-- Application versions of dbos/_sys_db.py. The latest one is the one that dequeues give the
-- workflows without a version to.
pub mod Latest
mod Tests
use dbos_workload.Prelude.{
  Bool, List, [], compares_nat, compares_option, compares_text, if◌then◌else◌, leb, ◌++◌, ◌==◌, ◌∷◌,
}
use dbos_workload.Schema.{SysDb, VersionRow}
use dbos_workload.Table.{any_where, update_where}
use dbos_workload.Transaction.{Result, err, ok, dbos_exception}
use dbos_workload.Prelude.{String, ◌≡◌, Option, ℕ, refl}

abbrev pub by_version : String → VersionRow → Bool
by_version name v = v.version_name == name

-- ON CONFLICT DO NOTHING; `uuid` is the generated ID, and the times are the default, now.
unfoldable pub create_application_version : String → String → ℕ → SysDb → SysDb
create_application_version name uuid now db =
    if any_where (by_version name) db.application_versions then db else record db {
      application_versions =
          db.application_versions
          ++ (record {
            version_id = uuid;
            version_name = name;
            version_timestamp = now;
            created_at = now;
          }
              ∷ []);
    }

abbrev pub stamped : ℕ → VersionRow → VersionRow
stamped timestamp v = record v { version_timestamp = timestamp }

unfoldable pub update_application_version_timestamp : String → ℕ → SysDb → SysDb
update_application_version_timestamp name timestamp db = record db {
  application_versions = update_where (by_version name) (stamped timestamp) db.application_versions;
}

-- ORDER BY version_timestamp DESC; versions that tie stay in the order of insertion.
place_version : VersionRow → List VersionRow → List VersionRow
place_version v [] = v ∷ []
place_version v (x ∷ xs) =
    let rest = place_version v xs in
    if leb x.version_timestamp v.version_timestamp then v ∷ x ∷ xs else x ∷ rest

newest_first : List VersionRow → List VersionRow
newest_first [] = []
newest_first (v ∷ vs) = place_version v (newest_first vs)

unfoldable pub list_application_versions : SysDb → List VersionRow
unfolding newest_first place_version
list_application_versions db = newest_first db.application_versions

first_version : List VersionRow → Result VersionRow
first_version [] = err dbos_exception
first_version (v ∷ vs) = ok v

-- LIMIT 1 of the same order.
unfoldable pub get_latest_application_version : SysDb → Result VersionRow
unfolding first_version newest_first place_version
get_latest_application_version db = first_version (newest_first db.application_versions)
