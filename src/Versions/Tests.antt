-- ===== src/Versions/Tests.antt =====
-- The older version is made the latest again.
use dbos_workload.Prelude.{arith}
use dbos_workload.Dequeue.{is_latest}
use dbos_workload.Prelude.{true}
use dbos_workload.Schema.{SysDb, VersionRow, empty_db}
use dbos_workload.Table.{any_where}
use dbos_workload.Transaction.{ok}
use dbos_workload.Versions.{
  create_application_version, get_latest_application_version, update_application_version_timestamp,
}
use dbos_workload.Versions.Latest.{update_application_version_timestamp_latest}
use dbos_workload.Prelude.{◌≡◌, refl}
use dbos_workload.Dequeue.{latest_version}

abbrev two_versions : SysDb
two_versions =
    create_application_version "v2" "id2" 9 (create_application_version "v1" "id1" 5 empty_db)

abbrev rolled_back : SysDb
rolled_back = update_application_version_timestamp "v1" 12 two_versions

update_application_version_timestamp_latest_test :
    (v : VersionRow) × (get_latest_application_version rolled_back ≡ ok v)
    × (v.version_name ≡ "v1")
    × (is_latest "v1" (latest_version rolled_back.application_versions) ≡ true)
unfolding create_application_version any_where
update_application_version_timestamp_latest_test =
    update_application_version_timestamp_latest "v1" 12 two_versions
      (omega arith, (omega arith, tt)) refl
