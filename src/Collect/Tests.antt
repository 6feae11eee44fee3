-- ===== src/Collect/Tests.antt =====
-- Three old workflows, deleted in batches of one.
use dbos_workload.Collect.Batches.{garbage_collect_batches}
use dbos_workload.Fixtures.{workflow_row}
use dbos_workload.Prelude.{[], arith, none, some, ◌∷◌, ◌≡◌}
use dbos_workload.Schema.{Status, SysDb, empty_db, pending}
use dbos_workload.Collect.{garbage_collect}

abbrev old_db : SysDb
old_db = record empty_db {
  workflow_status =
      workflow_row "x" Status.success none 1
      ∷ workflow_row "y" Status.error none 2
      ∷ workflow_row "z" pending none 3
      ∷ [];
}

garbage_collect_batches_example :
    garbage_collect 4 (some 9) none (some 1) old_db ≡ garbage_collect 0 (some 9) none none old_db
garbage_collect_batches_example = garbage_collect_batches 4 0 (some 9) none old_db (omega arith)
