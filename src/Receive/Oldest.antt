-- ===== src/Receive/Oldest.antt =====
-- Which message a receive consumes.
use dbos_workload.Prelude.{◌≡◌, ◌⊎◌, List, [], ◌∷◌}
use dbos_workload.Schema.{NotificationRow}

-- The row is one of the list.
abbrev pub IsIn : NotificationRow → List NotificationRow → Type 0
IsIn m [] = ⊥
IsIn m (r ∷ rs) = (r ≡ m) ⊎ IsIn m rs
