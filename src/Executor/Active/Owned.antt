-- ===== src/Executor/Active/Owned.antt =====
-- A workflow is active once at a time, and leaves nothing behind.
use dbos_workload.Executor.Active.{ActiveWorkflows, acquire, bucket_of, has_key, release}
use dbos_workload.Prelude.{
  Option, String, [], arith, compares_option, compares_text, eq_iff, eq_refl, false, refl, some,
  true, ◌++◌, ◌==◌, ◌∷◌, ◌≡◌,
}
use dbos_workload.Table.{any_where, delete_where}

any_where_added :
    (key : String) (b : Option (String × Option String)) (m : ActiveWorkflows)
    → any_where (has_key key) (m ++ ((key, b) ∷ [])) ≡ true
unfolding any_where
any_where_added key b [] = ground (arith, eq_refl key)
any_where_added key b (x ∷ m) = ground (arith, any_where_added key b m)

delete_where_added :
    (key : String) (b : Option (String × Option String)) (m : ActiveWorkflows)
    → any_where (has_key key) m ≡ false
    → delete_where (has_key key) (m ++ ((key, b) ∷ [])) ≡ m
unfolding any_where delete_where
delete_where_added key b [] h = ground (arith, eq_refl key)
delete_where_added key b (x ∷ m) h = ground (arith, delete_where_added key b m)

-- A workflow that is active cannot be acquired, and one that is not can: it is active then, and
-- releasing it leaves the set as it was before.
pub acquire-release :
    (key : String) (queue partition : Option String) (m : ActiveWorkflows)
    → (any_where (has_key key) m ≡ true → acquire key queue partition m ≡ (false, m))
      × (any_where (has_key key) m ≡ false
          → ((acquire key queue partition m).0 ≡ true)
            × (any_where (has_key key) (acquire key queue partition m).1 ≡ true)
            × (release key (acquire key queue partition m).1 ≡ some m))
unfolding acquire release
acquire-release key queue partition m =
    let there = any_where_added key (bucket_of queue partition) m in
    (
      (λ h. rw h refl),
      (λ h. (
        rw h refl,
        rw h there,
        rw (h, there, delete_where_added key (bucket_of queue partition) m h) refl,
      )),
    )

delete_where_gone :
    (key : String) (m : ActiveWorkflows)
    → any_where (has_key key) (delete_where (has_key key) m) ≡ false
unfolding any_where delete_where
delete_where_gone key [] = refl
delete_where_gone key (x ∷ m) = ground (arith, delete_where_gone key m)

delete_where_others :
    (key other : String) (m : ActiveWorkflows)
    → (key == other) ≡ false
    → any_where (has_key other) (delete_where (has_key key) m) ≡ any_where (has_key other) m
unfolding any_where delete_where
delete_where_others key other [] h = refl
delete_where_others key other (x ∷ m) h =
    ground
      (arith, delete_where_others key other m h, eq_iff x.0 key, eq_iff x.0 other, eq_iff key other)

-- A workflow that is active can be released: it is not active then, and all others are as before.
pub release-active :
    (key : String) (m : ActiveWorkflows)
    → any_where (has_key key) m ≡ true
    → (m' : ActiveWorkflows) × (release key m ≡ some m')
      × (any_where (has_key key) m' ≡ false)
      × ((other : String)
          → (key == other) ≡ false
          → any_where (has_key other) m' ≡ any_where (has_key other) m)
unfolding release
release-active key m h = (
  delete_where (has_key key) m,
  rw h refl,
  delete_where_gone key m,
  (λ other apart. delete_where_others key other m apart),
)
