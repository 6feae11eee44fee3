-- ===== src/Executor/Run/Denied.antt =====
-- An execution without a role that it requires.
use dbos_workload.Executor.{Body, InvokedStatus, caught, returned, write_outcome}
use dbos_workload.Executor.Active.{ActiveWorkflows}
use dbos_workload.Executor.Outcome.{PlainIsWritten}
use dbos_workload.Executor.Recorded.{IsRecordedAs, write_outcome_records}
use dbos_workload.Executor.Roles.{check_required_roles, first_role, required_roles}
use dbos_workload.Executor.Run.{execute_workflow}
use dbos_workload.Prelude.{
  List, Option, String, [], arith, compares_text, eq_refl, false, mem, refl, some, true, ℕ, ◌∷◌,
  ◌≡◌,
}
use dbos_workload.Schema.{SysDb, WorkflowRow, is_cancelled}
use dbos_workload.Serialization.{Serializers}
use dbos_workload.Steps.{find_workflow}
use dbos_workload.Transaction.{Error, err, not_authorized}
use dbos_workload.Workflow.{check_workflow_result}
use dbos_workload.Workflow.Lookup.{HasPrimaryKey}

first_role_denied :
    (roles authenticated : List String)
    → ((role : String) → mem role roles ≡ true → mem role authenticated ≡ false)
    → first_role roles authenticated ≡ err not_authorized
unfolding first_role
first_role_denied [] authenticated h = refl
first_role_denied (r ∷ roles) authenticated h =
    let later = first_role_denied roles authenticated (λ role here. h role (ground arith)) in
    rw (h r (ground (arith, eq_refl r)), later) refl

-- None of the required roles is a role of the user.
pub check_required_roles-denied :
    (of_class of_function : Option (List String)) (first : String)
    (roles authenticated : List String)
    → required_roles of_class of_function ≡ some (first ∷ roles)
    → ((role : String) → mem role (first ∷ roles) ≡ true → mem role authenticated ≡ false)
    → check_required_roles of_class of_function (some authenticated) ≡ err not_authorized
unfolding check_required_roles
check_required_roles-denied of_class of_function first roles authenticated required h =
    rw required (first_role_denied (first ∷ roles) authenticated h)

module _ {V W : Type 0} (s : Serializers V) (se : Serializers Error) (plain : Error → Error)
    (st : InvokedStatus) (now : ℕ) (of_class of_function : Option (List String)) where
  -- If the function requires roles, or its class does, and the user has none of them, the
  -- workflow's function is not run, whatever the set of active workflows: DBOSNotAuthorizedError is
  -- raised, and is what whoever reads the workflow's result gets afterwards. The workflow has a
  -- row, in the format that its execution was given, the ID is the primary key, it is not cancelled,
  -- and plain exceptions can be written.
  pub execute_workflow-denied :
      (first : String) (roles authenticated : List String) (body : Body (ActiveWorkflows × W) V)
      (m : ActiveWorkflows) (db : SysDb) (w : W) (x : WorkflowRow)
      → required_roles of_class of_function ≡ some (first ∷ roles)
      → ((role : String) → mem role (first ∷ roles) ≡ true → mem role authenticated ≡ false)
      → HasPrimaryKey db
      → find_workflow st.workflow_uuid db ≡ some x
      → x.serialization ≡ st.serialization
      → is_cancelled x.status ≡ false
      → PlainIsWritten se plain st.serialization
      → let (ended, m', after, world) =
          execute_workflow s se plain st now of_class of_function
            (some authenticated)
            body
            m
            db
            w in
        (ended ≡ returned (err not_authorized))
        × (m' ≡ m)
        × (world ≡ w)
        × IsRecordedAs s se plain st.serialization
            (err not_authorized)
            (check_workflow_result s st.workflow_uuid after)
  unfolding execute_workflow write_outcome caught
  execute_workflow-denied first roles authenticated body m db w x required h unique found same live
        writes =
      let denied =
        check_required_roles-denied of_class of_function first roles authenticated required h in
      let (ends, known) =
        write_outcome_records s se plain st now writes db x unique found (err not_authorized) same
          live refl in
      rw denied (ends, refl, refl, known)
