-- ===== src/Executor/Roles.antt =====
-- `check_required_roles` of dbos/_roles.py.
use dbos_workload.Prelude.{List, [], ◌∷◌, compares_text, if◌then◌else◌, mem, none, some}
use dbos_workload.Prelude.{String, Option}
use dbos_workload.Transaction.{Result, err, not_authorized, ok}

-- The roles that the function requires, or else its class.
abbrev pub required_roles : Option (List String) → Option (List String) → Option (List String)
required_roles of_class (some roles) = some roles
required_roles of_class none = of_class

-- `for r in required_roles`: the first one that the user has.
unfoldable pub first_role : List String → List String → Result (Option String)
first_role [] authenticated = err not_authorized
first_role (r ∷ roles) authenticated =
    let rest = first_role roles authenticated in if mem r authenticated then ok (some r) else rest

abbrev pub check_roles : Option (List String) → Option (List String) → Result (Option String)
check_roles none authenticated = ok none
check_roles (some []) authenticated = ok none
check_roles (some (r ∷ roles)) none = err not_authorized
check_roles (some (r ∷ roles)) (some authenticated) = first_role (r ∷ roles) authenticated

-- `authenticated` are the roles of the context, if there are any. The role that is assumed, if one
-- is required.
unfoldable pub check_required_roles :
    Option (List String) → Option (List String) → Option (List String) → Result (Option String)
unfolding first_role
check_required_roles of_class of_function authenticated =
    check_roles (required_roles of_class of_function) authenticated
