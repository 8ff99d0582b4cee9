-- ===== src/Ledger/Errors.antt =====
-- What an operation raises (`HarnessError`, `SchemaGuardError`, `sqlite3.IntegrityError`), by the
-- values that its message names, and the results of operations that may raise.
use kafa.Base.{if◌then◌else◌, String, ◌≡◌, refl, Bool, true, false, List}
use kafa.Ledger.Tables.{TaskStatus, CycleStatus}

-- What `phase_prerequisite_issues` names; each is about the phase that is asked for.
pub data PhaseIssue : Type 0 where
  requirement_needed acceptance_needed task_needed scope_unconfirmed baseline_missing : PhaseIssue
  baseline_stale : (baseline_id : String) → PhaseIssue
  task_open : (id : String) (status : TaskStatus) → PhaseIssue

pub data Error : Type 0 where
  project_missing cycle_not_configured : Error
  cycle_missing : (cycle_id : String) → Error
  cycle_closed : (cycle_id : String) (status : CycleStatus) (operation : String) → Error
  text_required : (label : String) → Error
  choice_invalid : (label value : String) → Error
  missing_task missing_acceptance missing_failure_mode duplicate_task : (id : String) → Error
  cannot_transition : (id : String) (from target : TaskStatus) → Error
  not_runnable : (id : String) (status : TaskStatus) → Error
  dependencies_not_accepted : (id : String) (blockers : List (String × TaskStatus)) → Error
  dependency_cycle : (id : String) → Error
  constraint_failed : (table : String) → Error
  invariant_failed : (codes : List String) → Error
  key_error unknown_phase duplicate_cycle : (key : String) → Error
  cycle_not_active cycle_not_closed : (cycle_id : String) (status : CycleStatus) → Error
  illegal_transition : (from target : String) → Error
  phase_blocked : List PhaseIssue → Error
  readiness_blocked : List String → Error
  cycle_start_incomplete close_by_delivery close_status_unknown : Error
  plan_not_object plan_not_text plan_text_empty plan_text_too_long : (label : String) → Error
  plan_keys_mismatch : (label : String) (missing extra : List String) → Error
  plan_version_invalid plan_risk_invalid plan_id_unusable plan_id_too_long : Error
  -- `RuntimeError` where a file of the source tree cannot be read
  source_unreadable : (message : String) → Error
  -- the loop of the dependency check ran out of fuel; it never does
  out_of_fuel : Error

-- `err` is an exception on its way out: what follows is not run.
pub data Result {ℓ} (Value : Type ℓ) : Type ℓ where
  err : (raised : Error) → Result Value
  ok : (value : Value) → Result Value

infixl 5 ◌>>=◌ ◌>>◌
-- The rest of a block, on the value of the statement before it.
abbrev pub ◌>>=◌ {ℓ κ} :
    {Value : Type ℓ} {Next : Type κ} → Result Value → (Value → Result Next) → Result Next
err raised >>= rest = err raised
ok value >>= rest = rest value

-- The rest of a block after a statement without a value.
abbrev pub ◌>>◌ {ℓ} : {Next : Type ℓ} → Result (Unit {0}) → Result Next → Result Next
statement >> rest = statement >>= λ _. rest

-- `if not condition: raise raised`
abbrev pub guard : (condition : Bool) (raised : Error) → Result (Unit {0})
guard condition raised = if condition then ok tt else err raised

-- A block returned, so its first statement did, and then the rest.
pub >>=-eq-ok {ℓ κ} :
    {Value : Type ℓ} {Next : Type κ} (statement : Result Value) (rest : Value → Result Next)
    {returned : Next}
    → (statement >>= rest) ≡ ok returned
    → (value : Value) × (statement ≡ ok value) × (rest value ≡ ok returned)
>>=-eq-ok (err raised) rest done = cc
>>=-eq-ok (ok value) rest done = (value, refl, done)

-- A block returned, so the condition of its first guard holds.
pub guard-eq-ok {ℓ} :
    {Next : Type ℓ} (condition : Bool) (raised : Error) (rest : Result Next) {returned : Next}
    → (guard condition raised >> rest) ≡ ok returned
    → (condition ≡ true) × (rest ≡ ok returned)
guard-eq-ok false raised rest done = cc
guard-eq-ok true raised rest done = (refl, done)

pub ok-injective {ℓ} : {Value : Type ℓ} {x y : Value} → ok x ≡ ok y → x ≡ y
ok-injective same = cc

pub guard_test :
    (condition : Bool) (raised : Error) → guard condition raised ≡ ok tt → condition ≡ true
guard_test false raised done = cc
guard_test true raised done = refl
