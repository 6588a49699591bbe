-- ===== src/Store/Errors.antt =====
-- The errors of internal/store/sqlite.go, session.go and maintenance.go, and what a call of the store
-- answers.
use ai_engineer_workflow.Prelude.{Bool, true, false, if◌then◌else◌, List, ◌≡◌, refl, arith}
use ai_engineer_workflow.Store.Claim.{TicketClaim}

pub data StoreError : Type 0 where
  err_not_found err_fencing_conflict err_no_ready_tickets err_capacity err_not_ready : StoreError
  err_invalid_claim err_delivery_in_progress err_worker_launched : StoreError
  err_delivery_launch_lease_expired err_maintenance_fenced : StoreError
  -- a constraint of the schema fails; a query that must find a row finds none
  err_constraint err_no_rows : StoreError
  -- the caller's provisioning of a session fails; `sessionAuthenticationTerminalizedError`
  err_provisioning session_authentication_terminalized : StoreError
  -- `WorkerIsolationRequired`
  isolation_required : List TicketClaim → StoreError

-- `out_of_fuel` belongs to the recursion of `ReadyFrontier`.
pub data Result {ℓ} (A : Type ℓ) : Type ℓ where
  ok : A → Result A
  err : StoreError → Result A
  out_of_fuel : Result A

-- The next statement runs when this one succeeds, as `if err != nil { return …, err }` has it.
abbrev pub and_then {ℓ κ} : {A : Type ℓ} {B : Type κ} → Result A → (A → Result B) → Result B
and_then (ok a) f = f a
and_then (err e) f = err e
and_then out_of_fuel f = out_of_fuel

pub and_then-ok {ℓ κ} :
    {A : Type ℓ} {B : Type κ} (m : Result A) (f : A → Result B) (b : B)
    → and_then m f ≡ ok b
    → (a : A) × (m ≡ ok a) × (f a ≡ ok b)
and_then-ok (ok a) f b h = (a, refl, h)
and_then-ok (err e) f b h = cc
and_then-ok out_of_fuel f b h = cc

-- A test that refuses did not refuse.
pub guard-ok {ℓ} :
    {A : Type ℓ} (b : Bool) (e : StoreError) (m : Result A) (a : A)
    → (if b then err e else m) ≡ ok a
    → (b ≡ false) × (m ≡ ok a)
guard-ok true e m a h = cc
guard-ok false e m a h = (refl, h)

pub allow-ok {ℓ} :
    {A : Type ℓ} (b : Bool) (e : StoreError) (m : Result A) (a : A)
    → (if b then m else err e) ≡ ok a
    → (b ≡ true) × (m ≡ ok a)
allow-ok true e m a h = (refl, h)
allow-ok false e m a h = cc

pub ok-inj {ℓ κ} :
    {A : Type ℓ} {B : Type κ} (a c : A) (b d : B)
    → ◌≡◌ {A = Result (A × B)} (ok (a, b)) (ok (c, d))
    → (c ≡ a) × (d ≡ b)
ok-inj a c b d h = ground arith

-- A transaction that fails leaves the state as it was.
abbrev pub commit {ℓ κ} : {A : Type ℓ} {S : Type κ} → S → Result (A × S) → Result A × S
commit before (ok (a, after)) = (ok a, after)
commit before (err e) = (err e, before)
commit before out_of_fuel = (out_of_fuel, before)

pub commit-ok {ℓ κ} :
    {A : Type ℓ} {S : Type κ} (before : S) (m : Result (A × S)) (a : A) (after : S)
    → commit before m ≡ (ok a, after)
    → m ≡ ok (a, after)
commit-ok before (ok d) a after h = ground arith
commit-ok before (err e) a after h = ground arith
commit-ok before out_of_fuel a after h = ground arith

-- The call answers: it does not run out of fuel.
pub data Answers {ℓ} {A : Type ℓ} : Result A → Type ℓ where
  answers_ok : (a : A) → Answers (ok a)
  answers_err : (e : StoreError) → Answers (err e)

pub and_then-Answers {ℓ κ} :
    {A : Type ℓ} {B : Type κ} (m : Result A) (f : A → Result B)
    → Answers m
    → ((a : A) → Answers (f a))
    → Answers (and_then m f)
and_then-Answers m f (answers_ok a) k = k a
and_then-Answers m f (answers_err e) k = answers_err e

pub if-Answers {ℓ} :
    {A : Type ℓ} (b : Bool) (m n : Result A) → Answers m → Answers n → Answers (if b then m else n)
if-Answers true m n h k = h
if-Answers false m n h k = k
