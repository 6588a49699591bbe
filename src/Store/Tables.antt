-- ===== src/Store/Tables.antt =====
-- The tables of internal/store/sqlite.go that hold Ticket Sessions, Worker Runs and Run Leases, and
-- the queries that the transactions share. A table is a list of rows; a call of the database driver
-- succeeds. A column that holds only the time of a write is left out; a NULL run id is "".
pub mod Rows
use ai_engineer_workflow.Prelude.{
  ℕ, ◌+◌, String, Bool, true, false, ◌&&◌, Option, none, some, List, [], ◌∷◌, ◌++◌, map, ◌==◌, ltb,
  str_eq, if◌then◌else◌, keep,
}

pub data RunKind : Type 0 where
  agent delivery_controller : RunKind

pub data RunState : Type 0 where
  running succeeded failed superseded cancelled : RunState

pub data LaunchState : Type 0 where
  ready launched : LaunchState

pub data LeaseState : Type 0 where
  active expired revoked : LeaseState

pub data SessionState : Type 0 where
  session_running closed : SessionState

-- `worker_runs`; the negative attempt of a delivery run is 0, which no maximum sees.
pub record WorkerRun : Type 0 where
  pub run_id : String
  pub session_id : String
  pub attempt : ℕ
  pub recovery_epoch : ℕ
  pub lease_generation : ℕ
  pub run_kind : RunKind
  pub state : RunState
  pub launch_state : LaunchState
  pub prelaunch_reserved : Bool
  pub container_create_generation : ℕ
  pub container_create_pending : Bool
  pub isolation_pending : Bool

-- `run_leases`
pub record RunLease : Type 0 where
  pub lease_token : String
  pub run_id : String
  pub session_id : String
  pub generation : ℕ
  pub state : LeaseState
  pub expires_at : ℕ

-- `ticket_sessions`
pub record Session : Type 0 where
  pub session_id : String
  pub version_id : String
  pub issue_id : ℕ
  pub owner : String
  pub state : SessionState
  pub current_run_id : String
  pub current_lease_generation : ℕ
  pub recovery_epoch : ℕ
  pub delivery_retry_pending : Bool
  pub consecutive_failures : ℕ
  pub workspace_path : String
  pub codex_state_path : String
  pub accepted_commit : String

-- `delivery_write_fences`
pub record WriteFence : Type 0 where
  pub run_id : String
  pub lease_generation : ℕ

-- `worker_audits`; the columns of the mounts and hosts are left out
pub record WorkerAudit : Type 0 where
  pub run_id : String
  pub lease_generation : ℕ
  pub container_id : String
  pub image_digest : String
  pub tool_versions : List (String × String)
  pub github_write_credentials : Bool

pub record Tables : Type 0 where
  pub sessions : List Session
  pub runs : List WorkerRun
  pub leases : List RunLease
  pub write_fences : List WriteFence
  pub audits : List WorkerAudit

abbrev pub is_running : RunState → Bool
is_running running = true
is_running _ = false

abbrev pub is_ready_to_launch : LaunchState → Bool
is_ready_to_launch ready = true
is_ready_to_launch launched = false

abbrev pub is_active : LeaseState → Bool
is_active active = true
is_active _ = false

abbrev pub is_open : SessionState → Bool
is_open session_running = true
is_open closed = false

abbrev pub same_kind : RunKind → RunKind → Bool
same_kind agent agent = true
same_kind delivery_controller delivery_controller = true
same_kind _ _ = false

module _ {A : Type 0} where
  -- `UPDATE … WHERE p`, and the number of rows that it affects
  abbrev pub update : (A → Bool) → (A → A) → List A → List A
  update p f [] = []
  update p f (x ∷ xs) = (if p x then f x else x) ∷ update p f xs

  abbrev pub count : (A → Bool) → List A → ℕ
  count p [] = 0
  count p (x ∷ xs) = (if p x then 1 else 0) + count p xs

  -- `SELECT … LIMIT 1`
  abbrev pub first : (A → Bool) → List A → Option A
  first p [] = none
  first p (x ∷ xs) = if p x then some x else first p xs

  -- `SELECT EXISTS`
  abbrev pub exists : (A → Bool) → List A → Bool
  exists p [] = false
  exists p (x ∷ xs) = if p x then true else exists p xs

-- `run_leases l ON l.run_id = r.run_id AND l.generation = r.lease_generation`
abbrev pub is_lease_of : WorkerRun → RunLease → Bool
is_lease_of r l = str_eq l.run_id r.run_id && l.generation == r.lease_generation

abbrev pub leases_of : List RunLease → WorkerRun → List RunLease
leases_of ls r = keep (is_lease_of r) ls

-- A session with its current run and a lease of that.
pub record Current : Type 0 where
  pub session : Session
  pub run : WorkerRun
  pub lease : RunLease

abbrev pub with_leases : Session → WorkerRun → List RunLease → List Current
with_leases s r ls = map (λ l. record { session = s; run = r; lease = l }) (leases_of ls r)

abbrev pub with_runs : Session → List WorkerRun → List RunLease → List Current
with_runs s [] ls = []
with_runs s (r ∷ rs) ls =
    let rest = with_runs s rs ls in
    if str_eq r.run_id s.current_run_id then with_leases s r ls ++ rest else rest

-- The rows of `ticket_sessions`, `worker_runs` on the current run, and `run_leases`.
unfoldable pub joined : List Session → List WorkerRun → List RunLease → List Current
joined [] rs ls = []
joined (s ∷ ss) rs ls = with_runs s rs ls ++ joined ss rs ls

abbrev pub current : Tables → List Current
current t = joined t.sessions t.runs t.leases

-- whether a lease is active and lasts beyond a moment
abbrev pub is_live : ℕ → RunLease → Bool
is_live now l = is_active l.state && ltb now l.expires_at

-- `activeRunCountTx`
unfoldable pub active_run_count : ℕ → List WorkerRun → List RunLease → ℕ
active_run_count now [] ls = 0
active_run_count now (r ∷ rs) ls =
    (if is_running r.state then count (λ l. is_lease_of r l && is_live now l) ls else 0)
    + active_run_count now rs ls
