-- ===== src/Isolation.antt =====
-- internal/isolation/coordinator.go: fencing, stopping and acknowledging Workers, and the retry of
-- a store transition that first needs some Workers isolated. The store, the container runtime, the
-- clock and the context are an environment over a type of worlds: each call returns its result
-- with the world after it. Timeouts of single calls are results of those calls.
pub mod Runs
mod Tests
use ai_engineer_workflow.Prelude.{
  ℕ, zero, suc, ◌+◌, ◌-◌, Bool, true, false, Option, none, some, List, [], ◌∷◌, ◌++◌, ◌==◌,
  if◌then◌else◌,
}
use ai_engineer_workflow.Store.Claim.{TicketClaim, WorkerIsolationProof}

abbrev pub default_transition_attempts : ℕ
default_transition_attempts = 5

-- What an external call returns.
pub data Reply (E A : Type 0) : Type 0 where
  ok : A → Reply E A
  err : E → Reply E A

pub data IsolationError (E : Type 0) : Type 0 where
  dependencies_incomplete : IsolationError E
  fence_failed isolate_failed acknowledge_failed : E → IsolationError E

-- The error of a transition: a demand for isolation (`*store.WorkerIsolationRequired`), or another.
pub data Demand (E : Type 0) : Type 0 where
  required : List TicketClaim → Demand E
  other : E → Demand E

pub record Environment (W E : Type 0) : Type 0 where
  pub connected : Bool
  pub fence : List TicketClaim → W → Reply E (List TicketClaim) × W
  pub isolate : TicketClaim → W → Option E × W
  pub acknowledge : List TicketClaim → W → Reply E (List WorkerIsolationProof) × W
  pub is_fencing_conflict : E → Bool
  -- the wait after the given attempt: whether the context ended
  pub wait : ℕ → W → Bool × W

-- What `RetryWorkerTransition` returns. The joined errors are kept apart.
pub data Outcome (E : Type 0) : Type 0 where
  transition_required : Outcome E
  succeeded : Outcome E
  failed : E → Outcome E
  isolation_failed : IsolationError E → Outcome E
  limit_reached : Option (IsolationError E) → Outcome E
  cancelled : Option (IsolationError E) → Outcome E

-- `if err != nil { return err }` in a loop over external calls
abbrev pub go_on : {W E : Type 0} → Option E × W → (W → Option E × W) → Option E × W
go_on (some e, w) k = (some e, w)
go_on (none, w) k = k w

abbrev pub wrap : {E F A : Type 0} → (E → F) → Reply E A → Reply F A
wrap f (ok a) = ok a
wrap f (err e) = err (f e)

abbrev pub Isolated : Type 0 → Type 0
Isolated E = Reply (IsolationError E) (List WorkerIsolationProof)

module _ {W E : Type 0} (env : Environment W E) where
  open env use {connected, fence, isolate, acknowledge, is_fencing_conflict, wait}

  -- `for _, target := range fenced`: the first error ends the loop
  unfoldable pub isolate_each : List TicketClaim → W → Option E × W
  isolate_each [] w = (none, w)
  isolate_each (target ∷ rest) w = go_on (isolate target w) (isolate_each rest)

  -- from the loop on
  unfoldable pub after_isolation : List TicketClaim → Option E × W → Isolated E × W
  after_isolation fenced (some e, w) = (err (isolate_failed e), w)
  after_isolation fenced (none, w) =
      let (reply, w') = acknowledge fenced w in (wrap acknowledge_failed reply, w')

  unfoldable pub after_fence : Reply E (List TicketClaim) × W → Isolated E × W
  unfolding isolate_each after_isolation
  after_fence (err e, w) = (err (fence_failed e), w)
  after_fence (ok fenced, w) = after_isolation fenced (isolate_each fenced w)

  unfoldable pub isolate_workers : List TicketClaim → W → Isolated E × W
  isolate_workers targets w =
      if connected then after_fence (fence targets w) else (err dependencies_incomplete, w)

  -- `errors.Is(isolationErr, store.ErrFencingConflict)`, through the wrapped error
  unfoldable pub is_conflict : IsolationError E → Bool
  is_conflict dependencies_incomplete = false
  is_conflict (fence_failed e) = is_fencing_conflict e
  is_conflict (isolate_failed e) = is_fencing_conflict e
  is_conflict (acknowledge_failed e) = is_fencing_conflict e

  -- One turn of the loop, from the transition's reply on: the outcome, or the proofs to go on with
  -- and the conflict that was met, if any.
  pub data Turn : Type 0 where
    stop : Outcome E → W → Turn
    again : List WorkerIsolationProof → Option (IsolationError E) → W → Turn

  unfoldable pub after_isolating : List WorkerIsolationProof → Isolated E × W → Turn
  unfolding is_conflict
  after_isolating isolated (ok proofs, w) = again (isolated ++ proofs) none w
  after_isolating isolated (err e, w) =
      if is_conflict e then again isolated (some e) w else stop (isolation_failed e) w

  unfoldable pub after_transition : List WorkerIsolationProof → Option (Demand E) × W → Turn
  unfolding after_isolating
  after_transition isolated (none, w) = stop succeeded w
  after_transition isolated (some (other e), w) = stop (failed e) w
  after_transition isolated (some (required targets), w) =
      after_isolating isolated (isolate_workers targets w)

  abbrev pub Transition : Type 0
  Transition = List WorkerIsolationProof → W → Option (Demand E) × W

  -- `select` over the context and the timer
  unfoldable pub after_wait :
      Option (IsolationError E) → Bool × W → (W → Outcome E × W) → Outcome E × W
  after_wait conflict (true, w) next = (cancelled conflict, w)
  after_wait conflict (false, w) next = next w

  -- The end of a turn, with the attempts that are left after it.
  unfoldable pub after_turn :
      ℕ → Turn → (List WorkerIsolationProof → W → Outcome E × W) → Outcome E × W
  unfolding after_wait
  after_turn left (stop outcome w) next = (outcome, w)
  after_turn zero (again isolated conflict w) next = (limit_reached conflict, w)
  after_turn (suc left) (again isolated conflict w) next =
      after_wait conflict (wait (default_transition_attempts - suc (suc left)) w) (next isolated)

  -- The loop; the first argument counts the attempts that are left.
  unfoldable pub attempts : ℕ → Transition → List WorkerIsolationProof → W → Outcome E × W
  attempts zero transition isolated w = (limit_reached none, w)
  attempts (suc left) transition isolated w =
      after_turn left (after_transition isolated (transition isolated w)) (attempts left transition)

  unfoldable pub retry_worker_transition : Option Transition → W → Outcome E × W
  unfolding attempts
  retry_worker_transition none w = (transition_required, w)
  retry_worker_transition (some transition) w = attempts default_transition_attempts transition [] w
