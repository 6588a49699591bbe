-- ===== src/Isolation/Runs.antt =====
-- What a run of `RetryWorkerTransition` is: rounds of isolation, and how it ends.
use ai_engineer_workflow.Prelude.{
  ℕ, zero, suc, ◌+◌, ◌-◌, ◌<◌, Bool, true, false, ◌≡◌, refl, ap, subst, inl, inr, Option, none,
  some, List, [], ◌∷◌, ◌++◌, arith, Bool-cases,
}
use ai_engineer_workflow.Store.Claim.{TicketClaim, WorkerIsolationProof}
use ai_engineer_workflow.Isolation.{
  Environment, Reply, ok, err, IsolationError, acknowledge_failed, Demand, required, other, Outcome,
  succeeded, failed, isolation_failed, limit_reached, cancelled, go_on, wrap, Isolated,
  isolate_each, after_isolation, after_fence, isolate_workers, is_conflict, Turn, stop, again,
  after_isolating, after_transition, after_wait, after_turn, Transition, attempts,
  retry_worker_transition, default_transition_attempts,
}

module _ {W E : Type 0} (env : Environment W E) where
  -- The containers of all targets were stopped, one after the other.
  pub data Stopped : List TicketClaim → W → W → Type 0 where
    none_left : {w : W} → Stopped [] w w
    stopped :
        {t : TicketClaim} {ts : List TicketClaim} {w w' w'' : W}
        → env.isolate t w ≡ (none, w')
        → Stopped ts w' w''
        → Stopped (t ∷ ts) w w''

  -- The targets were fenced, the fenced Workers were stopped, and exactly those were acknowledged.
  pub data Proved (targets : List TicketClaim) (w : W) (proofs : List WorkerIsolationProof) (w' : W)
      : Type 0 where
    proved :
        {fenced : List TicketClaim} {w1 w2 : W}
        → env.connected ≡ true
        → env.fence targets w ≡ (ok fenced, w1)
        → Stopped fenced w1 w2
        → env.acknowledge fenced w2 ≡ (ok proofs, w')
        → Proved targets w proofs w'

  isolate_each-Stopped :
      (ts : List TicketClaim) (w w' : W) → isolate_each env ts w ≡ (none, w') → Stopped ts w w'
  unfolding isolate_each
  isolate_each-Stopped [] w w' e = subst (Stopped [] w) (ap (λ (p : Option E × W). p.1) e) none_left
  isolate_each-Stopped (t ∷ ts) w w' e = by_reply (env.isolate t w) refl e (isolate_each-Stopped ts)
    where
      by_reply :
          (r : Option E × W)
          → env.isolate t w ≡ r
          → go_on r (isolate_each env ts) ≡ (none, w')
          → ((w1 w2 : W) → isolate_each env ts w1 ≡ (none, w2) → Stopped ts w1 w2)
          → Stopped (t ∷ ts) w w'
      by_reply (some x, w1) known h rest = absurd (cc (ap (λ (p : Option E × W). p.0) h))
      by_reply (none, w1) known h rest = stopped known (rest w1 w' h)

  -- What `IsolateWorkers` returns: proofs of Workers that were fenced and stopped.
  abbrev pub IsolateOutcome : List TicketClaim → W → Isolated E × W → Type 0
  IsolateOutcome targets w (ok proofs, w') = Proved targets w proofs w'
  IsolateOutcome targets w (err e, w') = Unit

  module _ (targets : List TicketClaim) (w : W) (on : env.connected ≡ true) where
    by_acknowledge :
        (fenced : List TicketClaim) (w1 w2 : W)
        → env.fence targets w ≡ (ok fenced, w1)
        → Stopped fenced w1 w2
        → (r : Reply E (List WorkerIsolationProof) × W) → env.acknowledge fenced w2 ≡ r
        → IsolateOutcome targets w (wrap acknowledge_failed r.0, r.1)
    by_acknowledge fenced w1 w2 f s (ok proofs, w') known = proved on f s known
    by_acknowledge fenced w1 w2 f s (err e, w') known = tt

    by_stops :
        (fenced : List TicketClaim) (w1 : W)
        → env.fence targets w ≡ (ok fenced, w1)
        → (r : Option E × W) → isolate_each env fenced w1 ≡ r
        → IsolateOutcome targets w (after_isolation env fenced r)
    unfolding after_isolation
    by_stops fenced w1 f (some e, w2) known = tt
    by_stops fenced w1 f (none, w2) known =
        by_acknowledge fenced w1 w2 f (isolate_each-Stopped fenced w1 w2 known)
          (env.acknowledge fenced w2) refl

    by_fence :
        (r : Reply E (List TicketClaim) × W)
        → env.fence targets w ≡ r
        → IsolateOutcome targets w (after_fence env r)
    unfolding after_fence
    by_fence (err e, w1) known = tt
    by_fence (ok fenced, w1) known = by_stops fenced w1 known (isolate_each env fenced w1) refl

  isolate_workers-IsolateOutcome :
      (targets : List TicketClaim) (w : W)
      → IsolateOutcome targets w (isolate_workers env targets w)
  unfolding isolate_workers
  isolate_workers-IsolateOutcome targets w = elim (Bool-cases env.connected) [
    | inl on ↦ simp on (by_fence targets w on (env.fence targets w) refl)
    | inr off ↦ simp off tt
  ]

  -- Whenever `IsolateWorkers` returns proofs, the targets were fenced, the containers of all fenced
  -- Workers were stopped in order, and the proofs are the acknowledgement of exactly those.
  pub isolate_workers-Proved :
      (targets : List TicketClaim) (w : W) (proofs : List WorkerIsolationProof) (w' : W)
      → isolate_workers env targets w ≡ (ok proofs, w')
      → Proved targets w proofs w'
  isolate_workers-Proved targets w proofs w' h =
      subst (IsolateOutcome targets w) h (isolate_workers-IsolateOutcome targets w)

  module _ (transition : Transition env) where
    -- One round: the transition demanded targets, and these were isolated, or fencing conflicted.
    pub data Round (isolated : List WorkerIsolationProof) (w : W)
        : List WorkerIsolationProof → Option (IsolationError E) → W → Type 0 where
      acknowledged :
          {targets : List TicketClaim} {proofs isolated' : List WorkerIsolationProof}
          {c : Option (IsolationError E)} {w1 w' : W}
          → transition isolated w ≡ (some (required targets), w1)
          → Proved targets w1 proofs w'
          → isolated' ≡ isolated ++ proofs
          → c ≡ none
          → Round isolated w isolated' c w'
      conflicted :
          {targets : List TicketClaim} {isolated' : List WorkerIsolationProof}
          {c : Option (IsolationError E)} {e : IsolationError E} {w1 w' : W}
          → transition isolated w ≡ (some (required targets), w1)
          → isolate_workers env targets w1 ≡ (err e, w')
          → is_conflict env e ≡ true
          → isolated' ≡ isolated
          → c ≡ some e
          → Round isolated w isolated' c w'

    -- After `n` rounds, each followed by a wait, these proofs are gathered.
    pub data Gathered (start : W) : ℕ → List WorkerIsolationProof → W → Type 0 where
      at_start :
          {n : ℕ} {ps : List WorkerIsolationProof} → n ≡ 0 → ps ≡ [] → Gathered start n ps start
      after_round :
          {n m : ℕ} {ps ps' : List WorkerIsolationProof} {c : Option (IsolationError E)}
          {w w' w'' : W}
          → Gathered start n ps w
          → Round ps w ps' c w'
          → env.wait n w' ≡ (false, w'')
          → m ≡ suc n
          → Gathered start m ps' w''

    -- How attempt `n` (from 0) ends the run.
    pub data Final (n : ℕ) (ps : List WorkerIsolationProof) (w : W) : Outcome E → W → Type 0 where
      success : {w' : W} → transition ps w ≡ (none, w') → Final n ps w succeeded w'
      failure :
          {e : E} {w' : W} → transition ps w ≡ (some (other e), w') → Final n ps w (failed e) w'
      unisolated :
          {targets : List TicketClaim} {e : IsolationError E} {w1 w' : W}
          → transition ps w ≡ (some (required targets), w1)
          → isolate_workers env targets w1 ≡ (err e, w')
          → is_conflict env e ≡ false
          → Final n ps w (isolation_failed e) w'
      exhausted :
          {ps' : List WorkerIsolationProof} {c : Option (IsolationError E)} {w' : W}
          → suc n ≡ default_transition_attempts
          → Round ps w ps' c w'
          → Final n ps w (limit_reached c) w'
      ended :
          {ps' : List WorkerIsolationProof} {c : Option (IsolationError E)} {w1 w' : W}
          → Round ps w ps' c w1
          → env.wait n w1 ≡ (true, w')
          → Final n ps w (cancelled c) w'

    -- A whole run: at most four rounds, and an end.
    pub record Run (start : W) (o : Outcome E) (w' : W) : Type 0 where
      pub rounds : ℕ
      pub proofs : List WorkerIsolationProof
      pub last : W
      pub few : rounds < default_transition_attempts
      pub gathered : Gathered start rounds proofs last
      pub final : Final rounds proofs last o w'

    abbrev TurnOf : List WorkerIsolationProof → W → Turn env → Type 0
    TurnOf ps w (stop o w') = (n : ℕ) → Final n ps w o w'
    TurnOf ps w (again ps' c w') = Round ps w ps' c w'

    by_isolation :
        (ps : List WorkerIsolationProof) (w w1 : W) (targets : List TicketClaim)
        → transition ps w ≡ (some (required targets), w1)
        → (r : Isolated E × W) → isolate_workers env targets w1 ≡ r
        → TurnOf ps w (after_isolating env ps r)
    unfolding after_isolating
    by_isolation ps w w1 targets t (ok proofs, w') known =
        acknowledged t (isolate_workers-Proved targets w1 proofs w' known) refl refl
    by_isolation ps w w1 targets t (err e, w') known = elim (Bool-cases (is_conflict env e)) [
      | inl yes' ↦ rw yes' (conflicted t known yes' refl refl)
      | inr no' ↦ rw no' (λ n. unisolated t known no')
    ]

    by_transition :
        (ps : List WorkerIsolationProof) (w : W) (r : Option (Demand E) × W)
        → transition ps w ≡ r
        → TurnOf ps w (after_transition env ps r)
    unfolding after_transition
    by_transition ps w (none, w1) known = λ n. success known
    by_transition ps w (some (other e), w1) known = λ n. failure known
    by_transition ps w (some (required targets), w1) known =
        by_isolation ps w w1 targets known (isolate_workers env targets w1) refl

    abbrev RunOf : W → Outcome E × W → Type 0
    RunOf start (o, w') = Run start o w'

    by_turn :
        (left n : ℕ) (start : W) (ps : List WorkerIsolationProof) (w : W)
        → n + suc left ≡ default_transition_attempts
        → Gathered start n ps w
        → (t : Turn env) → TurnOf ps w t
        → ((ps' : List WorkerIsolationProof) (w' : W)
            → suc n + left ≡ default_transition_attempts
            → Gathered start (suc n) ps' w'
            → 0 < left
            → RunOf start (attempts env left transition ps' w'))
        → RunOf start (after_turn env left t (attempts env left transition))
    unfolding after_turn
    by_turn left n start ps w count g (stop o w') final rest = record {
      rounds = n;
      proofs = ps;
      last = w;
      few = omega arith;
      gathered = g;
      final = final n;
    }
    by_turn zero n start ps w count g (again ps' c w') round rest = record {
      rounds = n;
      proofs = ps;
      last = w;
      few = omega arith;
      gathered = g;
      final = exhausted (omega arith) round;
    }
    by_turn (suc left) n start ps w count g (again ps' c w') round rest =
        by_wait (env.wait (default_transition_attempts - suc (suc left)) w') refl
      where
        attempt : default_transition_attempts - suc (suc left) ≡ n
        attempt = omega arith

        by_wait :
            (r : Bool × W)
            → env.wait (default_transition_attempts - suc (suc left)) w' ≡ r
            → RunOf start (after_wait env c r (attempts env (suc left) transition ps'))
        by_wait (true, w'') known = record {
          rounds = n;
          proofs = ps;
          last = w;
          few = omega arith;
          gathered = g;
          final = ended round (subst (λ k. env.wait k w' ≡ (true, w'')) attempt known);
        }
        by_wait (false, w'') known =
            rest ps' w'' (omega arith)
              (after_round g round (subst (λ k. env.wait k w' ≡ (false, w'')) attempt known) refl)
              (omega arith)

    attempts-Run :
        (left n : ℕ) (start : W) (ps : List WorkerIsolationProof) (w : W)
        → n + left ≡ default_transition_attempts
        → 0 < left
        → Gathered start n ps w
        → RunOf start (attempts env left transition ps w)
    unfolding attempts
    attempts-Run zero n start ps w count some_left g = absurd (omega arith)
    attempts-Run (suc left) n start ps w count some_left g =
        by_turn left n start ps w count g (after_transition env ps (transition ps w))
          (by_transition ps w (transition ps w) refl)
          (λ ps' w' count' g' more. attempts-Run left (suc n) start ps' w' count' more g')

    -- Every call of `RetryWorkerTransition` is such a run: at most four rounds, in each of which
    -- the transition demanded targets that were then isolated or met a fencing conflict, with all
    -- proofs gathered on the way handed to the next attempt, and one of five ends.
    pub retry_worker_transition-Run :
        (start : W)
        → Run start
            (retry_worker_transition env (some transition) start).0
            (retry_worker_transition env (some transition) start).1
    unfolding retry_worker_transition
    retry_worker_transition-Run start =
        attempts-Run default_transition_attempts 0 start [] start refl (omega arith)
          (at_start refl refl)
