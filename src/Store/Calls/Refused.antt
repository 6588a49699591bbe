-- ===== src/Store/Calls/Refused.antt =====
-- Calls.antt: a launched run is not launched again, and a fenced one is given no container.
use ai_engineer_workflow.Prelude.{
  ℕ, String, Bool, true, false, ◌&&◌, List, [], ◌∷◌, ◌≡◌, refl, sym, subst, ◌∙◌, ◌==◌, arith,
  Bool-cases, ◌⊎◌, Option, none, some, inl, inr, Elem, eq_iff,
}
use ai_engineer_workflow.Store.Claim.{TicketClaim}
use ai_engineer_workflow.Store.Errors.{
  Result, ok, err, out_of_fuel, StoreError, err_invalid_claim, commit-ok, ok-inj,
}
use ai_engineer_workflow.Store.Tables.{RunKind, WorkerRun, WorkerAudit, Tables, update, count}
use ai_engineer_workflow.Store.Tables.Rows.{none-count}
use ai_engineer_workflow.Store.Launch.{
  acquire_worker_container_create_fence, acquire_with, acquire_resolved, reserve_worker_launch,
  has_lease, is_complete, is_valid_audit, resolve_run_bound_claim_version, can_create, can_launch,
  with_launch, create_refusal, launch_refusal,
}
use ai_engineer_workflow.Store.Fencing.{
  fence_worker_isolation, fence_each, fenced, can_fence, with_isolation, noted, listed,
}
use ai_engineer_workflow.Store.Calls.{Forward, Kept, Steps}
use ai_engineer_workflow.Store.Calls.Kept.{fenced-Kept, Kept-refl}
use ai_engineer_workflow.Store.Calls.Loops.{Steps-Kept, fence_each-next, fence_each-Kept, Turned}
use ai_engineer_workflow.Store.Calls.Marks.{
  IsKeyed, Marked, IsLaunched, IsFenced, Kept-IsKeyed, Kept-Marked, update-Marked,
}

-- The call answers an error and writes nothing.
abbrev pub Refused {ℓ} : {A : Type ℓ} → Tables → Result A × Tables → Type ℓ
Refused t answer = (e : StoreError) × (answer ≡ (err e, t))

can_launch-run :
    (t : Tables) (kind : RunKind) (c : TicketClaim) (now : ℕ) (r : WorkerRun)
    → can_launch t kind c now r ≡ true
    → r.run_id ≡ c.run_id
can_launch-run t kind c now r h = ground (arith, eq_iff r.run_id c.run_id)

can_create-run :
    (t : Tables) (c : TicketClaim) (now : ℕ) (r : WorkerRun)
    → can_create t c now r ≡ true
    → r.run_id ≡ c.run_id
can_create-run t c now r h = ground (arith, eq_iff r.run_id c.run_id)

launched_can-launch :
    (t : Tables) (kind : RunKind) (c : TicketClaim) (now : ℕ) (r : WorkerRun)
    → IsLaunched r
    → can_launch t kind c now r ≡ false
launched_can-launch t kind c now r h = rw h (ground arith)

fenced_can-launch :
    (t : Tables) (kind : RunKind) (c : TicketClaim) (now : ℕ) (r : WorkerRun)
    → IsFenced r
    → can_launch t kind c now r ≡ false
fenced_can-launch t kind c now r h = rw h (ground arith)

fenced_can-create :
    (t : Tables) (c : TicketClaim) (now : ℕ) (r : WorkerRun)
    → IsFenced r
    → can_create t c now r ≡ false
fenced_can-create t c now r h = rw h (ground arith)

-- An UPDATE under a condition that names one run affects no row when no row of that run meets it.
count-other :
    (p : WorkerRun → Bool) (id : String) (t : Tables)
    → ((r : WorkerRun) → p r ≡ true → r.run_id ≡ id)
    → Marked (λ r. p r ≡ false) id t
    → count p t.runs ≡ 0
count-other p id t names m = none-count p t.runs (λ r k. elim (Bool-cases (p r)) [
  | inl e ↦ absurd (ground (arith, m r k (names r e), e))
  | inr e ↦ e
])

pub launch-Refused :
    (t : Tables) (kind : RunKind) (c : TicketClaim) (audit : WorkerAudit) (now : ℕ)
    → Marked (λ r. can_launch t kind c now r ≡ false) c.run_id t
    → Refused t (reserve_worker_launch t kind c audit now)
unfolding reserve_worker_launch
launch-Refused t kind c audit now m =
    let n : count (can_launch t kind c now) t.runs ≡ 0 =
      count-other (can_launch t kind c now) c.run_id t (can_launch-run t kind c now) m in
    elim (Bool-cases (has_lease c && is_valid_audit c audit)) [
      | inr e ↦ (err_invalid_claim, rw e refl)
      | inl e ↦ (launch_refusal t kind c now, rw (e, n) refl)
    ]

acquire_resolved-Refused :
    (t : Tables) (now : ℕ) (c : TicketClaim)
    → Marked IsFenced c.run_id t
    → Refused t (acquire_resolved t now c)
acquire_resolved-Refused t now c m =
    let n : count (can_create t c now) t.runs ≡ 0 =
      count-other (can_create t c now) c.run_id t (can_create-run t c now)
        (λ r k e. fenced_can-create t c now r (m r k e)) in
    (create_refusal t c now, rw n refl)

resolve-run_id :
    (t : Tables) (c d : TicketClaim)
    → resolve_run_bound_claim_version t c ≡ ok d
    → d.run_id ≡ c.run_id
unfolding resolve_run_bound_claim_version
resolve-run_id t c d h = ground arith

pub create-Refused :
    (t : Tables) (c : TicketClaim) (now : ℕ)
    → Marked IsFenced c.run_id t
    → Refused t (acquire_worker_container_create_fence t c now)
unfolding acquire_worker_container_create_fence
create-Refused t c now m = elim (Bool-cases (is_complete c)) [
  | inr e ↦ (err_invalid_claim, rw e refl)
  | inl e ↦ rw e (resolved (resolve_run_bound_claim_version t c) refl)
]
  where
    resolved :
        (r : Result TicketClaim)
        → resolve_run_bound_claim_version t c ≡ r
        → Refused t (acquire_with t now r)
    resolved (ok d) e =
        acquire_resolved-Refused t now d
          (subst (λ z. Marked IsFenced z t) (sym (resolve-run_id t c d e)) m)
    resolved (err x) e = (x, refl)
    resolved out_of_fuel e = (err_invalid_claim, refl)

launch-writes :
    (t : Tables) (kind : RunKind) (c : TicketClaim) (audit : WorkerAudit) (now : ℕ) (t1 : Tables)
    → reserve_worker_launch t kind c audit now ≡ (ok tt, t1)
    → (count (can_launch t kind c now) t.runs ≡ 1)
      × (t1.runs ≡ update (can_launch t kind c now) with_launch t.runs)
unfolding reserve_worker_launch
launch-writes t kind c audit now t1 h = ground arith

launch-Launched :
    (t : Tables) (kind : RunKind) (c : TicketClaim) (audit : WorkerAudit) (now : ℕ) (t1 : Tables)
    → IsKeyed t
    → reserve_worker_launch t kind c audit now ≡ (ok tt, t1)
    → Marked IsLaunched c.run_id t1
launch-Launched t kind c audit now t1 d h r m e =
    let (n, u) = launch-writes t kind c audit now t1 h in
    update-Marked IsLaunched (can_launch t kind c now) with_launch c.run_id (λ r. refl)
      (can_launch-run t kind c now) t.runs d (λ z. absurd (omega (arith, n, z))) (λ r q k. refl) r
      (subst (λ z. Elem r z) u m) e

fenced-Fenced :
    (t : Tables) (c : TicketClaim)
    → IsKeyed t
    → (count (can_fence t c) t.runs == 1) ≡ true
    → Marked IsFenced c.run_id (fenced t c)
fenced-Fenced t c d n r m e =
    update-Marked IsFenced (can_fence t c) with_isolation c.run_id (λ r. refl)
      (λ r h. ground (arith, eq_iff r.run_id c.run_id)) t.runs d
      (λ z. absurd (ground (arith, n, z))) (λ r q k. refl) r m e

keep-Fenced : (r r' : WorkerRun) → Forward r r' → IsFenced r → IsFenced r'
keep-Fenced r r' w h = w.6 h

keep-Launched : (r r' : WorkerRun) → Forward r r' → IsLaunched r → IsLaunched r'
keep-Launched r r' w h = w.4 h

turn-Kept : (t : Tables) (o : Option TicketClaim) (t1 : Tables) → Turned t o t1 → Kept t t1
turn-Kept t o t1 (inl (_, e)) = rw e (Kept-refl t)
turn-Kept t o t1 (inr (d, _, _, e)) = rw e (fenced-Kept t d)

-- The target that a turn answers is fenced.
turn-Fenced :
    (t : Tables) (o : Option TicketClaim) (t1 : Tables)
    → Turned t o t1
    → IsKeyed t
    → (es : List TicketClaim) → (d : TicketClaim) → Elem d (listed o es)
    → Marked IsFenced d.run_id t1 ⊎ Elem d es
turn-Fenced t none t1 turn k es d m = inr m
turn-Fenced t (some y) t1 (inl (z, _)) k es d m = cc
turn-Fenced t (some y) t1 (inr _) k es d (inr m) = inr m
turn-Fenced t (some y) t1 (inr (x, z, q, e)) k es d (inl u) =
    let same : d.run_id ≡ x.run_id = ground (arith, u, z) in
    inl (
      subst (λ i. Marked IsFenced i t1) (sym same)
        (subst (Marked IsFenced x.run_id) (sym e) (fenced-Fenced t x k q)))

module _ (text_less : String → String → Bool) where
  fence_each-Fenced :
      (cs : List TicketClaim) (t : Tables) (seen : List String) (ds : List TicketClaim)
      (t' : Tables)
      → IsKeyed t
      → fence_each text_less cs t seen ≡ ok (ds, t')
      → (d : TicketClaim) → Elem d ds
      → Marked IsFenced d.run_id t'
  unfolding fence_each
  fence_each-Fenced [] t seen ds t' k h d m =
      elim (subst (λ z. Elem d z) (ok-inj [] ds t t' h).0 m) [ ]
  fence_each-Fenced (c ∷ cs) t seen ds t' k h d m =
      let (o, t1, es, turn, e, f) = fence_each-next text_less c cs t seen ds t' h in
      elim (turn-Fenced t o t1 turn k es d (subst (λ z. Elem d z) e m)) [
        | inl n ↦
            Kept-Marked IsFenced keep-Fenced d.run_id t1 t'
              (fence_each-Kept text_less cs t1 (noted o seen) es t' f) n
        | inr n ↦
            fence_each-Fenced cs t1 (noted o seen) es t'
              (Kept-IsKeyed t t1 (turn-Kept t o t1 turn) k) f d n
      ]

  fence-Fenced :
      (t : Tables) (cs ds : List TicketClaim) (t1 : Tables)
      → IsKeyed t
      → fence_worker_isolation text_less t cs ≡ (ok ds, t1)
      → (d : TicketClaim) → Elem d ds
      → Marked IsFenced d.run_id t1
  unfolding fence_worker_isolation
  fence-Fenced t [] ds t1 k h d m = ground arith
  fence-Fenced t (c ∷ cs) ds t1 k h d m =
      fence_each-Fenced (c ∷ cs) t [] ds t1 k
        (commit-ok t (fence_each text_less (c ∷ cs) t []) ds t1 h) d m

  -- In tables whose run ids are a key: once a call has launched a run, no sequence of further calls
  -- leads to tables where a claim for that run launches it: the launch is refused and writes nothing.
  pub launch-once :
      (t : Tables) (kind : RunKind) (c : TicketClaim) (audit : WorkerAudit) (now : ℕ)
      (t1 t2 : Tables) (kind2 : RunKind) (c2 : TicketClaim) (audit2 : WorkerAudit) (now2 : ℕ)
      → IsKeyed t
      → reserve_worker_launch t kind c audit now ≡ (ok tt, t1)
      → Steps text_less t1 t2
      → c2.run_id ≡ c.run_id
      → Refused t2 (reserve_worker_launch t2 kind2 c2 audit2 now2)
  launch-once t kind c audit now t1 t2 kind2 c2 audit2 now2 k h ss e =
      let m =
        Kept-Marked IsLaunched keep-Launched c.run_id t1 t2 (Steps-Kept text_less t1 t2 ss)
          (launch-Launched t kind c audit now t1 k h) in
      launch-Refused t2 kind2 c2 audit2 now2
        (λ r n q. launched_can-launch t2 kind2 c2 now2 r (m r n (q ∙ e)))

  -- In tables whose run ids are a key: once a run is fenced for isolation, no sequence of further
  -- calls leads to tables where a claim for that run reserves a container or a launch: both calls
  -- are refused and write nothing.
  pub fenced-no_container :
      (t : Tables) (cs ds : List TicketClaim) (t1 t2 : Tables) (d c : TicketClaim) (kind : RunKind)
      (audit : WorkerAudit) (now : ℕ)
      → IsKeyed t
      → fence_worker_isolation text_less t cs ≡ (ok ds, t1)
      → Elem d ds
      → Steps text_less t1 t2
      → c.run_id ≡ d.run_id
      → Refused t2 (acquire_worker_container_create_fence t2 c now)
        × Refused t2 (reserve_worker_launch t2 kind c audit now)
  fenced-no_container t cs ds t1 t2 d c kind audit now k h n ss e =
      let m =
        Kept-Marked IsFenced keep-Fenced d.run_id t1 t2 (Steps-Kept text_less t1 t2 ss)
          (fence-Fenced t cs ds t1 k h d n) in
      let m' = subst (λ i. Marked IsFenced i t2) (sym e) m in
      (
        create-Refused t2 c now m',
        launch-Refused t2 kind c audit now (λ r n q. fenced_can-launch t2 kind c now r (m' r n q)),
      )
