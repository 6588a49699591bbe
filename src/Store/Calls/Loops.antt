-- ===== src/Store/Calls/Loops.antt =====
-- Calls.antt: the loops of the fence and the acknowledgement, turn by turn, and any sequence of calls.
use ai_engineer_workflow.Prelude.{
  if◌then◌else◌, String, Bool, true, false, List, [], ◌∷◌, ◌≡◌, refl, sym, ap, subst, ◌∙◌, arith,
  not, ◌==◌, Option, none, some, ◌⊎◌, inl, inr,
}
use ai_engineer_workflow.Store.Claim.{TicketClaim, WorkerIsolationProof}
use ai_engineer_workflow.Store.Errors.{
  Result, ok, err, out_of_fuel, err_invalid_claim, and_then, and_then-ok, guard-ok, allow-ok,
  ok-inj, err_fencing_conflict, commit,
}
use ai_engineer_workflow.Store.Tables.{Tables, count}
use ai_engineer_workflow.Store.Fencing.{
  fence_worker_isolation, acknowledge_worker_isolation, fence_turn, acknowledge_turn, fence_each,
  acknowledge_each, fence_target, target_for, fenced, acknowledged, noted, listed, can_fence,
  can_acknowledge, is_complete_target, has_text,
}
use ai_engineer_workflow.Store.Calls.{
  Kept, Step, prelaunch, create, release, launch, fence, acknowledge, Steps, done, next,
}
use ai_engineer_workflow.Store.Calls.Kept.{
  Kept-refl, Kept-trans, prelaunch-Kept, create-Kept, release-Kept, launch-Kept, fenced-Kept,
  acknowledged-Kept,
}

pub fence_target-ok :
    (t : Tables) (c : TicketClaim) (t1 : Tables)
    → fence_target t c ≡ ok t1
    → ((count (can_fence t c) t.runs == 1) ≡ true) × (t1 ≡ fenced t c)
unfolding fence_target
fence_target-ok t c t1 h = ground arith

abbrev pub Turned : Tables → Option TicketClaim → Tables → Type 0
Turned t o t1 =
    ((o ≡ none) × (t1 ≡ t))
    ⊎ ((d : TicketClaim) × (o ≡ some d)
        × ((count (can_fence t d) t.runs == 1) ≡ true)
        × (t1 ≡ fenced t d))

turn-ok :
    (t : Tables) (d : TicketClaim) (b : Bool) (o : Option TicketClaim) (t1 : Tables)
    → if◌then◌else◌ {A = Result (Option TicketClaim × Tables)} b
        (ok (none, t))
        (and_then (fence_target t d) (λ t1. ok (some d, t1)))
      ≡ ok (o, t1)
    → Turned t o t1
turn-ok t d true o t1 h = inl (ok-inj none o t t1 h)
turn-ok t d false o t1 h =
    let (t2, e, k) = and_then-ok (fence_target t d) (λ t1. ok (some d, t1)) (o, t1) h in
    let (n, u) = fence_target-ok t d t2 e in
    let (v, w) = ok-inj (some d) o t2 t1 k in inr (d, v, n, w ∙ u)

commit-Kept {ℓ} :
    {A : Type ℓ} (t : Tables) (m : Result (A × Tables))
    → ((a : A) (t' : Tables) → m ≡ ok (a, t') → Kept t t')
    → Kept t (commit t m).1
commit-Kept t (ok (a, t')) h = h a t' refl
commit-Kept t (err e) h = Kept-refl t
commit-Kept t out_of_fuel h = Kept-refl t

module _ (text_less : String → String → Bool) where
  fence_turn-ok :
      (t : Tables) (seen : List String) (c : TicketClaim) (o : Option TicketClaim) (t1 : Tables)
      → fence_turn text_less t seen c ≡ ok (o, t1)
      → Turned t o t1
  unfolding fence_turn
  fence_turn-ok t seen c o t1 h =
      let (_, h1) = guard-ok (not (is_complete_target c)) err_invalid_claim _ (o, t1) h in
      let (d, e, h2) = and_then-ok (target_for text_less t c) _ (o, t1) h1 in
      turn-ok t d (has_text d.run_id seen) o t1 h2

  -- The loop, one turn and the rest.
  pub fence_each-next :
      (c : TicketClaim) (cs : List TicketClaim) (t : Tables) (seen : List String)
      (ds : List TicketClaim) (t' : Tables)
      → fence_each text_less (c ∷ cs) t seen ≡ ok (ds, t')
      → (o : Option TicketClaim) × (t1 : Tables) × (es : List TicketClaim) × Turned t o t1
        × (ds ≡ listed o es)
        × (fence_each text_less cs t1 (noted o seen) ≡ ok (es, t'))
  unfolding fence_each
  fence_each-next c cs t seen ds t' h =
      let ((o, t1), e, h1) = and_then-ok (fence_turn text_less t seen c) _ (ds, t') h in
      let ((es, t2), f, h2) =
        and_then-ok (fence_each text_less cs t1 (noted o seen)) _ (ds, t') h1 in
      let (u, v) = ok-inj (listed o es) ds t2 t' h2 in
      (
        o,
        t1,
        es,
        fence_turn-ok t seen c o t1 e,
        u,
        subst (λ x. fence_each text_less cs t1 (noted o seen) ≡ ok (es, x)) (sym v) f,
      )

  acknowledge_turn-ok :
      (t : Tables) (c d : TicketClaim) (t1 : Tables)
      → acknowledge_turn text_less t c ≡ ok (d, t1)
      → (target_for text_less t c ≡ ok d)
        × ((count (can_acknowledge d) t.runs == 1) ≡ true)
        × (t1 ≡ acknowledged t d)
  unfolding acknowledge_turn
  acknowledge_turn-ok t c d t1 e =
      let (target, g, e1) = and_then-ok (target_for text_less t c) _ (d, t1) e in
      let (n, e2) =
        allow-ok (count (can_acknowledge target) t.runs == 1) err_fencing_conflict _ (d, t1) e1 in
      let (u, v) = ok-inj target d (acknowledged t target) t1 e2 in
      (
        subst (λ z. target_for text_less t c ≡ ok z) (sym u) g,
        subst (λ z. (count (can_acknowledge z) t.runs == 1) ≡ true) (sym u) n,
        v ∙ ap (acknowledged t) (sym u),
      )

  -- The loop of the acknowledgement, one turn and the rest.
  pub acknowledge_each-next :
      (c : TicketClaim) (cs : List TicketClaim) (t : Tables) (ps : List WorkerIsolationProof)
      (t' : Tables)
      → acknowledge_each text_less (c ∷ cs) t ≡ ok (ps, t')
      → (d : TicketClaim) × (qs : List WorkerIsolationProof) × (target_for text_less t c ≡ ok d)
        × ((count (can_acknowledge d) t.runs == 1) ≡ true)
        × (ps ≡ record { target = d } ∷ qs)
        × (acknowledge_each text_less cs (acknowledged t d) ≡ ok (qs, t'))
  unfolding acknowledge_each
  acknowledge_each-next c cs t ps t' h =
      let ((d, t1), e, h1) = and_then-ok (acknowledge_turn text_less t c) _ (ps, t') h in
      let (g, n, v) = acknowledge_turn-ok t c d t1 e in
      let ((qs, t2), f, h2) = and_then-ok (acknowledge_each text_less cs t1) _ (ps, t') h1 in
      let (w, z) = ok-inj (record { target = d } ∷ qs) ps t2 t' h2 in
      (
        d,
        qs,
        g,
        n,
        w,
        subst (λ x. acknowledge_each text_less cs x ≡ ok (qs, t')) v
            (subst (λ x. acknowledge_each text_less cs t1 ≡ ok (qs, x)) (sym z) f),
      )

  pub fence_each-Kept :
      (cs : List TicketClaim) (t : Tables) (seen : List String) (ds : List TicketClaim)
      (t' : Tables)
      → fence_each text_less cs t seen ≡ ok (ds, t')
      → Kept t t'
  unfolding fence_each
  fence_each-Kept [] t seen ds t' h = rw (ok-inj [] ds t t' h).1 (Kept-refl t)
  fence_each-Kept (c ∷ cs) t seen ds t' h =
      let (o, t1, es, turn, e, f) = fence_each-next c cs t seen ds t' h in
      Kept-trans t t1 t' (turned turn) (fence_each-Kept cs t1 (noted o seen) es t' f)
    where
      turned : {o : Option TicketClaim} {t1 : Tables} → Turned t o t1 → Kept t t1
      turned (inl (_, e)) = rw e (Kept-refl t)
      turned (inr (d, _, _, e)) = rw e (fenced-Kept t d)

  pub acknowledge_each-Kept :
      (cs : List TicketClaim) (t : Tables) (ps : List WorkerIsolationProof) (t' : Tables)
      → acknowledge_each text_less cs t ≡ ok (ps, t')
      → Kept t t'
  unfolding acknowledge_each
  acknowledge_each-Kept [] t ps t' h = rw (ok-inj [] ps t t' h).1 (Kept-refl t)
  acknowledge_each-Kept (c ∷ cs) t ps t' h =
      let (d, qs, _, _, _, f) = acknowledge_each-next c cs t ps t' h in
      Kept-trans t (acknowledged t d) t' (acknowledged-Kept t d)
        (acknowledge_each-Kept cs (acknowledged t d) qs t' f)

  fence-Kept :
      (t : Tables) (cs : List TicketClaim) → Kept t (fence_worker_isolation text_less t cs).1
  unfolding fence_worker_isolation
  fence-Kept t [] = Kept-refl t
  fence-Kept t (c ∷ cs) =
      commit-Kept t (fence_each text_less (c ∷ cs) t [])
        (λ ds t' e. fence_each-Kept (c ∷ cs) t [] ds t' e)

  acknowledge-Kept :
      (t : Tables) (cs : List TicketClaim) → Kept t (acknowledge_worker_isolation text_less t cs).1
  unfolding acknowledge_worker_isolation
  acknowledge-Kept t [] = Kept-refl t
  acknowledge-Kept t (c ∷ cs) =
      commit-Kept t (acknowledge_each text_less (c ∷ cs) t)
        (λ ps t' e. acknowledge_each-Kept (c ∷ cs) t ps t' e)

  Step-Kept : (t t' : Tables) → Step text_less t t' → Kept t t'
  Step-Kept t t' (prelaunch _ c now) = prelaunch-Kept t c now
  Step-Kept t t' (create _ c now) = create-Kept t c now
  Step-Kept t t' (release _ c) = release-Kept t c
  Step-Kept t t' (launch _ kind c audit now) = launch-Kept t kind c audit now
  Step-Kept t t' (fence _ cs) = fence-Kept t cs
  Step-Kept t t' (acknowledge _ cs) = acknowledge-Kept t cs

  pub Steps-Kept : (t t' : Tables) → Steps text_less t t' → Kept t t'
  Steps-Kept t t' (done _) = Kept-refl t
  Steps-Kept t t' (next _ u _ s ss) = Kept-trans t u t' (Step-Kept t u s) (Steps-Kept u t' ss)
