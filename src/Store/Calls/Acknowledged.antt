-- ===== src/Store/Calls/Acknowledged.antt =====
-- Calls.antt: the proofs that the acknowledgement answers are what a transaction that takes the work away
-- asks for.
use ai_engineer_workflow.Prelude.{
  ℕ, String, Bool, true, false, not, ◌&&◌, List, [], ◌∷◌, map, ◌≡◌, refl, sym, ap, subst, ◌∙◌,
  arith, if◌then◌else◌, none, some, inl, inr, Elem, Elem-keep, keep-Elem, Elem-map, map-Elem, keep,
}
use ai_engineer_workflow.Prelude.Sort.{sort_by, Elem-sort_by, sort_by-Elem}
use ai_engineer_workflow.Store.Claim.{TicketClaim, WorkerIsolationProof}
use ai_engineer_workflow.Store.Errors.{ok, err, commit-ok, ok-inj, allow-ok, err_fencing_conflict}
use ai_engineer_workflow.Store.Tables.{Tables, Current, current}
use ai_engineer_workflow.Store.Tables.Rows.{joined-Elem, none-exists, Elem→exists}
use ai_engineer_workflow.Store.Isolating.{
  WorkerTarget, target_of, has_container, is_asked, is_verified, target_less,
  worker_isolation_targets, require_worker_isolation, require_no_delivery_write_fence,
  same_worker_isolation_target,
}
use ai_engineer_workflow.Store.Fencing.{
  target_for, acknowledge_each, acknowledge_worker_isolation, acknowledged, only,
}
use ai_engineer_workflow.Store.Calls.Kept.{acknowledged-Kept}
use ai_engineer_workflow.Store.Calls.Loops.{acknowledge_each-next}
use ai_engineer_workflow.Store.Calls.Marks.{IsKeyed, Marked, Kept-IsKeyed}
use ai_engineer_workflow.Store.Calls.Acked.{
  IsIdle, AckedTables, Acked-refl, Acked-trans, acknowledged-Acked, Acked-Idle, acknowledged-Idle,
  row-back, same-container, same-claim, verifies,
}

module _ (text_less : String → String → Bool) where
  target-row :
      (t : Tables) (v : String) (is : List ℕ) (x : WorkerTarget)
      → Elem x (worker_isolation_targets text_less t v is)
      → (row : Current) × Elem row (current t)
        × (has_container v row ≡ true)
        × (is_asked is row.session.issue_id ≡ true)
        × (x ≡ target_of row)
  unfolding worker_isolation_targets
  target-row t v is x m =
      let (n, a) = Elem-keep _ (sort_by (target_less text_less) _) x m in
      let n' =
        Elem-sort_by (target_less text_less) (map target_of (keep (has_container v) (current t))) x
          n in
      let (row, l, e) = Elem-map target_of (keep (has_container v) (current t)) x n' in
      let (k, h) = Elem-keep (has_container v) (current t) row l in
      (row, k, h, subst (λ z. is_asked is z.claim.ticket_id ≡ true) e a, e)

  row-target :
      (t : Tables) (v : String) (is : List ℕ) (row : Current)
      → Elem row (current t)
      → has_container v row ≡ true
      → is_asked is row.session.issue_id ≡ true
      → Elem (target_of row) (worker_isolation_targets text_less t v is)
  unfolding worker_isolation_targets
  row-target t v is row m h a =
      keep-Elem _ (sort_by (target_less text_less) _) (target_of row)
        (sort_by-Elem (target_less text_less) _ (target_of row) (
          map-Elem target_of (keep (has_container v) (current t)) row
            (keep-Elem (has_container v) (current t) row m h)))
        a

  -- a run's container generation is that of its target, so an acknowledgement keeps the targets
  target-back :
      (t t' : Tables) (v : String) (is : List ℕ)
      → AckedTables t t'
      → (x' : WorkerTarget) → Elem x' (worker_isolation_targets text_less t' v is)
      → (x : WorkerTarget) × Elem x (worker_isolation_targets text_less t v is)
        × (x'.claim ≡ x.claim)
  target-back t t' v is k x' m =
      let (row', n, h', a', e) = target-row t' v is x' m in
      let (row, l, s, u, w) = row-back t t' k row' n in
      (
        target_of row,
        row-target t v is row l (same-container v row row' s u w ∙ h')
            (subst (λ z. is_asked is z.issue_id ≡ true) s a'),
        ap (λ z. z.claim) e ∙ same-claim row row' s u w,
      )

  only-Elem :
      (xs : List WorkerTarget) (c d : TicketClaim)
      → elim (only xs) [
        | some target ↦
            if same_worker_isolation_target c target.claim
            then ok target.claim
            else err err_fencing_conflict
        | none ↦ err err_fencing_conflict
      ]
        ≡ ok d
      → (x : WorkerTarget) → Elem x xs
      → x.claim ≡ d
  only-Elem [] c d h x m = elim m [ ]
  only-Elem (y ∷ []) c d h x (inl e) = ground (
    arith,
    allow-ok (same_worker_isolation_target c y.claim) err_fencing_conflict (ok y.claim) d h,
    e,
  )
  only-Elem (y ∷ []) c d h x (inr m) = elim m [ ]
  only-Elem (y ∷ z ∷ zs) c d h x m = cc

  target_for-Elem :
      (t : Tables) (c d : TicketClaim)
      → target_for text_less t c ≡ ok d
      → (x : WorkerTarget)
      → Elem x (worker_isolation_targets text_less t c.version_id (c.ticket_id ∷ []))
      → x.claim ≡ d
  unfolding target_for
  target_for-Elem t c d h x m =
      only-Elem (worker_isolation_targets text_less t c.version_id (c.ticket_id ∷ [])) c d h x m

  Idle-pending :
      (t : Tables) (v : String) (is : List ℕ) (id : String)
      → Marked IsIdle id t
      → (x : WorkerTarget) → Elem x (worker_isolation_targets text_less t v is)
      → x.claim.run_id ≡ id
      → x.pending ≡ true
  Idle-pending t v is id k x m e =
      let (row, n, h, a, u) = target-row t v is x m in
      let j = joined-Elem t.sessions t.runs t.leases row n in
      let (i, p) = k row.run j.1 (ap (λ z. z.claim.run_id) (sym u) ∙ e) in
      ground (arith, ap (λ z. z.pending) u, i, p)

  -- what the loop has done for one of its claims
  abbrev IsProved : Tables → TicketClaim → List WorkerIsolationProof → Type 0
  IsProved t c ps =
      (d : TicketClaim) × Elem (record { target = d }) ps
      × Marked IsIdle d.run_id t
      × ((x : WorkerTarget)
          → Elem x (worker_isolation_targets text_less t c.version_id (c.ticket_id ∷ []))
          → x.claim ≡ d)

  acknowledge_each-Acked :
      (cs : List TicketClaim) (t : Tables) (ps : List WorkerIsolationProof) (t' : Tables)
      → acknowledge_each text_less cs t ≡ ok (ps, t')
      → AckedTables t t'
  unfolding acknowledge_each
  acknowledge_each-Acked [] t ps t' h = rw (ok-inj [] ps t t' h).1 (Acked-refl t)
  acknowledge_each-Acked (c ∷ cs) t ps t' h =
      let (d, qs, _, _, _, f) = acknowledge_each-next text_less c cs t ps t' h in
      Acked-trans t (acknowledged t d) t' (acknowledged-Acked t d)
        (acknowledge_each-Acked cs (acknowledged t d) qs t' f)

  acknowledge_each-Proved :
      (cs : List TicketClaim) (t : Tables) (ps : List WorkerIsolationProof) (t' : Tables)
      → IsKeyed t
      → acknowledge_each text_less cs t ≡ ok (ps, t')
      → (c : TicketClaim) → Elem c cs
      → IsProved t' c ps
  acknowledge_each-Proved [] t ps t' k h c m = elim m [ ]
  acknowledge_each-Proved (y ∷ cs) t ps t' k h c (inl u) =
      let (d, qs, g, n, e, f) = acknowledge_each-next text_less y cs t ps t' h in
      let t1 = acknowledged t d in
      let a = acknowledge_each-Acked cs t1 qs t' f in
      (
        d,
        subst (Elem (record { target = d })) (sym e) (inl refl),
        Acked-Idle t1 t' d.run_id a (acknowledged-Idle t d k n),
        λ x l.
            let (x0, l0, s) =
              target-back t t' c.version_id (c.ticket_id ∷ [])
                (Acked-trans t t1 t' (acknowledged-Acked t d) a) x l in
            s
            ∙ target_for-Elem t c d (subst (λ z. target_for text_less t z ≡ ok d) (sym u) g) x0 l0,
      )
  acknowledge_each-Proved (y ∷ cs) t ps t' k h c (inr m) =
      let (d, qs, g, n, e, f) = acknowledge_each-next text_less y cs t ps t' h in
      let (z, p, i, q) =
        acknowledge_each-Proved cs (acknowledged t d) qs t'
          (Kept-IsKeyed t (acknowledged t d) (acknowledged-Kept t d) k) f c m in
      (z, subst (Elem (record { target = z })) (sym e) (inr p), i, q)

  -- In tables whose run ids are a key: for every claim that an acknowledgement was asked for, the
  -- proofs that it answers are all that a transaction on the claim's ticket asks for, when no delivery
  -- write of that ticket is under way.
  pub acknowledge-require :
      (t : Tables) (cs : List TicketClaim) (ps : List WorkerIsolationProof) (t' : Tables)
      (c : TicketClaim)
      → IsKeyed t
      → acknowledge_worker_isolation text_less t cs ≡ (ok ps, t')
      → Elem c cs
      → require_no_delivery_write_fence t' c.version_id (c.ticket_id ∷ []) ≡ ok tt
      → require_worker_isolation text_less t' c.version_id (c.ticket_id ∷ []) ps ≡ ok tt
  unfolding acknowledge_worker_isolation require_worker_isolation
  acknowledge-require t [] ps t' c k h m free = elim m [ ]
  acknowledge-require t (y ∷ cs) ps t' c k h m free =
      let f = commit-ok t (acknowledge_each text_less (y ∷ cs) t) ps t' h in
      let (d, p, i, same) = acknowledge_each-Proved (y ∷ cs) t ps t' k f c m in
      let verified : (x : WorkerTarget)
          → Elem x (worker_isolation_targets text_less t' c.version_id (c.ticket_id ∷ []))
          → not (is_verified text_less ps x) ≡ false =
        λ x l.
          let e = same x l in
          let q =
            Idle-pending t' c.version_id (c.ticket_id ∷ []) d.run_id i x l (ap (λ z. z.run_id) e) in
          ap not (
            Elem→exists (λ proof. x.pending && same_worker_isolation_target proof.target x.claim) ps
              (record { target = d }) p (verifies x d q e)) in
      rw (free, none-exists (λ x. not (is_verified text_less ps x)) _ verified) refl
