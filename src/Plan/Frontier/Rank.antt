-- ===== src/Plan/Frontier/Rank.antt =====
-- Where the dependencies have no cycle, the rank of a ticket is the length of the longest chain of
-- blockers below it.
use ai_engineer_workflow.Prelude.{
  ℕ, zero, suc, ◌+◌, ◌≤◌, Bool, true, false, ◌≡◌, refl, sym, subst, ◌⊎◌, inl, inr, Option, none,
  some, List, [], ◌∷◌, Elem, All, All→Elem, ltb, if◌then◌else◌, arith, Bool-cases, Option-cases,
  ℕ_discrete,
}
use ai_engineer_workflow.Plan.Cycle.Graph.{Chain, edge, further}
use ai_engineer_workflow.Plan.Frontier.{
  Ranks, Ranking, set_rank, mark, and_then, best_rank, rank_of, rank_of_known, rank_of_new,
  rank_each, and_next,
}

module _ (deps : ℕ → List ℕ) where
  -- A chain of `k` blockers that starts at `n`.
  pub data Climb : ℕ → ℕ → Type 0 where
    stop : {n k : ℕ} → k ≡ 0 → Climb n k
    climb : {n k : ℕ} (b j : ℕ) → Elem b (deps n) → Climb b j → k ≡ j + 1 → Climb n k

  -- `h` is the length of the longest chain from `n`.
  pub record IsHeight (n h : ℕ) : Type 0 where
    pub reached : Climb n h
    pub longest : (k : ℕ) → Climb n k → k ≤ h

  -- What the map `ranks` holds is right.
  abbrev pub AllHeights : Ranks → Type 0
  AllHeights ranks = (k v : ℕ) → ranks k ≡ some v → IsHeight k v

  abbrev pub Extends : Ranks → Ranks → Type 0
  Extends before after = (k v : ℕ) → before k ≡ some v → after k ≡ some v

  abbrev HeightOf : Ranks → ℕ → Ranking → Type 0
  HeightOf ranks id none = Unit
  HeightOf ranks id (some (r, after)) =
      IsHeight id r × AllHeights after × Extends ranks after × (after id ≡ some r)

  -- The best of the candidates so far, and of those that are left.
  record IsBest (n best : ℕ) (rest : List ℕ) : Type 0 where
    reached : Climb n best
    longest :
        (k : ℕ)
        → Climb n k
        → (k ≤ best) ⊎ ((b : ℕ) × Elem b rest × (j : ℕ) × Climb b j × (k ≡ j + 1))

  abbrev BestOf : Ranks → ℕ → Ranking → Type 0
  BestOf ranks n none = Unit
  BestOf ranks n (some (best, after)) = IsHeight n best × AllHeights after × Extends ranks after

  IsBest-start : (n : ℕ) → IsBest n 0 (deps n)
  IsBest-start n = record { reached = stop refl; longest = from }
    where
      from :
          (k : ℕ)
          → Climb n k
          → (k ≤ 0) ⊎ ((b : ℕ) × Elem b (deps n) × (j : ℕ) × Climb b j × (k ≡ j + 1))
      from k (stop e) = inl (omega arith)
      from k (climb b j m c e) = inr (b, m, j, c, e)

  IsBest-next :
      (n best b r : ℕ) (rest : List ℕ)
      → Elem b (deps n)
      → IsHeight b r
      → IsBest n best (b ∷ rest)
      → IsBest n (if ltb best (r + 1) then r + 1 else best) rest
  IsBest-next n best b r rest m h i = record {
    reached = elim (Bool-cases (ltb best (r + 1))) [
      | inl t ↦ rw t (climb b r m h.reached refl)
      | inr t ↦ rw t i.reached
    ];
    longest = λ k c. elim (i.longest k c) [
      | inl le ↦ inl (ground arith)
      | inr (b', inl p, j, c', e) ↦
          let shorter = h.longest j (subst (λ x. Climb x j) p c') in inl (ground arith)
      | inr (b', inr m', j, c', e) ↦ inr (b', m', j, c', e)
    ];
  }

  module _ (n : ℕ) (go : Ranks → ℕ → Ranking)
      (right : (ranks : Ranks) (b : ℕ)
        → Elem b (deps n)
        → AllHeights ranks
        → HeightOf ranks b (go ranks b)) where
    BestOf-best_rank :
        (bs : List ℕ) (ranks : Ranks) (best : ℕ)
        → ((b : ℕ) → Elem b bs → Elem b (deps n))
        → AllHeights ranks
        → IsBest n best bs
        → BestOf ranks n (best_rank go ranks best bs)
    unfolding best_rank
    BestOf-best_rank [] ranks best inside all i = (
      record {
        reached = i.reached;
        longest = λ k c. elim (i.longest k c) [ inl le ↦ le | inr t ↦ elim t.1 [ ] ];
      },
      all,
      λ k v e. e,
    )
    BestOf-best_rank (b ∷ bs) ranks best inside all i =
        continue (go ranks b) (right ranks b (inside b (inl refl)) all)
          (λ ranks' best'. BestOf-best_rank bs ranks' best' (λ x m. inside x (inr m)))
      where
        join :
            (ranks' : Ranks)
            → Extends ranks ranks'
            → (s : Ranking) → BestOf ranks' n s
            → BestOf ranks n s
        join ranks' ext none h = tt
        join ranks' ext (some (r, after)) (h, all', ext') = (h, all', λ k v e. ext' k v (ext k v e))

        continue :
            (s : Ranking)
            → HeightOf ranks b s
            → ((ranks' : Ranks) (best' : ℕ)
                → AllHeights ranks'
                → IsBest n best' bs
                → BestOf ranks' n (best_rank go ranks' best' bs))
            → BestOf ranks n (
                and_then s
                  (λ r ranks'. best_rank go ranks' (if ltb best (r + 1) then r + 1 else best) bs))
        continue none h later = tt
        continue (some (r, ranks')) (h, all', ext, _) later = join ranks' ext _ (
            later ranks' (if ltb best (r + 1) then r + 1 else best) all'
              (IsBest-next n best b r bs (inside b (inl refl)) h i))

  -- A recorded rank stays, and every other entry is as before.
  set_rank_cases :
      (ranks : Ranks) (id r k v : ℕ)
      → set_rank ranks id r k ≡ some v
      → ((k ≡ id) × (v ≡ r)) ⊎ (ranks k ≡ some v)
  set_rank_cases ranks id r k v h = ground arith

  module _ (acyclic : (k : ℕ) → Chain deps k k → ⊥) where
    abbrev Above : (ℕ → Bool) → ℕ → Type 0
    Above visiting id = (k : ℕ) → visiting k ≡ true → Chain deps k id

    Above-mark :
        (visiting : ℕ → Bool) (id b : ℕ)
        → Above visiting id
        → Elem b (deps id)
        → Above (mark visiting id) b
    Above-mark visiting id b above m k e = elim (ℕ_discrete k id) [
      | yes p ↦ subst (λ x. Chain deps x b) (sym p) (edge m)
      | no p ↦ further (above k (ground arith)) m
    ]

    HeightOf-rank_of :
        (fuel : ℕ) (visiting : ℕ → Bool) (ranks : Ranks) (id : ℕ)
        → Above visiting id
        → AllHeights ranks
        → HeightOf ranks id (rank_of fuel deps visiting ranks id)
    unfolding rank_of
    HeightOf-rank_of zero visiting ranks id above all = tt
    HeightOf-rank_of (suc fuel) visiting ranks id above all = elim (Option-cases (ranks id)) [
      | inr (v, e) ↦
          rw (rank_of_known fuel deps visiting ranks id v e) (all id v e, all, (λ k u q. q), e)
      | inl e ↦ elim (Bool-cases (visiting id)) [
        | inl t ↦ absurd (acyclic id (above id t))
        | inr t ↦ rw (rank_of_new fuel deps visiting ranks id e t) (
            finish e _ (
              BestOf-best_rank id (rank_of fuel deps (mark visiting id))
                (λ ranks' b m.
                  HeightOf-rank_of fuel (mark visiting id) ranks' b
                    (Above-mark visiting id b above m))
                (deps id) ranks 0 (λ b m. m) all (IsBest-start id)))
      ]
    ]
      where
        finish :
            ranks id ≡ none
            → (s : Ranking) → BestOf ranks id s
            → HeightOf ranks id (and_then s (λ best after. some (best, set_rank after id best)))
        finish new none h = tt
        finish new (some (r, after)) (h, all', ext) = (
          h,
          (λ k v e. elim (set_rank_cases after id r k v e) [
            | inl (p, q) ↦ subst (λ x. IsHeight x v) (sym p) (subst (IsHeight id) (sym q) h)
            | inr e' ↦ all' k v e'
          ]),
          (λ k v e. ground (arith, ext k v e)),
          ground arith,
        )

    -- What the loop over all tickets leaves: right ranks, and one for each ticket.
    abbrev Ranked : Ranks → List ℕ → Option Ranks → Type 0
    Ranked before ids none = Unit
    Ranked before ids (some after) =
        AllHeights after × Extends before after × All (λ k. (v : ℕ) × (after k ≡ some v)) ids

    Ranked-rank_each :
        (fuel : ℕ) (ids : List ℕ) (ranks : Ranks)
        → AllHeights ranks
        → Ranked ranks ids (rank_each (rank_of fuel deps (λ k. false)) ranks ids)
    unfolding rank_each
    Ranked-rank_each fuel [] ranks all = (all, (λ k v e. e), tt)
    Ranked-rank_each fuel (id ∷ ids) ranks all =
        continue _ (HeightOf-rank_of fuel (λ k. false) ranks id (λ k e. cc) all)
          (λ ranks'. Ranked-rank_each fuel ids ranks')
      where
        join :
            (r : ℕ) (ranks' : Ranks)
            → Extends ranks ranks'
            → ranks' id ≡ some r
            → (s : Option Ranks) → Ranked ranks' ids s
            → Ranked ranks (id ∷ ids) s
        join r ranks' ext here none h = tt
        join r ranks' ext here (some after) (all', ext', each) =
            (all', (λ k v e. ext' k v (ext k v e)), ((r, ext' id r here), each))

        continue :
            (s : Ranking)
            → HeightOf ranks id s
            → ((ranks' : Ranks)
                → AllHeights ranks'
                → Ranked ranks' ids (rank_each (rank_of fuel deps (λ k. false)) ranks' ids))
            → Ranked ranks
                (id ∷ ids)
                (and_next s (λ ranks'. rank_each (rank_of fuel deps (λ k. false)) ranks' ids))
        continue none h later = tt
        continue (some (r, ranks')) (h, all', ext, here) later =
            join r ranks' ext here _ (later ranks' all')

    pub IsHeight-rank_each :
        (fuel : ℕ) (ids : List ℕ) (ranks : Ranks)
        → rank_each (rank_of fuel deps (λ k. false)) (λ k. none) ids ≡ some ranks
        → (id : ℕ) → Elem id ids
        → (v : ℕ) × (ranks id ≡ some v) × IsHeight id v
    IsHeight-rank_each fuel ids ranks e id m =
        let (all, _, each) =
          subst (Ranked (λ k. none) ids) e (Ranked-rank_each fuel ids (λ k. none) (λ k v h. cc)) in
        let (v, here) = All→Elem _ ids each id m in (v, here, all id v here)
