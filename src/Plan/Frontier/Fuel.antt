-- ===== src/Plan/Frontier/Fuel.antt =====
-- One unit of fuel more than there are ids is enough for `rank`.
use ai_engineer_workflow.Prelude.{
  ℕ, zero, suc, ◌≤◌, ◌<◌, Bool, true, false, not, ◌≡◌, refl, ◌⊎◌, inl, inr, none, some, List, [],
  ◌∷◌, Elem, Elem-append_left, Elem-append_right, ltb, ◌+◌, if◌then◌else◌, length, length-keep-le,
  keep, ◌==◌, arith, Bool-cases, Option-cases,
}
use ai_engineer_workflow.Plan.Frontier.{
  FrontierSnapshot, Ranks, Ranking, set_rank, mark, and_then, and_next, best_rank, rank_of,
  rank_of_known, rank_of_visiting, rank_of_new, rank_each, ranks_of, blockers, blocker_ids, ids,
  universe,
}

-- How many ids are not on the path of the recursion.
abbrev free_count : (ℕ → Bool) → List ℕ → ℕ
free_count visiting all = length (keep (λ k. not (visiting k)) all)

free_count-le :
    (visiting : ℕ → Bool) (id : ℕ) (all : List ℕ)
    → free_count (mark visiting id) all ≤ free_count visiting all
free_count-le visiting id [] = omega arith
free_count-le visiting id (x ∷ xs) = ground (arith, free_count-le visiting id xs)

free_count-lt :
    (visiting : ℕ → Bool) (id : ℕ) (all : List ℕ)
    → Elem id all
    → visiting id ≡ false
    → free_count (mark visiting id) all < free_count visiting all
free_count-lt visiting id [] m e = elim m [ ]
free_count-lt visiting id (x ∷ xs) (inl p) e = ground (arith, free_count-le visiting id xs)
free_count-lt visiting id (x ∷ xs) (inr m) e = ground (arith, free_count-lt visiting id xs m e)

abbrev Ends : Ranking → Type 0
Ends none = ⊥
Ends (some r) = Unit

Ends-best_rank :
    (go : Ranks → ℕ → Ranking) (bs : List ℕ)
    → ((ranks : Ranks) (b : ℕ) → Elem b bs → Ends (go ranks b))
    → (ranks : Ranks) (best : ℕ) → Ends (best_rank go ranks best bs)
unfolding best_rank
Ends-best_rank go [] ends ranks best = tt
Ends-best_rank go (b ∷ bs) ends ranks best =
    continue (go ranks b) (ends ranks b (inl refl)) (λ ranks' r.
      Ends-best_rank go bs (λ rs x m. ends rs x (inr m)) ranks'
        (if ltb best (r + 1) then r + 1 else best))
  where
    continue :
        (s : Ranking)
        → Ends s
        → ((ranks' : Ranks) (r : ℕ)
            → Ends (best_rank go ranks' (if ltb best (r + 1) then r + 1 else best) bs))
        → Ends (
            and_then s
              (λ r ranks'. best_rank go ranks' (if ltb best (r + 1) then r + 1 else best) bs))
    continue none e later = elim e [ ]
    continue (some (r, ranks')) e later = later ranks' r

module _ (deps : ℕ → List ℕ) (all : List ℕ)
    (inside : (a b : ℕ) → Elem b (deps a) → Elem b all) where
  Ends-rank_of :
      (fuel : ℕ) (visiting : ℕ → Bool) (ranks : Ranks) (id : ℕ)
      → Elem id all
      → free_count visiting all < fuel
      → Ends (rank_of fuel deps visiting ranks id)
  Ends-rank_of zero visiting ranks id m enough = absurd (omega arith)
  Ends-rank_of (suc fuel) visiting ranks id m enough = elim (Option-cases (ranks id)) [
    | inr (v, e) ↦ rw (rank_of_known fuel deps visiting ranks id v e) tt
    | inl e ↦ elim (Bool-cases (visiting id)) [
      | inl t ↦ rw (rank_of_visiting fuel deps visiting ranks id e t) tt
      | inr t ↦ rw (rank_of_new fuel deps visiting ranks id e t) (
          finish _ (
            Ends-best_rank (rank_of fuel deps (mark visiting id)) (deps id)
              (λ ranks' b m'.
                Ends-rank_of fuel (mark visiting id) ranks' b (inside id b m')
                  (omega (arith, free_count-lt visiting id all m t)))
              ranks 0))
    ]
  ]
    where
      finish :
          (s : Ranking)
          → Ends s
          → Ends (and_then s (λ best after. some (best, set_rank after id best)))
      finish none e = elim e [ ]
      finish (some (r, after)) e = tt

  Ends-rank_each :
      (fuel : ℕ)
      → free_count (λ k. false) all < fuel
      → (ids : List ℕ) → ((k : ℕ) → Elem k ids → Elem k all)
      → (ranks : Ranks)
      → (r : Ranks) × (rank_each (rank_of fuel deps (λ k. false)) ranks ids ≡ some r)
  unfolding rank_each
  Ends-rank_each fuel enough [] within ranks = (ranks, refl)
  Ends-rank_each fuel enough (id ∷ ids) within ranks =
      continue _ (Ends-rank_of fuel (λ k. false) ranks id (within id (inl refl)) enough)
        (Ends-rank_each fuel enough ids (λ k m. within k (inr m)))
    where
      continue :
          (s : Ranking)
          → Ends s
          → ((ranks' : Ranks)
              → (r : Ranks) × (rank_each (rank_of fuel deps (λ k. false)) ranks' ids ≡ some r))
          → (r : Ranks) × (and_next s
                (λ ranks'. rank_each (rank_of fuel deps (λ k. false)) ranks' ids)
              ≡ some r)
      continue none e later = elim e [ ]
      continue (some (r, ranks')) e later = later ranks'

blockers-inside :
    (es : List (ℕ × List ℕ)) (a b : ℕ) → Elem b (blockers es a) → Elem b (blocker_ids es)
blockers-inside [] a b m = elim m [ ]
blockers-inside ((k, bs) ∷ es) a b m = elim (by_key (a == k) m) [
  | inl m' ↦ Elem-append_left b bs (blocker_ids es) m'
  | inr m' ↦ Elem-append_right b bs (blocker_ids es) (blockers-inside es a b m')
]
  where
    by_key :
        (t : Bool) → Elem b (if t then bs else blockers es a) → Elem b bs ⊎ Elem b (blockers es a)
    by_key true h = inl h
    by_key false h = inr h

-- Every snapshot gets its ranks.
pub ranks_of_total : (s : FrontierSnapshot) → (r : Ranks) × (ranks_of s ≡ some r)
unfolding ranks_of
ranks_of_total s =
    Ends-rank_each (blockers s.dependencies) (universe s)
      (λ a b m.
        Elem-append_right b (ids s.tickets) (blocker_ids s.dependencies)
          (blockers-inside s.dependencies a b m))
      (suc (length (universe s))) (omega (arith, length-keep-le (λ (k : ℕ). true) (universe s)))
      (ids s.tickets) (λ k m. Elem-append_left k (ids s.tickets) (blocker_ids s.dependencies) m)
      (λ k. none)
