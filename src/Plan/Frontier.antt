-- ===== src/Plan/Frontier.antt =====
-- internal/plan/frontier.go: the deterministic dispatch set of one Delivery Plan. Go's `int` and
-- `int64` fields are natural numbers. `Dependencies` lists the entries of the map. `rank` recurs on
-- fuel; Frontier/Fuel.antt shows that one unit more than there are ids is enough.
pub mod Order
pub mod Fuel
pub mod Rank
pub mod Selection
use ai_engineer_workflow.Prelude.{
  ℕ, zero, suc, ◌+◌, ◌-◌, String, Bool, true, false, ◌&&◌, not, Option, none, some, List, [], ◌∷◌,
  ◌++◌, map, ◌==◌, ltb, leb, ◌≡◌, refl, str_eq, if◌then◌else◌, length, take, keep,
}
use ai_engineer_workflow.Prelude.Sort.{sort_by}

abbrev pub state_active : String
state_active = "active"

pub record FrontierTicket : Type 0 where
  pub issue_id : ℕ
  pub number : ℕ
  pub title : String
  pub delivered : Bool
  pub owner : String
  pub rank : ℕ

pub record FrontierSnapshot : Type 0 where
  pub version_id : String
  pub plan_state : String
  pub tickets : List FrontierTicket
  pub dependencies : List (ℕ × List ℕ)
  pub active_runs : ℕ
  pub max_parallel : ℕ

-- `snapshot.Dependencies[issueID]`
abbrev pub blockers : List (ℕ × List ℕ) → ℕ → List ℕ
blockers [] id = []
blockers ((k, bs) ∷ rest) id = if id == k then bs else blockers rest id

-- `byID[issueID]`: of two tickets with one id the later one is in the map.
abbrev pub by_id : List FrontierTicket → ℕ → Option FrontierTicket
by_id [] id = none
by_id (t ∷ ts) id = elim (by_id ts id) [
  | some u ↦ some u
  | none ↦ if id == t.issue_id then some t else none
]

-- the map `ranks`, and the set `visiting`
abbrev pub Ranks : Type 0
Ranks = ℕ → Option ℕ

abbrev pub set_rank : Ranks → ℕ → ℕ → Ranks
set_rank ranks id r k = if k == id then some r else ranks k

abbrev pub mark : (ℕ → Bool) → ℕ → ℕ → Bool
mark visiting id k = if k == id then true else visiting k

-- `none` means that the fuel ran out.
abbrev pub Ranking : Type 0
Ranking = Option (ℕ × Ranks)

abbrev pub and_then : Ranking → (ℕ → Ranks → Ranking) → Ranking
and_then none k = none
and_then (some (r, ranks)) k = k r ranks

-- `for _, blockerID := range …`: the best candidate, and the map
unfoldable pub best_rank : (Ranks → ℕ → Ranking) → Ranks → ℕ → List ℕ → Ranking
best_rank go ranks best [] = some (best, ranks)
best_rank go ranks best (b ∷ bs) =
    and_then (go ranks b)
      (λ r ranks'. best_rank go ranks' (if ltb best (r + 1) then r + 1 else best) bs)

-- `visiting` is a value here: a call deletes what it added before it returns.
unfoldable pub rank_of : ℕ → (ℕ → List ℕ) → (ℕ → Bool) → Ranks → ℕ → Ranking
rank_of zero deps visiting ranks id = none
rank_of (suc fuel) deps visiting ranks id = elim (ranks id) [
  | some value ↦ some (value, ranks)
  | none ↦ elim (visiting id) [
    | true ↦ some (0, ranks)
    | false ↦
        and_then (best_rank (rank_of fuel deps (mark visiting id)) ranks 0 (deps id))
          (λ best ranks'. some (best, set_rank ranks' id best))
  ]
]

module _ (fuel : ℕ) (deps : ℕ → List ℕ) (visiting : ℕ → Bool) (ranks : Ranks) (id : ℕ) where
  pub rank_of_known :
      (value : ℕ)
      → ranks id ≡ some value
      → rank_of (suc fuel) deps visiting ranks id ≡ some (value, ranks)
  unfolding rank_of
  rank_of_known value e = rw (e, rank_of)

  pub rank_of_visiting :
      ranks id ≡ none
      → visiting id ≡ true
      → rank_of (suc fuel) deps visiting ranks id ≡ some (0, ranks)
  unfolding rank_of
  rank_of_visiting e v = rw (e, rank_of) (rw v)

  pub rank_of_new :
      ranks id ≡ none
      → visiting id ≡ false
      → rank_of (suc fuel) deps visiting ranks id
        ≡ and_then
            (best_rank (rank_of fuel deps (mark visiting id)) ranks 0 (deps id))
            (λ best ranks'. some (best, set_rank ranks' id best))
  unfolding rank_of
  rank_of_new e v = rw (e, rank_of) (rw v)

-- `for issueID := range byID { rank(issueID, make(map[int64]bool)) }`
abbrev pub and_next : Ranking → (Ranks → Option Ranks) → Option Ranks
and_next none k = none
and_next (some (r, ranks)) k = k ranks

unfoldable pub rank_each : (Ranks → ℕ → Ranking) → Ranks → List ℕ → Option Ranks
rank_each go ranks [] = some ranks
rank_each go ranks (id ∷ ids) = and_next (go ranks id) (λ ranks'. rank_each go ranks' ids)

-- All ids that the recursion can meet.
abbrev pub blocker_ids : List (ℕ × List ℕ) → List ℕ
blocker_ids [] = []
blocker_ids ((k, bs) ∷ rest) = bs ++ blocker_ids rest

abbrev pub ids : List FrontierTicket → List ℕ
ids ts = map (λ t. t.issue_id) ts

abbrev pub universe : FrontierSnapshot → List ℕ
universe s = ids s.tickets ++ blocker_ids s.dependencies

unfoldable pub ranks_of : FrontierSnapshot → Option Ranks
unfolding rank_each rank_of best_rank
ranks_of s =
    rank_each (rank_of (suc (length (universe s))) (blockers s.dependencies) (λ k. false))
      (λ k. none) (ids s.tickets)

-- the loop that sets `allDelivered`
unfoldable pub all_delivered : List FrontierTicket → List ℕ → Bool
all_delivered ts [] = true
all_delivered ts (b ∷ bs) = elim (by_id ts b) [
  | none ↦ false
  | some blocker ↦ if blocker.delivered then all_delivered ts bs else false
]

unfoldable pub is_ready : FrontierSnapshot → FrontierTicket → Bool
unfolding all_delivered
is_ready s t =
    if t.delivered
    then false
    else if not (str_eq t.owner "")
    then false
    else all_delivered s.tickets (blockers s.dependencies t.issue_id)

-- `ticket.Rank = ranks[ticket.IssueID]`
abbrev pub rank_at : Ranks → ℕ → ℕ
rank_at ranks id = elim (ranks id) [ some r ↦ r | none ↦ 0 ]

abbrev pub with_rank : Ranks → FrontierTicket → FrontierTicket
with_rank ranks t = record t { rank = rank_at ranks t.issue_id }

-- the comparison that `sort.Slice` is given
unfoldable pub before : FrontierTicket → FrontierTicket → Bool
before a b =
    if a.rank == 0 && not (b.rank == 0)
    then true
    else if not (a.rank == 0) && b.rank == 0
    then false
    else if not (a.rank == b.rank)
    then ltb a.rank b.rank
    else if a.number == b.number
    then ltb a.issue_id b.issue_id
    else ltb a.number b.number

-- the part behind the guard on state and capacity
unfoldable pub select : FrontierSnapshot → Ranks → List FrontierTicket
unfolding sort_by before is_ready
select s ranks =
    take (s.max_parallel - s.active_runs)
      (sort_by before (map (with_rank ranks) (keep (is_ready s) s.tickets)))

unfoldable pub ready_frontier : FrontierSnapshot → Option (List FrontierTicket)
ready_frontier s =
    if not (str_eq s.plan_state state_active)
    then some []
    else if leb s.max_parallel s.active_runs
    then some []
    else elim (ranks_of s) [ none ↦ none | some ranks ↦ some (select s ranks) ]
