-- ===== src/Plan/Validate/Spec.antt =====
-- What an admissible Delivery Plan is, without the loops and maps of `Validate`.
use ai_engineer_workflow.Prelude.{
  ℕ, true, ◌≡◌, ◌≢◌, List, [], ◌∷◌, ◌++◌, map, ◌==◌, if◌then◌else◌, All, Elem, Distinct,
}
use ai_engineer_workflow.Plan.Model.{Issue, Snapshot, is_ticket, is_plan_root}
use ai_engineer_workflow.Plan.Cycle.Graph.{Chain}

abbrev pub ids : List Issue → List ℕ
ids cs = map (λ c. c.id) cs

abbrev pub numbers : List Issue → List ℕ
numbers cs = map (λ c. c.number) cs

-- A child that may stand below the root: a typed ticket with an identity that is not the root's.
pub record IsTicketOf (root child : Issue) : Type 0 where
  pub has_id : child.id ≢ 0
  pub has_number : child.number ≢ 0
  pub other_id : child.id ≢ root.id
  pub other_number : child.number ≢ root.number
  pub typed : is_ticket child ≡ true

-- A blocker of a ticket of the plan: a ticket of the plan, and delivered if it is closed.
pub record IsBlockerIn (root : Issue) (by_id : List ℕ) (blocker : Issue) : Type 0 where
  pub has_id : blocker.id ≢ 0
  pub has_number : blocker.number ≢ 0
  pub other_id : blocker.id ≢ root.id
  pub other_number : blocker.number ≢ root.number
  pub within : Elem blocker.id by_id
  pub settled : blocker.state ≡ "closed" → blocker.delivered ≡ true

-- The blocked ticket is in the plan, and so is each of its blockers.
abbrev pub IsEntry : Issue → List ℕ → ℕ × List Issue → Type 0
IsEntry root by_id (blocked, blockers) = Elem blocked by_id × All (IsBlockerIn root by_id) blockers

abbrev pub pairs : ℕ → List Issue → List (ℕ × ℕ)
pairs blocked [] = []
pairs blocked (b ∷ bs) = (blocked, b.id) ∷ pairs blocked bs

-- All dependencies, as pairs of a blocked ticket and its blocker.
abbrev pub dependencies : List (ℕ × List Issue) → List (ℕ × ℕ)
dependencies [] = []
dependencies ((blocked, blockers) ∷ rest) = pairs blocked blockers ++ dependencies rest

abbrev pub blockers_of : List (ℕ × List Issue) → ℕ → List ℕ
blockers_of [] k = []
blockers_of ((blocked, blockers) ∷ rest) k =
    let others = blockers_of rest k in if k == blocked then ids blockers ++ others else others

pub record IsAdmissible (s : Snapshot) : Type 0 where
  pub named : s.repository ≢ ""
  pub root_id : s.root.id ≢ 0
  pub root_number : s.root.number ≢ 0
  pub root_labels : is_plan_root s.root ≡ true
  pub nonempty : s.children ≢ []
  pub all_tickets : All (IsTicketOf s.root) s.children
  pub distinct_ids : Distinct (ids s.children)
  pub distinct_numbers : Distinct (numbers s.children)
  pub all_entries : All (IsEntry s.root (ids s.children)) s.blocked_by
  pub distinct_edges : Distinct (dependencies s.blocked_by)
  pub acyclic : (k : ℕ) → Chain (blockers_of s.blocked_by) k k → ⊥
