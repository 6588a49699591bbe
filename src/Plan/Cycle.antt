-- ===== src/Plan/Cycle.antt =====
-- `hasCycle` of internal/plan/model.go: depth-first search over the blockers with three marks.
-- The maps `adjacency` and `state` are functions with Go's zero values (no blockers, unseen).
-- The recursion takes fuel; Cycle/Fuel.antt shows that one unit more than there are nodes is
-- enough, and Cycle/Decides.antt that the answer is right.
pub mod Graph
pub mod Decides
pub mod Fuel
use ai_engineer_workflow.Prelude.{
  ℕ, zero, suc, Bool, true, false, Option, none, some, List, [], ◌∷◌, ◌==◌, if◌then◌else◌, length,
  ◌≡◌, refl, ◌⊎◌, inl, inr,
}

pub data Mark : Type 0 where
  unseen visiting visited : Mark

pub Mark-cases : (v : Mark) → (v ≡ unseen) ⊎ ((v ≡ visiting) ⊎ (v ≡ visited))
Mark-cases unseen = inl refl
Mark-cases visiting = inr (inl refl)
Mark-cases visited = inr (inr refl)

abbrev pub Marks : Type 0
Marks = ℕ → Mark

abbrev pub set_mark : Marks → ℕ → Mark → Marks
set_mark marks node m k = if k == node then m else marks k

-- `none` means that the fuel ran out; otherwise whether a cycle was met, and the marks.
abbrev pub Search : Type 0
Search = Option (Bool × Marks)

-- `if visit(…) { return true }`, and otherwise what follows.
abbrev pub or_else : Search → (Marks → Search) → Search
or_else none k = none
or_else (some (true, m)) k = some (true, m)
or_else (some (false, m)) k = k m

-- `for _, blocker := range …`, and `for id := range nodes`.
unfoldable pub visit_all : (Marks → ℕ → Search) → Marks → List ℕ → Search
visit_all go marks [] = some (false, marks)
visit_all go marks (node ∷ rest) = or_else (go marks node) (λ m. visit_all go m rest)

unfoldable pub visit : ℕ → (ℕ → List ℕ) → Marks → ℕ → Search
visit zero adjacency marks node = none
visit (suc fuel) adjacency marks node = elim (marks node) [
  | visiting ↦ some (true, marks)
  | visited ↦ some (false, marks)
  | unseen ↦
      or_else (visit_all (visit fuel adjacency) (set_mark marks node visiting) (adjacency node))
        (λ m. some (false, set_mark m node visited))
]

module _ (fuel : ℕ) (adjacency : ℕ → List ℕ) (marks : Marks) (node : ℕ) where
  pub visit_visiting :
      marks node ≡ visiting → visit (suc fuel) adjacency marks node ≡ some (true, marks)
  unfolding visit
  visit_visiting e = rw (e, visit)

  pub visit_visited :
      marks node ≡ visited → visit (suc fuel) adjacency marks node ≡ some (false, marks)
  unfolding visit
  visit_visited e = rw (e, visit)

  pub visit_unseen :
      marks node ≡ unseen
      → visit (suc fuel) adjacency marks node
        ≡ or_else
            (visit_all (visit fuel adjacency) (set_mark marks node visiting) (adjacency node))
            (λ m. some (false, set_mark m node visited))
  unfolding visit
  visit_unseen e = rw (e, visit)

abbrev pub answer : Search → Option Bool
answer none = none
answer (some (found, m)) = some found

unfoldable pub has_cycle : List ℕ → (ℕ → List ℕ) → Option Bool
unfolding visit visit_all
has_cycle nodes adjacency =
    answer (visit_all (visit (suc (length nodes)) adjacency) (λ k. unseen) nodes)
