-- ===== src/Plan/Validate/Answers.antt =====
-- `Validate` never runs out of fuel: it accepts, or refuses for a reason.
use ai_engineer_workflow.Prelude.{
  ℕ, true, false, ◌≡◌, refl, subst, sym, ap, ◌∙◌, ◌⊎◌, inl, inr, Bool, Option, none, some, List, [],
  ◌∷◌, if◌then◌else◌, has,
}
use ai_engineer_workflow.Plan.Model.{Issue, Snapshot}
use ai_engineer_workflow.Plan.Cycle.{has_cycle}
use ai_engineer_workflow.Plan.Cycle.Fuel.{has_cycle_decides}
use ai_engineer_workflow.Plan.Validate.Spec.{blockers_of}
use ai_engineer_workflow.Plan.Validate.Dependencies.{
  check_entries-AreDependencies, AreDependencies-check_entries, adjacency-no_edges,
  blockers_of-IsClosed,
}
use ai_engineer_workflow.Plan.Validate.{
  Reason, Checked, ok, refused, out_of_fuel, ◌>>=◌, unless, ok-injective, Edges, no_edges, add_edge,
  check_root, check_child, check_children, check_blocker, check_blockers, check_entries,
  reject_cycle, validate,
}

abbrev Answers {ℓ} : {A : Type ℓ} → Checked A → Type 0
Answers out_of_fuel = ⊥
Answers _ = Unit

Answers-unless {ℓ} :
    {A : Type ℓ} (o : Option Reason) (m : Checked A) → Answers m → Answers (unless o m)
Answers-unless none m h = h
Answers-unless (some r) m h = tt

Answers-bind {ℓ κ} :
    {A : Type ℓ} {B : Type κ} (m : Checked A) (f : A → Checked B)
    → Answers m
    → ((a : A) → m ≡ ok a → Answers (f a))
    → Answers (m >>= f)
Answers-bind (ok a) f h k = k a refl
Answers-bind (refused r) f h k = tt
Answers-bind out_of_fuel f h k = h

Answers-check_children :
    (root : Issue) (by_id by_number : List ℕ) (cs : List Issue)
    → Answers (check_children root by_id by_number cs)
unfolding check_children
Answers-check_children root by_id by_number [] = tt
Answers-check_children root by_id by_number (c ∷ cs) =
    Answers-unless (check_child root by_id by_number c) _
      (Answers-check_children root (c.id ∷ by_id) (c.number ∷ by_number) cs)

module _ (root : Issue) (by_id : List ℕ) where
  Answers-check_blockers :
      (blocked : ℕ) (e : Edges) (bs : List Issue) → Answers (check_blockers root by_id blocked e bs)
  unfolding check_blockers
  Answers-check_blockers blocked e [] = tt
  Answers-check_blockers blocked e (b ∷ bs) =
      Answers-unless (check_blocker root by_id blocked e b) _
        (Answers-check_blockers blocked (add_edge blocked b.id e) bs)

  Answers-if {ℓ} :
      {A : Type ℓ} (t : Bool) (m : Checked A) (r : Reason)
      → Answers m
      → Answers (if t then m else refused r)
  Answers-if true m r h = h
  Answers-if false m r h = tt

  Answers-check_entries :
      (e : Edges) (es : List (ℕ × List Issue)) → Answers (check_entries root by_id e es)
  unfolding check_entries
  Answers-check_entries e [] = tt
  Answers-check_entries e ((blocked, bs) ∷ es) = Answers-if (has blocked by_id) _ _ (
      Answers-bind (check_blockers root by_id blocked e bs) _ (Answers-check_blockers blocked e bs)
        (λ e' h. Answers-check_entries e' es))

  Answers-reject_cycle : (o : Option Bool) {b : Bool} → o ≡ some b → Answers (reject_cycle o)
  unfolding reject_cycle
  Answers-reject_cycle none h = cc
  Answers-reject_cycle (some true) h = tt
  Answers-reject_cycle (some false) h = tt

  -- The search behind accepted entries has enough fuel.
  Answers-search :
      (e : Edges) (es : List (ℕ × List Issue))
      → check_entries root by_id no_edges es ≡ ok e
      → Answers (reject_cycle (has_cycle by_id e.adjacency))
  Answers-search e es h =
      let d = check_entries-AreDependencies root by_id no_edges es h in
      let graphs : e.adjacency ≡ blockers_of es =
        ap (λ (x : Edges). x.adjacency)
          (ok-injective (sym h ∙ AreDependencies-check_entries root by_id no_edges es d))
        ∙ adjacency-no_edges es in
      let closed = blockers_of-IsClosed root by_id es d.all_entries in
      subst (λ g. Answers (reject_cycle (has_cycle by_id g))) (sym graphs)
        (by_answer (blockers_of es) (has_cycle_decides (blockers_of es) by_id closed))
    where
      by_answer :
          {P Q : Type 0} (g : ℕ → List ℕ)
          → ((has_cycle by_id g ≡ some true) × P) ⊎ ((has_cycle by_id g ≡ some false) × Q)
          → Answers (reject_cycle (has_cycle by_id g))
      by_answer g (inl (a, p)) = Answers-reject_cycle _ a
      by_answer g (inr (a, q)) = Answers-reject_cycle _ a

Answers-validate : (s : Snapshot) → Answers (validate s)
unfolding validate
Answers-validate s = Answers-unless (check_root s) _ (
    Answers-bind (check_children s.root [] [] s.children) _
      (Answers-check_children s.root [] [] s.children)
      (λ k h.
        Answers-bind (check_entries s.root k no_edges s.blocked_by) _
          (Answers-check_entries s.root k no_edges s.blocked_by)
          (λ e h'. Answers-search s.root k e s.blocked_by h')))

Answers-cases :
    (m : Checked (Unit {0})) → Answers m → (m ≡ ok tt) ⊎ ((r : Reason) × (m ≡ refused r))
Answers-cases (ok a) h = inl refl
Answers-cases (refused r) h = inr (r, refl)
Answers-cases out_of_fuel h = elim h [ ]

-- `Validate` comes to an answer on every snapshot: it accepts it, or refuses it for a reason.
pub validate_total :
    (s : Snapshot) → (validate s ≡ ok tt) ⊎ ((r : Reason) × (validate s ≡ refused r))
validate_total s = Answers-cases (validate s) (Answers-validate s)
