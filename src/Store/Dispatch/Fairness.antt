-- ===== src/Store/Dispatch/Fairness.antt =====
-- The fairness cursor of internal/store/dispatch.go: where a dealing starts, what a claim records,
-- and the rounds that `dealt` returns.
use ai_engineer_workflow.Prelude.{
  ℕ, zero, suc, ◌+◌, ◌%◌, ◌<◌, true, List, [], ◌∷◌, ◌++◌, ◌≡◌, refl, ap, length, take, drop, arith,
  sym, ◌∙◌, some, length-append, All, String, str_eq, eq_iff, ◌≢◌, if◌then◌else◌,
}
use native.Mathlib.Nat.{mod-eq_of_lt, mod_self}
use ai_engineer_workflow.Store.Dispatch.{
  GlobalPlanFrontier, DispatchCandidate, turns, Database, dealt, fairness_cursor, upsert_fairness,
  record_dispatch_fairness, start_from,
}
use ai_engineer_workflow.Store.Errors.{ok}
use ai_engineer_workflow.Store.Dispatch.Deal.{
  rounds, rotate, append_nil, append_assoc, rounds_idle, take_nil,
}
use ai_engineer_workflow.Store.Dispatch.Rounds.{turns-rounds}

take-drop : {A : Type 0} → (n : ℕ) (xs : List A) → take n xs ++ drop n xs ≡ xs
take-drop zero xs = refl
take-drop (suc n) [] = refl
take-drop (suc n) (x ∷ xs) = ap (◌∷◌ x) (take-drop n xs)

length-take-lt : {A : Type 0} → (n : ℕ) (xs : List A) → n < length xs → length (take n xs) ≡ n
length-take-lt zero xs h = refl
length-take-lt (suc n) [] h = absurd (omega arith)
length-take-lt (suc n) (x ∷ xs) h = ap suc (length-take-lt n xs (omega arith))

length-drop-lt : {A : Type 0} → (n : ℕ) (xs : List A) → n < length xs → 0 < length (drop n xs)
length-drop-lt zero xs h = h
length-drop-lt (suc n) [] h = absurd (omega arith)
length-drop-lt (suc n) (x ∷ xs) h = length-drop-lt n xs (omega arith)

drop-append : {A : Type 0} → (xs ys : List A) → drop (length xs) (xs ++ ys) ≡ ys
drop-append [] ys = refl
drop-append (x ∷ xs) ys = drop-append xs ys

take-append_length : {A : Type 0} → (xs ys : List A) → take (length xs) (xs ++ ys) ≡ xs
take-append_length [] ys = refl
take-append_length (x ∷ xs) ys = ap (◌∷◌ x) (take-append_length xs ys)

start_from-lt : (n i last : ℕ) (ps : List GlobalPlanFrontier) → 0 < n → start_from n i last ps < n
unfolding start_from
start_from-lt n i last [] h = h
start_from-lt n i last (p ∷ ps) h = ground (arith, start_from-lt n (i + 1) last ps)

start_from-found :
    (n i : ℕ) (ps : List GlobalPlanFrontier) (p : GlobalPlanFrontier) (qs : List GlobalPlanFrontier)
    → All (λ r. r.root.root_issue_id ≢ p.root.root_issue_id) ps
    → start_from n i p.root.root_issue_id (ps ++ p ∷ qs) ≡ (i + length ps + 1) % n
unfolding start_from
start_from-found n i [] p qs h = let e : i + 0 + 1 ≡ i + 1 = omega arith in rw e (ground arith)
start_from-found n i (r ∷ rs) p qs (differs, h) =
    let e : i + suc (length rs) + 1 ≡ i + 1 + length rs + 1 = omega arith in
    rw e (ground (arith, start_from-found n (i + 1) rs p qs h))

rotate_nil : (n : ℕ) → rotate n [] ≡ []
rotate_nil zero = refl
rotate_nil (suc n) = refl

rotate-at : (xs ys : List GlobalPlanFrontier) → rotate (length xs) (xs ++ ys) ≡ ys ++ xs
rotate-at xs ys = rw (drop-append xs ys, take-append_length xs ys) refl

rotate-after :
    (ps : List GlobalPlanFrontier) (p : GlobalPlanFrontier) (qs : List GlobalPlanFrontier)
    → rotate ((0 + length ps + 1) % length (ps ++ p ∷ qs)) (ps ++ p ∷ qs) ≡ qs ++ (ps ++ p ∷ [])
rotate-after ps p [] =
    let n : 0 + length ps + 1 ≡ length (ps ++ p ∷ []) = omega (arith, length-append ps (p ∷ [])) in
    rw (n, mod_self (length (ps ++ p ∷ []))) (append_nil (ps ++ p ∷ []))
rotate-after ps p (q ∷ qs) =
    let lt : 0 + length ps + 1 < length (ps ++ p ∷ q ∷ qs) =
      omega (arith, length-append ps (p ∷ q ∷ qs)) in
    let n : 0 + length ps + 1 ≡ length (ps ++ p ∷ []) = omega (arith, length-append ps (p ∷ [])) in
    let at = rotate-at (ps ++ p ∷ []) (q ∷ qs) in
    rw (mod-eq_of_lt lt, n, ← append_assoc ps (p ∷ []) (q ∷ qs)) at

module _ (db : Database) (repository : String) (capacity : ℕ) where
  abbrev pub start_of : List GlobalPlanFrontier → ℕ
  start_of plans =
      start_from (length plans) 0 (fairness_cursor db.dispatch_fairness repository) plans

  -- The candidates are dealt in rounds over the plans, from the start that the cursor gives, as
  -- many as the capacity allows; the two loops never run out of their fuel.
  pub dealt-rounds :
      (plans : List GlobalPlanFrontier)
      → dealt db repository capacity plans
        ≡ ok (take capacity (rounds capacity (rotate (start_of plans) plans)))
  unfolding dealt
  dealt-rounds [] =
      rw
        (
          rotate_nil (start_of []),
          rounds_idle capacity [] refl,
          take_nil {A = DispatchCandidate} capacity,
        )
        refl
  dealt-rounds (p ∷ ps) =
      let start = start_of (p ∷ ps) in
      let lt : start < length (p ∷ ps) =
        start_from-lt (length (p ∷ ps)) 0 (fairness_cursor db.dispatch_fairness repository) (p ∷ ps)
          (omega arith) in
      let e =
        turns-rounds (suc capacity) start capacity capacity capacity (take start (p ∷ ps))
          (drop start (p ∷ ps)) [] (length-take-lt start (p ∷ ps) lt)
          (length-drop-lt start (p ∷ ps) lt) (omega arith) (omega arith) (omega arith) in
      let e' : turns (suc capacity) start capacity (p ∷ ps) []
          ≡ some (take capacity (rounds capacity (rotate start (p ∷ ps)))) =
        ap (λ xs. turns (suc capacity) start capacity xs []) (sym (take-drop start (p ∷ ps))) ∙ e in
      rw (dealt, e') refl

  -- When the cursor names a plan of the list, and no plan before it has its id, the plans after
  -- it are served first and it goes, behind the plans before it, to the end of the line.
  pub dealt-after :
      (ps : List GlobalPlanFrontier) (p : GlobalPlanFrontier) (qs : List GlobalPlanFrontier)
      → fairness_cursor db.dispatch_fairness repository ≡ p.root.root_issue_id
      → All (λ r. r.root.root_issue_id ≢ p.root.root_issue_id) ps
      → dealt db repository capacity (ps ++ p ∷ qs)
        ≡ ok (take capacity (rounds capacity (qs ++ (ps ++ p ∷ []))))
  dealt-after ps p qs cursor earlier =
      dealt-rounds (ps ++ p ∷ qs)
      ∙ ap (λ xs. ok (take capacity (rounds capacity xs)))
          (rw (cursor, start_from-found (length (ps ++ p ∷ qs)) 0 ps p qs earlier)
            (rotate-after ps p qs))

str_eq_same : (a : String) → str_eq a a ≡ true
str_eq_same a = (eq_iff a a).1 refl

cursor-upsert :
    (rows : List (String × ℕ)) (repository other : String) (root : ℕ)
    → fairness_cursor (upsert_fairness rows repository root) other
      ≡ (if str_eq repository other then root else fairness_cursor rows other)
unfolding fairness_cursor upsert_fairness
cursor-upsert [] repository other root = ground arith
cursor-upsert ((name, old) ∷ rows) repository other root = ground (
  arith,
  eq_iff name repository,
  eq_iff repository other,
  eq_iff name other,
  cursor-upsert rows repository other root,
)

-- Recording a claim of a plan moves the cursor of the plan's repository to that plan and leaves
-- the cursors of all other repositories as they are. Both names are given.
pub cursor-record :
    (db : Database) (repository other : String) (root : ℕ)
    → repository ≢ ""
    → root ≢ 0
    → fairness_cursor (record_dispatch_fairness db repository root).dispatch_fairness other
      ≡ (if str_eq repository other then root else fairness_cursor db.dispatch_fairness other)
unfolding record_dispatch_fairness
cursor-record db repository other root named some_root =
    ground (arith, eq_iff repository "", cursor-upsert db.dispatch_fairness repository other root)
