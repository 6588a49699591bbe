-- ===== src/Store/Calls/Marks.antt =====
-- Calls.antt: what stays true of a Worker Run over any sequence of calls, and why a launched run is not
-- launched again and a fenced one is given no container.
use ai_engineer_workflow.Prelude.{
  String, Bool, true, false, List, map, ◌≡◌, ◌≢◌, refl, sym, ap, subst, ◌∙◌, arith, Bool-cases, inl,
  inr, Elem, Distinct,
}
use ai_engineer_workflow.Store.Tables.{WorkerRun, Tables, launched, update, count}
use ai_engineer_workflow.Store.Tables.Rows.{
  amend, Elem-update, map-update, count→Elem, Distinct-one,
}
use ai_engineer_workflow.Store.Calls.{Forward, Amends, stay, amended, Kept}
use ai_engineer_workflow.Store.Calls.Kept.{Forward-refl, Forward-trans}

-- the primary key of `worker_runs`
abbrev pub IsKeyed : Tables → Type 0
IsKeyed t = Distinct (map (λ r. r.run_id) t.runs)

-- a predicate on the rows of one run
abbrev pub Marked : (WorkerRun → Type 0) → String → Tables → Type 0
Marked P id t = (r : WorkerRun) → Elem r t.runs → r.run_id ≡ id → P r

abbrev pub IsLaunched : WorkerRun → Type 0
IsLaunched r = r.launch_state ≡ launched

abbrev pub IsFenced : WorkerRun → Type 0
IsFenced r = r.isolation_pending ≡ true

Forward-amend :
    (p : WorkerRun → Bool) (f : WorkerRun → WorkerRun)
    → ((r : WorkerRun) → Forward r (f r))
    → (r : WorkerRun) → Forward r (amend p f r)
Forward-amend p f h r = elim (Bool-cases (p r)) [
  | inl e ↦ rw e (h r)
  | inr e ↦ rw e (Forward-refl r)
]

pub Amends-Elem :
    (rs rs' : List WorkerRun)
    → Amends rs rs'
    → (r' : WorkerRun) → Elem r' rs'
    → (r : WorkerRun) × Elem r rs × Forward r r'
Amends-Elem rs rs' (stay _) r' m = (r', m, Forward-refl r')
Amends-Elem rs rs' (amended p f h _ _ k) r' m =
    let (x, n, w) = Amends-Elem (update p f rs) rs' k r' m in
    let (y, l, e) = Elem-update p f rs x n in
    (y, l, Forward-trans y x r' (subst (λ z. Forward y z) (sym e) (Forward-amend p f h y)) w)

Amends-keys :
    (rs rs' : List WorkerRun) → Amends rs rs' → map (λ r. r.run_id) rs' ≡ map (λ r. r.run_id) rs
Amends-keys rs rs' (stay _) = refl
Amends-keys rs rs' (amended p f h _ _ k) =
    Amends-keys (update p f rs) rs' k ∙ map-update (λ r. r.run_id) p f (λ r. (h r).0) rs

pub Kept-IsKeyed : (t t' : Tables) → Kept t t' → IsKeyed t → IsKeyed t'
Kept-IsKeyed t t' k d = subst Distinct (sym (Amends-keys t.runs t'.runs k.0)) d

pub Kept-Marked :
    (P : WorkerRun → Type 0)
    → ((r r' : WorkerRun) → Forward r r' → P r → P r')
    → (id : String) → (t t' : Tables) → Kept t t'
    → Marked P id t
    → Marked P id t'
Kept-Marked P keeps id t t' k h r' m e =
    let (r, n, w) = Amends-Elem t.runs t'.runs k.0 r' m in keeps r r' w (h r n (sym w.0 ∙ e))

-- An UPDATE that affects a row of a keyed table marks the run that its condition names.
pub update-Marked :
    (P : WorkerRun → Type 0) (p : WorkerRun → Bool) (f : WorkerRun → WorkerRun) (id : String)
    → ((r : WorkerRun) → (f r).run_id ≡ r.run_id)
    → ((r : WorkerRun) → p r ≡ true → r.run_id ≡ id)
    → (rs : List WorkerRun) → Distinct (map (λ r. r.run_id) rs)
    → count p rs ≢ 0
    → ((r : WorkerRun) → p r ≡ true → Elem r rs → P (f r))
    → (r' : WorkerRun) → Elem r' (update p f rs)
    → r'.run_id ≡ id
    → P r'
update-Marked P p f id keeps names rs d n holds r' m e =
    let (r, k, a) = Elem-update p f rs r' m in
    let (x, l, q) = count→Elem p rs n in
    elim (Bool-cases (p r)) [
      | inl t ↦ subst P (sym (a ∙ amend-true r t)) (holds r t k)
      | inr z ↦
          let same =
            Distinct-one (λ r. r.run_id) rs d r x k l
              ((sym (ap (λ y. y.run_id) (a ∙ amend-false r z)) ∙ e) ∙ sym (names x q)) in
          absurd (ground (arith, z, ap p same, q))
    ]
  where
    amend-true : (r : WorkerRun) → p r ≡ true → amend p f r ≡ f r
    amend-true r h = rw h refl

    amend-false : (r : WorkerRun) → p r ≡ false → amend p f r ≡ r
    amend-false r h = rw h refl
