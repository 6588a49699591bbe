-- ===== src/Store/Dispatch/Deal.antt =====
-- The dealing of internal/store/dispatch.go on whole lists: the first tickets of all plans, what a
-- turn leaves of them, and the rounds one after the other.
use ai_engineer_workflow.Prelude.{
  ℕ, zero, suc, ◌+◌, ◌-◌, ◌<◌, Bool, true, false, List, [], ◌∷◌, ◌++◌, map, ◌≡◌, refl, ap, length,
  take, drop, arith, ◌||◌, sym, ◌∙◌,
}
use ai_engineer_workflow.Plan.Frontier.{FrontierTicket}
use ai_engineer_workflow.Store.Dispatch.{GlobalPlanFrontier, DispatchCandidate, candidate}

-- the first ticket of a plan, if it has one
abbrev pub head : GlobalPlanFrontier → List DispatchCandidate
head p = elim p.tickets [ [] ↦ [] | t ∷ ts ↦ candidate p.root t ∷ [] ]

abbrev pub tail : GlobalPlanFrontier → GlobalPlanFrontier
tail p = record p { tickets = drop 1 p.tickets }

abbrev pub heads : List GlobalPlanFrontier → List DispatchCandidate
heads [] = []
heads (p ∷ ps) = head p ++ heads ps

abbrev pub tails : List GlobalPlanFrontier → List GlobalPlanFrontier
tails ps = map tail ps

-- Round after round, each plan gives its first ticket.
unfoldable pub rounds : ℕ → List GlobalPlanFrontier → List DispatchCandidate
rounds zero ps = []
rounds (suc k) ps = heads ps ++ rounds k (tails ps)

abbrev pub rotate : ℕ → List GlobalPlanFrontier → List GlobalPlanFrontier
rotate start ps = drop start ps ++ take start ps

abbrev pub is_some : List DispatchCandidate → Bool
is_some [] = false
is_some (c ∷ cs) = true

-- what a turn with room for so many candidates leaves of the plans
abbrev pub left_of : ℕ → List GlobalPlanFrontier → List GlobalPlanFrontier
left_of zero ps = ps
left_of (suc room) [] = []
left_of (suc room) (p ∷ ps) = elim p.tickets [
  | [] ↦ p ∷ left_of (suc room) ps
  | t ∷ ts ↦ tail p ∷ left_of room ps
]

pub append_nil : {A : Type 0} → (xs : List A) → xs ++ [] ≡ xs
append_nil [] = refl
append_nil (x ∷ xs) = ap (◌∷◌ x) (append_nil xs)

pub append_assoc : {A : Type 0} → (xs ys zs : List A) → (xs ++ ys) ++ zs ≡ xs ++ (ys ++ zs)
append_assoc [] ys zs = refl
append_assoc (x ∷ xs) ys zs = ap (◌∷◌ x) (append_assoc xs ys zs)

pub take-append :
    {A : Type 0}
    → (n : ℕ) (xs ys : List A) → take n (xs ++ ys) ≡ take n xs ++ take (n - length xs) ys
take-append zero [] ys = refl
take-append zero (x ∷ xs) ys = let e : 0 - suc (length xs) ≡ 0 = omega arith in rw e refl
take-append (suc n) [] ys = let e : suc n - 0 ≡ suc n = omega arith in rw e refl
take-append (suc n) (x ∷ xs) ys =
    let e : suc n - suc (length xs) ≡ n - length xs = omega arith in
    rw (e, take-append n xs ys) refl

pub length-left_of :
    (room : ℕ) (ps : List GlobalPlanFrontier) → length (left_of room ps) ≡ length ps
length-left_of zero ps = refl
length-left_of (suc room) [] = refl
length-left_of (suc room) (p ∷ ps) =
    ground (arith, length-left_of room ps, length-left_of (suc room) ps)

pub is_some-append :
    (xs ys : List DispatchCandidate) → is_some (xs ++ ys) ≡ (is_some xs || is_some ys)
is_some-append [] ys = refl
is_some-append (x ∷ xs) ys = refl

pub length-tails : (ps : List GlobalPlanFrontier) → length (tails ps) ≡ length ps
length-tails [] = refl
length-tails (p ∷ ps) = ap suc (length-tails ps)

pub heads-append : (ps qs : List GlobalPlanFrontier) → heads (ps ++ qs) ≡ heads ps ++ heads qs
heads-append [] qs = refl
heads-append (p ∷ ps) qs =
    ap (◌++◌ (head p)) (heads-append ps qs) ∙ sym (append_assoc (head p) (heads ps) (heads qs))

pub tails-append : (ps qs : List GlobalPlanFrontier) → tails (ps ++ qs) ≡ tails ps ++ tails qs
tails-append [] qs = refl
tails-append (p ∷ ps) qs = ap (◌∷◌ (tail p)) (tails-append ps qs)

tail_idle : (p : GlobalPlanFrontier) → p.tickets ≡ [] → tail p ≡ p
tail_idle p e =
    ap (λ ts. record p { tickets = drop 1 ts }) e ∙ ap (λ ts. record p { tickets = ts }) (sym e)

pub left_of_nil : (room : ℕ) → left_of room [] ≡ []
left_of_nil zero = refl
left_of_nil (suc room) = refl

pub take_nil : {A : Type 0} → (room : ℕ) → take {A = A} room [] ≡ []
take_nil zero = refl
take_nil (suc room) = refl

module _ (p : GlobalPlanFrontier) (room : ℕ) where
  pub head_none : p.tickets ≡ [] → head p ≡ []
  head_none e = ground arith

  pub left_of_none : p.tickets ≡ [] → left_of (suc room) (p ∷ []) ≡ p ∷ []
  left_of_none e = ground arith

  module _ (t : FrontierTicket) (ts : List FrontierTicket) where
    pub head_first : p.tickets ≡ t ∷ ts → head p ≡ candidate p.root t ∷ []
    head_first e = ground arith

    pub left_of_first : p.tickets ≡ t ∷ ts → left_of (suc room) (p ∷ []) ≡ tail p ∷ []
    left_of_first e = ground (arith, left_of_nil room)

    pub tail_first : p.tickets ≡ t ∷ ts → record p { tickets = ts } ≡ tail p
    tail_first e = ap (λ us. record p { tickets = drop 1 us }) (sym e)

-- With room for more than the heads, each plan loses its head.
pub left_of-tails :
    (room : ℕ) (ps : List GlobalPlanFrontier)
    → length (heads ps) < room
    → left_of room ps ≡ tails ps
left_of-tails zero ps h = absurd (omega arith)
left_of-tails (suc room) [] h = refl
left_of-tails (suc room) (p ∷ ps) h =
    ground (arith, tail_idle p, left_of-tails room ps, left_of-tails (suc room) ps)

pub tails_idle : (ps : List GlobalPlanFrontier) → heads ps ≡ [] → tails ps ≡ ps
tails_idle [] e = refl
tails_idle (p ∷ ps) e = ground (arith, tail_idle p, tails_idle ps)

pub rounds_suc :
    (k : ℕ) (ps : List GlobalPlanFrontier) → rounds (suc k) ps ≡ heads ps ++ rounds k (tails ps)
unfolding rounds
rounds_suc k ps = refl

pub rounds_idle : (k : ℕ) (ps : List GlobalPlanFrontier) → heads ps ≡ [] → rounds k ps ≡ []
unfolding rounds
rounds_idle zero ps e = refl
rounds_idle (suc k) ps e = ground (arith, tails_idle ps e, rounds_idle k ps e)

-- The turn over one list after another.
pub left_of-append :
    (room : ℕ) (ps qs : List GlobalPlanFrontier)
    → left_of room (ps ++ qs) ≡ left_of room ps ++ left_of (room - length (heads ps)) qs
left_of-append zero ps qs = let e : 0 - length (heads ps) ≡ 0 = omega arith in rw e refl
left_of-append (suc room) [] qs = let e : suc room - 0 ≡ suc room = omega arith in rw e refl
left_of-append (suc room) (p ∷ ps) qs =
    ground (arith, left_of-append room ps qs, left_of-append (suc room) ps qs)

pub length-take-room :
    (room : ℕ) (cs : List DispatchCandidate) → length (take room cs) + (room - length cs) ≡ room
length-take-room zero cs = omega arith
length-take-room (suc room) [] = omega arith
length-take-room (suc room) (c ∷ cs) = omega (arith, length-take-room room cs)

-- what a turn leaves of one plan
abbrev pub one : ℕ → GlobalPlanFrontier → GlobalPlanFrontier
one zero p = p
one (suc room) p = tail p

pub left_of-one : (room : ℕ) (p : GlobalPlanFrontier) → left_of room (p ∷ []) ≡ one room p ∷ []
left_of-one zero p = refl
left_of-one (suc room) p = ground (arith, left_of_nil room, tail_idle p)

pub left_of-cons :
    (room : ℕ) (p : GlobalPlanFrontier) (ps : List GlobalPlanFrontier)
    → left_of room (p ∷ ps) ≡ one room p ∷ left_of (room - length (head p)) ps
left_of-cons room p ps =
    let e : head p ++ [] ≡ head p = append_nil (head p) in
    left_of-append room (p ∷ []) ps ∙ rw (left_of-one room p, e) refl
