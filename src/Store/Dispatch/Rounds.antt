-- ===== src/Store/Dispatch/Rounds.antt =====
-- The two dealing loops of internal/store/dispatch.go meet the rounds: a turn is one round over the
-- rotated plans, cut at the capacity, and the turns are the rounds one after the other.
use ai_engineer_workflow.Prelude.{
  ℕ, zero, suc, ◌+◌, ◌-◌, ◌≤◌, ◌<◌, Bool, true, false, List, [], ◌∷◌, ◌++◌, ◌≡◌, refl, ap, length,
  take, arith, ◌||◌, sym, ◌∙◌, some, dec_lt, length-append,
}
use native.Mathlib.Nat.{mod-eq_of_lt, add-mod_right}
use ai_engineer_workflow.Store.Dispatch.{GlobalPlanFrontier, DispatchCandidate, Turns, turn, turns}
use ai_engineer_workflow.Store.Dispatch.Deal.{
  rounds_suc, heads, length-take-room, tails, rounds, is_some, left_of, append_nil, append_assoc,
  take-append, length-left_of, heads-append, tails-append, left_of-tails, rounds_idle,
  is_some-append,
}
use ai_engineer_workflow.Store.Dispatch.Turning.{turn_zero, turn_segment, Aligned}

abbrev at : List GlobalPlanFrontier → List DispatchCandidate → Bool → Turns
at plans result progressed = record { plans = plans; result = result; progressed = progressed }

module _ (base capacity : ℕ) (qs ps : List GlobalPlanFrontier) (aligned : length qs ≡ base)
    (some_ps : 0 < length ps) where
  abbrev size : ℕ
  size = length (qs ++ ps)

  Aligned-upper : Aligned size base capacity 0 ps qs
  Aligned-upper j h =
      let e : base + 0 + j ≡ length qs + j = omega (arith, aligned) in
      rw e (mod-eq_of_lt (omega (arith, h, length-append qs ps)))

  Aligned-lower : Aligned size base capacity (0 + length ps) qs []
  Aligned-lower j h =
      let e : base + (0 + length ps) + j ≡ j + size = omega (arith, aligned, length-append qs ps) in
      let f : 0 + j ≡ j = omega arith in
      rw (e, f) (add-mod_right j size ∙ mod-eq_of_lt (omega (arith, h, length-append qs ps)))

  -- A whole turn: one round over the rotated plans, as far as there is room.
  pub turn_round :
      (room : ℕ) (result : List DispatchCandidate)
      → length result + room ≡ capacity
      → turn size 0 size base capacity
          (record { plans = qs ++ ps; result = result; progressed = false })
        ≡ record {
          plans = left_of (room - length (heads ps)) qs ++ left_of room ps;
          result = result ++ take room (heads (ps ++ qs));
          progressed = is_some (take room (heads (ps ++ qs)));
        }
  turn_round room result h =
      let room' = room - length (heads ps) in
      let upper =
        turn_segment size base capacity ps qs [] (length qs) 0 room result false Aligned-upper h in
      let lower =
        turn_segment size base capacity qs [] (left_of room ps) 0 (0 + length ps) room'
          (result ++ take room (heads ps)) (is_some (take room (heads ps))) Aligned-lower
          (omega (
            arith,
            h,
            length-append result (take room (heads ps)),
            length-take-room room (heads ps),
          )) in
      let count : size ≡ length ps + length qs = omega (arith, length-append qs ps) in
      let none_more : length qs + 0 ≡ length qs = omega arith in
      let all : take room (heads (ps ++ qs)) ≡ take room (heads ps) ++ take room' (heads qs) =
        rw (heads-append ps qs) (take-append room (heads ps) (heads qs)) in
      simp (all, is_some-append (take room (heads ps)) (take room' (heads qs)))
        (ap (λ left. turn left 0 size base capacity (at (qs ++ ps) result false)) count
          ∙ ap
              (λ xs. turn (length ps + length qs) 0 size base capacity (at (qs ++ xs) result false))
              (sym (append_nil ps))
          ∙ upper
          ∙ ap
              (λ xs.
                turn (length qs) (0 + length ps) size base capacity
                  (at (qs ++ xs) (result ++ take room (heads ps)) (is_some (take room (heads ps)))))
              (append_nil (left_of room ps))
          ∙ ap
              (λ left. turn left (0 + length ps) size base capacity (
                at (qs ++ left_of room ps) (result ++ take room (heads ps))
                  (is_some (take room (heads ps)))))
              (sym none_more)
          ∙ lower
          ∙ turn_zero size base capacity (0 + length ps + length qs) (
              at (left_of room' qs ++ left_of room ps)
                (result ++ take room (heads ps) ++ take room' (heads qs))
                (is_some (take room (heads ps)) || is_some (take room' (heads qs))))
          ∙ simp (append_assoc result (take room (heads ps)) (take room' (heads qs))) refl)

is_some-take :
    (room : ℕ) (cs : List DispatchCandidate) → 0 < length cs → is_some (take (suc room) cs) ≡ true
is_some-take room [] h = absurd (omega arith)
is_some-take room (c ∷ cs) h = refl

-- What is left after a turn does not matter when the turn used up the room.
round_left :
    (room k : ℕ) (qs ps : List GlobalPlanFrontier)
    → take
        (room - length (heads (ps ++ qs)))
        (rounds k (left_of room ps ++ left_of (room - length (heads ps)) qs))
      ≡ take (room - length (heads (ps ++ qs))) (rounds k (tails (ps ++ qs)))
round_left room k qs ps =
    let total : length (heads (ps ++ qs)) ≡ length (heads ps) + length (heads qs) =
      rw (heads-append ps qs) (length-append (heads ps) (heads qs)) in
    elim (dec_lt (length (heads (ps ++ qs))) room) [
      | yes lt ↦
          let e : left_of room ps ++ left_of (room - length (heads ps)) qs ≡ tails (ps ++ qs) =
            rw
              (
                left_of-tails room ps (omega (arith, lt, total)),
                left_of-tails (room - length (heads ps)) qs (omega (arith, lt, total)),
                tails-append ps qs,
              )
              refl in
          rw e refl
      | no ge ↦ let e : room - length (heads (ps ++ qs)) ≡ 0 = omega (arith, ge) in rw e refl
    ]

module _ (fuel base capacity : ℕ) (plans : List GlobalPlanFrontier)
    (result : List DispatchCandidate) where
  turns_full : capacity ≤ length result → turns (suc fuel) base capacity plans result ≡ some result
  unfolding turns
  turns_full h = ground arith

  module _ (left : List GlobalPlanFrontier) (more : List DispatchCandidate)
      (h : length result < capacity) where
    turns_last :
        turn (length plans) 0 (length plans) base capacity (at plans result false)
          ≡ at left more false
        → turns (suc fuel) base capacity plans result ≡ some more
    unfolding turns
    turns_last e = simp e (ground (arith, h))

    turns_again :
        turn (length plans) 0 (length plans) base capacity (at plans result false)
          ≡ at left more true
        → turns (suc fuel) base capacity plans result ≡ turns fuel base capacity left more
    unfolding turns
    turns_again e = simp e (ground (arith, h))

-- One turn and then the rest of the rounds.
module _ (fuel base capacity room k : ℕ) (qs ps : List GlobalPlanFrontier)
    (result : List DispatchCandidate) (aligned : length qs ≡ base) (some_ps : 0 < length ps)
    (h : length result + suc room ≡ capacity) where
  abbrev dealt_now : List DispatchCandidate
  dealt_now = heads (ps ++ qs)

  turns_idle :
      dealt_now ≡ []
      → turns (suc fuel) base capacity (qs ++ ps) result
        ≡ some (result ++ take (suc room) (rounds (suc k) (ps ++ qs)))
  turns_idle e =
      let round = turn_round base capacity qs ps aligned some_ps (suc room) result h in
      turns_last fuel base capacity (qs ++ ps) result
        (left_of (suc room - length (heads ps)) qs ++ left_of (suc room) ps)
        (result ++ take (suc room) dealt_now) (omega (arith, h))
        (round
          ∙ ap
              (at (left_of (suc room - length (heads ps)) qs ++ left_of (suc room) ps)
                (result ++ take (suc room) dealt_now))
              (ap (λ cs. is_some (take (suc room) cs)) e))
      ∙ rw (e, rounds_idle (suc k) (ps ++ qs) e) refl

  turns_dealt :
      0 < length dealt_now
      → turns fuel base capacity
          (left_of (suc room - length (heads ps)) qs ++ left_of (suc room) ps)
          (result ++ take (suc room) dealt_now)
        ≡ some (
            result
            ++ take (suc room) dealt_now
            ++ take
                (suc room - length dealt_now)
                (rounds k (left_of (suc room) ps ++ left_of (suc room - length (heads ps)) qs)))
      → turns (suc fuel) base capacity (qs ++ ps) result
        ≡ some (result ++ take (suc room) (rounds (suc k) (ps ++ qs)))
  turns_dealt some_dealt next =
      let round = turn_round base capacity qs ps aligned some_ps (suc room) result h in
      turns_again fuel base capacity (qs ++ ps) result
        (left_of (suc room - length (heads ps)) qs ++ left_of (suc room) ps)
        (result ++ take (suc room) dealt_now) (omega (arith, h))
        (round
          ∙ ap
              (at (left_of (suc room - length (heads ps)) qs ++ left_of (suc room) ps)
                (result ++ take (suc room) dealt_now))
              (is_some-take room dealt_now some_dealt))
      ∙ next
      ∙ rw
          (
            rounds_suc k (ps ++ qs),
            take-append (suc room) dealt_now (rounds k (tails (ps ++ qs))),
            append_assoc result (take (suc room) dealt_now) (
                take (suc room - length dealt_now)
                  (rounds k (left_of (suc room) ps ++ left_of (suc room - length (heads ps)) qs))),
            round_left (suc room) k qs ps,
          )
          refl

-- The turns with room for `room` candidates more are that many rounds, cut at the room.
pub turns-rounds :
    (fuel base capacity room k : ℕ) (qs ps : List GlobalPlanFrontier)
    (result : List DispatchCandidate)
    → length qs ≡ base
    → 0 < length ps
    → length result + room ≡ capacity
    → room < fuel
    → room ≤ k
    → turns fuel base capacity (qs ++ ps) result ≡ some (result ++ take room (rounds k (ps ++ qs)))
turns-rounds zero base capacity room k qs ps result a s h enough le = absurd (omega arith)
turns-rounds (suc fuel) base capacity zero k qs ps result a s h enough le =
    turns_full fuel base capacity (qs ++ ps) result (omega (arith, h)) ∙ rw (append_nil result) refl
turns-rounds (suc fuel) base capacity (suc room) zero qs ps result a s h enough le =
    absurd (omega arith)
turns-rounds (suc fuel) base capacity (suc room) (suc k) qs ps result a s h enough le =
    split (heads (ps ++ qs)) refl (λ some_dealt.
      turns-rounds fuel base capacity (suc room - length (heads (ps ++ qs))) k
        (left_of (suc room - length (heads ps)) qs) (left_of (suc room) ps)
        (result ++ take (suc room) (heads (ps ++ qs)))
        (length-left_of (suc room - length (heads ps)) qs ∙ a)
        (omega (arith, s, length-left_of (suc room) ps))
        (omega (
          arith,
          h,
          length-append result (take (suc room) (heads (ps ++ qs))),
          length-take-room (suc room) (heads (ps ++ qs)),
        ))
        (omega (arith, some_dealt, enough)) (omega (arith, some_dealt, le)))
  where
    split :
        (cs : List DispatchCandidate)
        → heads (ps ++ qs) ≡ cs
        → (0 < length (heads (ps ++ qs))
            → turns fuel base capacity
                (left_of (suc room - length (heads ps)) qs ++ left_of (suc room) ps)
                (result ++ take (suc room) (heads (ps ++ qs)))
              ≡ some (
                  result
                  ++ take (suc room) (heads (ps ++ qs))
                  ++ take (suc room - length (heads (ps ++ qs))) (
                      rounds k
                        (left_of (suc room) ps ++ left_of (suc room - length (heads ps)) qs))))
        → turns (suc fuel) base capacity (qs ++ ps) result
          ≡ some (result ++ take (suc room) (rounds (suc k) (ps ++ qs)))
    split [] e next = turns_idle fuel base capacity room k qs ps result a s h e
    split (c ∷ cs) e next =
        let some_dealt : 0 < length (heads (ps ++ qs)) = rw e (omega arith) in
        turns_dealt fuel base capacity room k qs ps result a s h some_dealt (next some_dealt)
