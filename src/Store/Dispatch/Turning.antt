-- ===== src/Store/Dispatch/Turning.antt =====
-- The inner dealing loop of internal/store/dispatch.go, over plans that stand one after the other.
use ai_engineer_workflow.Prelude.{
  ℕ, zero, suc, ◌+◌, ◌-◌, ◌%◌, ◌≤◌, ◌<◌, Bool, true, false, List, [], ◌∷◌, ◌++◌, ◌≡◌, refl, ap,
  length, take, arith, ◌||◌, sym, ◌∙◌, get_elem?, get_elem?-append, set-append, some, length-append,
}
use ai_engineer_workflow.Plan.Frontier.{FrontierTicket}
use ai_engineer_workflow.Store.Dispatch.{GlobalPlanFrontier, DispatchCandidate, Turns, serve, turn}
use ai_engineer_workflow.Store.Dispatch.Deal.{
  head, heads, one, left_of-one, left_of-cons, length-take-room, is_some, left_of, append_nil,
  append_assoc, take-append, head_none, head_first, left_of_none, tail_first, left_of_nil, take_nil,
  is_some-append,
}

module _ (n base capacity : ℕ) where
  turn_full :
      (left offset : ℕ) (st : Turns)
      → capacity ≤ length st.result
      → turn left offset n base capacity st ≡ st
  unfolding turn
  turn_full zero offset st h = refl
  turn_full (suc left) offset st h = ground arith

  pub turn_zero : (offset : ℕ) (st : Turns) → turn 0 offset n base capacity st ≡ st
  unfolding turn
  turn_zero offset st = refl

  turn_step :
      (left offset : ℕ) (st : Turns)
      → length st.result < capacity
      → turn (suc left) offset n base capacity st
        ≡ turn left
            (offset + 1)
            n
            base
            capacity
            (serve ((base + offset) % n) st (get_elem? st.plans ((base + offset) % n)))
  unfolding turn
  turn_step left offset st h = ground arith

  or_false : (b : Bool) → (b || false) ≡ b
  or_false true = refl
  or_false false = refl

  or_true : (b : Bool) → (b || true) ≡ true
  or_true true = refl
  or_true false = refl

  or_assoc : (a b c : Bool) → ((a || b) || c) ≡ (a || (b || c))
  or_assoc true b c = refl
  or_assoc false b c = refl

  module _ (p : GlobalPlanFrontier) (pre post : List GlobalPlanFrontier)
      (result : List DispatchCandidate) (progressed : Bool) where
    abbrev state : List GlobalPlanFrontier → List DispatchCandidate → Turns
    state mid more = record {
      plans = pre ++ (mid ++ post);
      result = result ++ more;
      progressed = progressed || is_some more;
    }

    abbrev start : Turns
    start = record { plans = pre ++ (p ∷ post); result = result; progressed = progressed }

    state_start : state (p ∷ []) [] ≡ start
    state_start = simp (append_nil result, or_false progressed) refl

    serve_none :
        (room : ℕ)
        → p.tickets ≡ []
        → serve (length pre) start (some p)
          ≡ state (left_of (suc room) (p ∷ [])) (take (suc room) (head p))
    serve_none room e =
        simp (head_none p room e, left_of_none p room e, state_start) (ground (arith, e))

    serve_first :
        (room : ℕ) (t : FrontierTicket) (ts : List FrontierTicket)
        → p.tickets ≡ t ∷ ts
        → serve (length pre) start (some p)
          ≡ state (left_of (suc room) (p ∷ [])) (take (suc room) (head p))
    serve_first room t ts e =
        simp
          (
            head_first p room t ts e,
            left_of_nil room,
            take_nil {A = DispatchCandidate} room,
            or_true progressed,
            e,
            set-append pre p (record p { tickets = ts }) post,
          )
          (simp (tail_first p room t ts e) refl)

    serve_one :
        (room : ℕ)
        → serve (length pre) start (some p)
          ≡ state (left_of (suc room) (p ∷ [])) (take (suc room) (head p))
    serve_one room = split p.tickets refl
      where
        split :
            (ts : List FrontierTicket)
            → p.tickets ≡ ts
            → serve (length pre) start (some p)
              ≡ state (left_of (suc room) (p ∷ [])) (take (suc room) (head p))
        split [] e = serve_none room e
        split (t ∷ ts) e = serve_first room t ts e

    turn_one :
        (left offset room : ℕ)
        → (base + offset) % n ≡ length pre
        → length result + room ≡ capacity
        → turn (suc left) offset n base capacity start
          ≡ turn left
              (offset + 1)
              n
              base
              capacity
              (state (left_of room (p ∷ [])) (take room (head p)))
    turn_one left offset zero index h =
        turn_full (suc left) offset start (omega (arith, h))
        ∙ sym (turn_full left (offset + 1) start (omega (arith, h)))
        ∙ ap (turn left (offset + 1) n base capacity) (sym state_start)
    turn_one left offset (suc room) index h =
        turn_step left offset start (omega (arith, h))
        ∙ rw (index, get_elem?-append pre p post)
            (ap (turn left (offset + 1) n base capacity) (serve_one room))

  -- The offsets of a part read its plans one after the other.
  abbrev pub Aligned : ℕ → List GlobalPlanFrontier → List GlobalPlanFrontier → Type 0
  Aligned offset mid pre = (j : ℕ) → j < length mid → (base + offset + j) % n ≡ length pre + j

  module _ (offset : ℕ) (p : GlobalPlanFrontier) (mid pre : List GlobalPlanFrontier)
      (index : Aligned offset (p ∷ mid) pre) where
    Aligned-first : (base + offset) % n ≡ length pre
    Aligned-first =
        let at = index 0 (omega arith) in
        let e : base + offset + 0 ≡ base + offset = omega arith in
        let f : length pre + 0 ≡ length pre = omega arith in rw⁻¹ e (at ∙ f)

    Aligned-rest : (q : GlobalPlanFrontier) → Aligned (offset + 1) mid (pre ++ (q ∷ []))
    Aligned-rest q j h =
        let e : base + offset + suc j ≡ base + (offset + 1) + j = omega arith in
        let f : length pre + suc j ≡ length (pre ++ (q ∷ [])) + j =
          omega (arith, length-append pre (q ∷ [])) in
        rw⁻¹ e (index (suc j) (omega (arith, h)) ∙ f)

  room_left :
      (room : ℕ) (p : GlobalPlanFrontier) (result : List DispatchCandidate)
      → length result + room ≡ capacity
      → length (result ++ take room (head p)) + (room - length (head p)) ≡ capacity
  room_left room p result h =
      omega (arith, h, length-append result (take room (head p)), length-take-room room (head p))

  -- The part of a turn over neighbouring plans.
  pub turn_segment :
      (mid pre post : List GlobalPlanFrontier)
      → (more offset room : ℕ) → (result : List DispatchCandidate) (progressed : Bool)
      → Aligned offset mid pre
      → length result + room ≡ capacity
      → turn
          (length mid + more)
          offset
          n
          base
          capacity
          (record { plans = pre ++ (mid ++ post); result = result; progressed = progressed })
        ≡ turn more (offset + length mid) n base capacity (record {
          plans = pre ++ (left_of room mid ++ post);
          result = result ++ take room (heads mid);
          progressed = progressed || is_some (take room (heads mid));
        })
  turn_segment [] pre post more offset room result progressed index h =
      let e : offset + 0 ≡ offset = omega arith in
      let m : 0 + more ≡ more = omega arith in
      rw m (
        simp
          (
            e,
            left_of_nil room,
            take_nil {A = DispatchCandidate} room,
            append_nil result,
            or_false progressed,
          )
          refl)
  turn_segment (p ∷ mid) pre post more offset room result progressed index h =
      let c : suc (length mid) + more ≡ suc (length mid + more) = omega arith in
      let room' = room - length (head p) in
      let q = one room p in
      let ih =
        turn_segment mid (pre ++ (q ∷ [])) post more (offset + 1) room'
          (result ++ take room (head p)) (progressed || is_some (take room (head p)))
          (Aligned-rest offset p mid pre index q) (room_left room p result h) in
      let o : offset + suc (length mid) ≡ offset + 1 + length mid = omega arith in
      rw (c, o)
        (turn_one p pre (mid ++ post) result progressed (length mid + more) offset room
            (Aligned-first offset p mid pre index) h
          ∙ simp
              (
                left_of-one room p,
                left_of-cons room p mid,
                take-append room (head p) (heads mid),
                is_some-append (take room (head p)) (take room' (heads mid)),
              )
              (simp
                (
                  append_assoc pre (q ∷ []) (mid ++ post),
                  append_assoc pre (q ∷ []) (left_of room' mid ++ post),
                  append_assoc result (take room (head p)) (take room' (heads mid)),
                  or_assoc progressed (is_some (take room (head p)))
                      (is_some (take room' (heads mid))),
                )
                at ih))
