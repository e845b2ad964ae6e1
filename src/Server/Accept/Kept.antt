-- ===== src/Server/Accept/Kept.antt =====
-- Between the listeners and the sessions no stream is lost or doubled.
use iotd.Prelude.{
  ℕ, suc, ◌+◌, ◌≤◌, ◌≡◌, refl, ◌∙◌, Bool, true, false, Option, none, some, List, [], ◌∷◌, ◌++◌, map,
  ap, length, length-append, if◌then◌else◌, arith,
}
use iotd.Server.Listen.{Listener}
use iotd.Server.Serve.{add_client, end_session, cancel_all_sessions}
use iotd.Server.Accept.{
  Sockets, AsyncStream, LoopState, Loop, Listening, channel_capacity, to_list, serve, accept,
  after_accept, Step, Steps,
}

module _ {X : Type 0} (test : X → Bool) where
  -- How many elements pass a test.
  pub count : List X → ℕ
  count [] = 0
  count (x ∷ xs) = if test x then suc (count xs) else count xs

  count-append : (xs ys : List X) → count (xs ++ ys) ≡ count xs + count ys
  unfolding count
  count-append [] ys = omega arith
  count-append (x ∷ xs) ys = ground (arith, count-append xs ys)

true≢false : {b : Bool} → b ≡ true → b ≡ false → ⊥
true≢false h k = ground (arith, h, k)

-- The stream that a loop holds until the channel takes it.
abbrev pub held : {L A C T : Type 0} → List (Loop L A C T) → List (AsyncStream C T)
held [] = []
held ((l, LoopState.sending stream) ∷ loops) = stream ∷ held loops
held ((l, LoopState.accepting) ∷ loops) = held loops
held ((l, LoopState.finished) ∷ loops) = held loops

held-append :
    {L A C T : Type 0} (before loops : List (Loop L A C T))
    → held (before ++ loops) ≡ held before ++ held loops
held-append [] loops = refl
held-append ((l, LoopState.sending stream) ∷ before) loops =
    ap (◌∷◌ stream) (held-append before loops)
held-append ((l, LoopState.accepting) ∷ before) loops = held-append before loops
held-append ((l, LoopState.finished) ∷ before) loops = held-append before loops

module _ {N L A C T : Type 0} (sockets : Sockets N L A C T) (test : AsyncStream C T → Bool) where
  -- The streams are those of the clients, of the channel, of the loops, and the lost ones.
  abbrev pub IsKept : Listening N L A C T → Type 0
  IsKept s =
      count test s.accepted
      ≡ count test s.clients
        + count test s.stream_rx
        + count test (held s.loops)
        + count test s.dropped

  count-nil : count test [] ≡ 0
  unfolding count
  count-nil = refl

  -- A loop's part in what all loops hold.
  in_state : LoopState C T → ℕ
  in_state (LoopState.sending stream) = count test (stream ∷ [])
  in_state LoopState.accepting = 0
  in_state LoopState.finished = 0

  count-held-cons :
      (l : Listener L A) (state : LoopState C T) (after : List (Loop L A C T))
      → count test (held ((l, state) ∷ after)) ≡ in_state state + count test (held after)
  unfolding count in_state
  count-held-cons l (LoopState.sending stream) after = ground arith
  count-held-cons l LoopState.accepting after = omega arith
  count-held-cons l LoopState.finished after = omega arith

  count-held :
      (before after : List (Loop L A C T)) (l : Listener L A) (state : LoopState C T)
      → count test (held (before ++ (l, state) ∷ after))
        ≡ count test (held before) + in_state state + count test (held after)
  count-held before after l state = omega (
    arith,
    ap (count test) (held-append before ((l, state) ∷ after)),
    count-append test (held before) (held ((l, state) ∷ after)),
    count-held-cons l state after,
  )

  -- The same at a loop of the server.
  count-held-at :
      {loops : List (Loop L A C T)} (before after : List (Loop L A C T)) (l : Listener L A)
      (state : LoopState C T)
      → loops ≡ before ++ (l, state) ∷ after
      → count test (held loops)
        ≡ count test (held before) + in_state state + count test (held after)
  count-held-at before after l state e =
      ap (λ ls. count test (held ls)) e ∙ count-held before after l state

  accepted-state :
      (o : Option (AsyncStream C T)) → in_state (after_accept sockets o) ≡ count test (to_list o)
  unfolding in_state after_accept count
  accepted-state none = refl
  accepted-state (some stream) = refl

  Step-IsKept : {s t : Listening N L A C T} → Step sockets s t → IsKept s → IsKept t
  unfolding in_state
  Step-IsKept (Step.accepts {s} before after l e) h =
      let found = (accept sockets l s.network).0 in
      omega (
        arith,
        count-append test s.accepted (to_list found),
        count-held-at before after l LoopState.accepting e,
        count-held before after l (after_accept sockets found),
        accepted-state found,
      )
  Step-IsKept (Step.sends {s} before after l stream e room) h = omega (
    arith,
    count-append test s.stream_rx (stream ∷ []),
    count-held-at before after l (LoopState.sending stream) e,
    count-held before after l LoopState.accepting,
  )
  Step-IsKept (Step.refused {s} before after l stream e stopped) h = omega (
    arith,
    count-append test s.dropped (stream ∷ []),
    count-held-at before after l (LoopState.sending stream) e,
    count-held before after l LoopState.finished,
  )
  Step-IsKept (Step.finishes before after l e cancelled) h = omega (
    arith,
    count-held-at before after l LoopState.accepting e,
    count-held before after l LoopState.finished,
  )
  Step-IsKept Step.cancels h = h
  Step-IsKept (Step.receives {s} handle stream rest e serving fresh) h = omega (
    arith,
    ap (count test) e,
    count-append test (stream ∷ []) rest,
    count-append test s.clients (stream ∷ []),
  )
  Step-IsKept (Step.session_ends id) h = h
  Step-IsKept (Step.reaped id) h = h
  Step-IsKept (Step.stops {s} done serving) h =
      omega (arith, count-append test s.dropped s.stream_rx, count-nil)

  serve-held :
      (listeners : List (Listener L A))
      → count test (held (map (λ l. (l, LoopState.accepting)) listeners)) ≡ 0
  serve-held [] = count-nil
  serve-held (l ∷ listeners) = serve-held listeners

  Steps-IsKept :
      (n : N) (listeners : List (Listener L A)) {s : Listening N L A C T}
      → Steps sockets (serve n listeners) s
      → IsKept s
  unfolding serve
  Steps-IsKept n listeners Steps.here = omega (arith, serve-held listeners, count-nil)
  Steps-IsKept n listeners (Steps.next r st) = Step-IsKept st (Steps-IsKept n listeners r)

module _ {N L A C T : Type 0} (sockets : Sockets N L A C T) where
  -- The channel's bound, and nothing is lost before `serve` stops.
  abbrev IsBounded : Listening N L A C T → Type 0
  IsBounded s =
      (length s.stream_rx ≤ channel_capacity) × (s.serving.stopped ≡ false → s.dropped ≡ [])

  Step-IsBounded : {s t : Listening N L A C T} → Step sockets s t → IsBounded s → IsBounded t
  unfolding add_client end_session cancel_all_sessions
  Step-IsBounded (Step.accepts before after l e) h = h
  Step-IsBounded (Step.sends {s} before after l stream e room) h =
      (omega (arith, length-append s.stream_rx (stream ∷ [])), h.1)
  Step-IsBounded (Step.refused before after l stream e stopped) h =
      (h.0, λ serving. absurd (true≢false stopped serving))
  Step-IsBounded (Step.finishes before after l e cancelled) h = h
  Step-IsBounded Step.cancels h = h
  Step-IsBounded (Step.receives handle stream rest e serving fresh) h =
      (omega (arith, ap length e, h.0), h.1)
  Step-IsBounded (Step.session_ends id) h = h
  Step-IsBounded (Step.reaped id) h = h
  Step-IsBounded (Step.stops done serving) h = (omega arith, λ e. absurd (true≢false refl e))

  Steps-IsBounded :
      (n : N) (listeners : List (Listener L A)) {s : Listening N L A C T}
      → Steps sockets (serve n listeners) s
      → IsBounded s
  unfolding serve
  Steps-IsBounded n listeners Steps.here = (omega arith, λ _. refl)
  Steps-IsBounded n listeners (Steps.next r st) = Step-IsBounded st (Steps-IsBounded n listeners r)

  -- Whatever the tasks do, every stream that a listener accepted has become one client, or waits in the
  -- channel, which holds 64 at most, or in its loop, or was lost: as many streams pass any test on the one
  -- side as on the other. None is lost before `serve` stops.
  pub Steps-Kept :
      (n : N) (listeners : List (Listener L A)) {s : Listening N L A C T}
      → Steps sockets (serve n listeners) s
      → (test : AsyncStream C T → Bool)
      → (count test s.accepted
          ≡ count test s.clients
            + count test s.stream_rx
            + count test (held s.loops)
            + count test s.dropped)
        × (length s.stream_rx ≤ 64)
        × (s.serving.stopped ≡ false → s.dropped ≡ [])
  Steps-Kept n listeners r test =
      let bounded = Steps-IsBounded n listeners r in
      (Steps-IsKept sockets test n listeners r, bounded.0, bounded.1)
