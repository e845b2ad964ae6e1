-- ===== src/Server/Accept/Secure.antt =====
-- A server of src/server.rs with `tls://` addresses only has no client without TLS.
use iotd.Prelude.{
  ◌≡◌, refl, ap, subst, Bytes, true, Option, none, some, List, [], ◌∷◌, ◌++◌, map, All, arith,
}
use iotd.Config.{Config, TlsConfig}
use iotd.Server.Listen.{Net, Listener, Outcome, is_tls, bind}
use iotd.Server.Bound.{Ends, Serves, HasAcceptor, bind-Serves}
use iotd.Server.Accept.{
  Sockets, AsyncStream, LoopState, Loop, Listening, serve, accept, tls_accepted, with_handshake,
  after_accept, Step, Steps,
}

module _ {X : Type 0} (P : X → Type 0) where
  All-append : (xs ys : List X) → All P xs → All P ys → All P (xs ++ ys)
  All-append [] ys h k = k
  All-append (x ∷ xs) ys (p, h) k = (p, All-append xs ys h k)

  -- One place of a list, with the others around it.
  All-at : (before after : List X) (x : X) → All P (before ++ x ∷ after) → P x
  All-at [] after x h = h.0
  All-at (y ∷ before) after x h = All-at before after x h.1

  All-set :
      (before after : List X) (x y : X)
      → P y
      → All P (before ++ x ∷ after)
      → All P (before ++ y ∷ after)
  All-set [] after x y p h = (p, h.1)
  All-set (z ∷ before) after x y p h = (h.0, All-set before after x y p h.1)

module _ {N L A C T : Type 0} (net : Net N L A) (sockets : Sockets N L A C T)
    (tls : Option TlsConfig) where
  -- A stream after a handshake by the acceptor that was built from the section `tls`.
  abbrev pub IsSecure : AsyncStream C T → Type 0
  IsSecure (AsyncStream.tcp_stream c) = ⊥
  IsSecure (AsyncStream.tls_stream t) =
      (a : A) × (c : C) × (n : N) × HasAcceptor net tls (some a)
      × ((sockets.handshake a c n).0 ≡ some t)

  abbrev IsSecureListener : Listener L A → Type 0
  IsSecureListener (Listener.tcp_listener socket) = ⊥
  IsSecureListener (Listener.tls_listener socket a) = HasAcceptor net tls (some a)

  abbrev IsSecureState : LoopState C T → Type 0
  IsSecureState (LoopState.sending stream) = IsSecure stream
  IsSecureState LoopState.accepting = Unit
  IsSecureState LoopState.finished = Unit

  abbrev IsSecureLoop : Loop L A C T → Type 0
  IsSecureLoop (l, state) = IsSecureListener l × IsSecureState state

  abbrev IsSecureServer : Listening N L A C T → Type 0
  IsSecureServer s = All IsSecureLoop s.loops × All IsSecure s.stream_rx × All IsSecure s.clients

  after-IsSecure :
      (a : A) (c : C) (n : N) (o : Option T × N)
      → HasAcceptor net tls (some a)
      → sockets.handshake a c n ≡ o
      → IsSecureState (after_accept sockets (tls_accepted sockets o).0)
  unfolding after_accept
  after-IsSecure a c n (none, n') h e = tt
  after-IsSecure a c n (some t, n') h e = (a, c, n, h, ap (λ p. p.0) e)

  accept-IsSecure :
      (l : Listener L A) (n : N)
      → IsSecureListener l
      → IsSecureState (after_accept sockets (accept sockets l n).0)
  unfolding accept after_accept
  accept-IsSecure (Listener.tcp_listener socket) n h = absurd h
  accept-IsSecure (Listener.tls_listener socket a) n h = connected (sockets.accept socket n)
    where
      connected :
          (o : Option C × N) → IsSecureState (after_accept sockets (with_handshake sockets a o).0)
      connected (none, n') = tt
      connected (some c, n') = after-IsSecure a c n' (sockets.handshake a c n') h refl

  Step-IsSecure :
      {s t : Listening N L A C T} → Step sockets s t → IsSecureServer s → IsSecureServer t
  Step-IsSecure (Step.accepts {s} before after l e) (loops, queue, clients) =
      let here = subst (All IsSecureLoop) e loops in
      (
        All-set IsSecureLoop before after (l, LoopState.accepting) _
            (
              (All-at IsSecureLoop before after (l, LoopState.accepting) here).0,
              accept-IsSecure l s.network
                  (All-at IsSecureLoop before after (l, LoopState.accepting) here).0,
            )
            here,
        queue,
        clients,
      )
  Step-IsSecure (Step.sends {s} before after l stream e room) (loops, queue, clients) =
      let here = subst (All IsSecureLoop) e loops in
      let found = All-at IsSecureLoop before after (l, LoopState.sending stream) here in
      (
        All-set IsSecureLoop before after (l, LoopState.sending stream) _ (found.0, tt) here,
        All-append IsSecure s.stream_rx (stream ∷ []) queue (found.1, tt),
        clients,
      )
  Step-IsSecure (Step.refused before after l stream e stopped) (loops, queue, clients) =
      let here = subst (All IsSecureLoop) e loops in
      let found = All-at IsSecureLoop before after (l, LoopState.sending stream) here in
      (
        All-set IsSecureLoop before after (l, LoopState.sending stream) _ (found.0, tt) here,
        queue,
        clients,
      )
  Step-IsSecure (Step.finishes before after l e cancelled) (loops, queue, clients) =
      let here = subst (All IsSecureLoop) e loops in
      let found = All-at IsSecureLoop before after (l, LoopState.accepting) here in
      (
        All-set IsSecureLoop before after (l, LoopState.accepting) _ (found.0, tt) here,
        queue,
        clients,
      )
  Step-IsSecure Step.cancels h = h
  Step-IsSecure (Step.receives {s} handle stream rest e serving fresh) (loops, queue, clients) =
      let here = subst (All IsSecure) e queue in
      (loops, here.1, All-append IsSecure s.clients (stream ∷ []) clients (here.0, tt))
  Step-IsSecure (Step.session_ends id) h = h
  Step-IsSecure (Step.reaped id) h = h
  Step-IsSecure (Step.stops done serving) (loops, queue, clients) = (loops, tt, clients)

  -- What `bind` returned for `tls://` addresses.
  Serves-IsSecure :
      (urls : List Bytes) (bound : List (Listener L A × Bytes))
      → All (λ url. is_tls url ≡ true) urls
      → Serves net tls urls bound
      → All IsSecureLoop (map (λ l. (l, LoopState.accepting)) (map (λ b. b.0) bound))
  Serves-IsSecure [] [] h served = tt
  Serves-IsSecure [] (b ∷ bound) h served = absurd served
  Serves-IsSecure (url ∷ urls) [] h served = absurd served
  Serves-IsSecure (url ∷ urls) ((Listener.tcp_listener socket, addr) ∷ bound) (p, h) served =
      absurd (ground (arith, p, served.0.0))
  Serves-IsSecure (url ∷ urls) ((Listener.tls_listener socket a, addr) ∷ bound) (p, h) served =
      ((served.0.4, tt), Serves-IsSecure urls bound h served.2)

  Steps-IsSecure :
      (m : N) (listeners : List (Listener L A))
      → All IsSecureLoop (map (λ l. (l, LoopState.accepting)) listeners)
      → {s : Listening N L A C T} → Steps sockets (serve m listeners) s
      → IsSecureServer s
  unfolding serve
  Steps-IsSecure m listeners h Steps.here = (h, tt, tt)
  Steps-IsSecure m listeners h (Steps.next r st) = Step-IsSecure st (Steps-IsSecure m listeners h r)

module _ {N L A C T : Type 0} (net : Net N L A) (sockets : Sockets N L A C T) where
  -- Where every configured address is a `tls://` address and `bind` returns these listeners, whatever the
  -- tasks then do, every client's stream is the result of a handshake with the acceptor for the section
  -- `tls` of the configuration.
  pub clients-IsSecure :
      (config : Config) (n m : N) (bound : List (Listener L A × Bytes)) {s : Listening N L A C T}
      → All (λ url. is_tls url ≡ true) config.listen
      → (bind net config n).0 ≡ Outcome.ok bound
      → Steps sockets (serve m (map (λ b. b.0) bound)) s
      → All (IsSecure net sockets config.tls) s.clients
  clients-IsSecure config n m bound all returned r =
      (Steps-IsSecure net sockets config.tls m (map (λ b. b.0) bound)
        (Serves-IsSecure net sockets config.tls config.listen bound all (
          subst (λ o. Ends o (Serves net config.tls config.listen)) returned
            (bind-Serves net config n)))
        r).2
