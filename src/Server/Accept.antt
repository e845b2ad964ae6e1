-- ===== src/Server/Accept.antt =====
-- `accept` of the listeners of src/transport.rs; `accept_loop`, `serve` and `stop` of src/server.rs. A step
-- is what one of the concurrent tasks does between two of its awaits.
pub mod Kept
pub mod Secure
pub mod Held
mod Tests
use iotd.Prelude.{
  ℕ, ◌≡◌, ◌<◌, Bytes, Bool, true, false, Option, none, some, List, [], ◌∷◌, ◌++◌, map, length, All,
}
use iotd.Server.Listen.{Listener}
use iotd.Server.Serve.{
  Session, Serving, started, add_client, end_session, reap, cancel_all_sessions, IsFresh,
}

-- `TcpListener::accept` and `TlsAcceptor::accept` over the network `N`; `none` is an error.
pub record Sockets (N L A C T : Type 0) : Type 0 where
  pub accept : L → N → Option C × N
  pub handshake : A → C → N → Option T × N

-- `Box<dyn AsyncStream>`
pub data AsyncStream (C T : Type 0) : Type 0 where
  tcp_stream : C → AsyncStream C T
  tls_stream : T → AsyncStream C T

-- `accept_loop` waits for a connection, waits to send a stream to `serve`, or has ended.
pub data LoopState (C T : Type 0) : Type 0 where
  accepting finished : LoopState C T
  sending : AsyncStream C T → LoopState C T

abbrev pub Loop : Type 0 → Type 0 → Type 0 → Type 0 → Type 0
Loop L A C T = Listener L A × LoopState C T

-- `stream_rx` is what the channel holds. The last three fields are the history: the streams that the
-- listeners accepted, those that became clients, and those that were lost when `serve` dropped the channel.
pub record Listening (N L A C T : Type 0) : Type 0 where
  pub network : N
  pub loops : List (Loop L A C T)
  pub stream_rx : List (AsyncStream C T)
  pub cancelled : Bool
  pub serving : Serving
  pub accepted : List (AsyncStream C T)
  pub clients : List (AsyncStream C T)
  pub dropped : List (AsyncStream C T)

-- `mpsc::channel(64)`
abbrev pub channel_capacity : ℕ
channel_capacity = 64

abbrev pub to_list : {X : Type 0} → Option X → List X
to_list none = []
to_list (some x) = x ∷ []

-- `serve` when it begins.
unfoldable pub serve : {N L A C T : Type 0} → N → List (Listener L A) → Listening N L A C T
serve n listeners = record {
  network = n;
  loops = map (λ l. (l, LoopState.accepting)) listeners;
  stream_rx = [];
  cancelled = false;
  serving = started;
  accepted = [];
  clients = [];
  dropped = [];
}

module _ {N L A C T : Type 0} (sockets : Sockets N L A C T) where
  abbrev pub tcp_accepted : Option C × N → Option (AsyncStream C T) × N
  tcp_accepted (none, n) = (none, n)
  tcp_accepted (some stream, n) = (some (AsyncStream.tcp_stream stream), n)

  abbrev pub tls_accepted : Option T × N → Option (AsyncStream C T) × N
  tls_accepted (none, n) = (none, n)
  tls_accepted (some stream, n) = (some (AsyncStream.tls_stream stream), n)

  abbrev pub with_handshake : A → Option C × N → Option (AsyncStream C T) × N
  with_handshake acceptor (none, n) = (none, n)
  with_handshake acceptor (some stream, n) = tls_accepted (sockets.handshake acceptor stream n)

  -- `AsyncListener::accept`
  unfoldable pub accept : Listener L A → N → Option (AsyncStream C T) × N
  accept (Listener.tcp_listener socket) n = tcp_accepted (sockets.accept socket n)
  accept (Listener.tls_listener socket acceptor) n =
      with_handshake acceptor (sockets.accept socket n)

  -- The `match accept_result`: an error is logged, and the loop goes on.
  unfoldable pub after_accept : Option (AsyncStream C T) → LoopState C T
  after_accept (some stream) = LoopState.sending stream
  after_accept none = LoopState.accepting

  pub data Step : Listening N L A C T → Listening N L A C T → Type 0 where
    accepts :
        {s : Listening N L A C T} (before after : List (Loop L A C T)) (l : Listener L A)
        → s.loops ≡ before ++ (l, LoopState.accepting) ∷ after
        → Step s (record s {
          network = (accept l s.network).1;
          loops = before ++ (l, after_accept (accept l s.network).0) ∷ after;
          accepted = s.accepted ++ to_list (accept l s.network).0;
        })
    sends :
        {s : Listening N L A C T} (before after : List (Loop L A C T)) (l : Listener L A)
        (stream : AsyncStream C T)
        → s.loops ≡ before ++ (l, LoopState.sending stream) ∷ after
        → length s.stream_rx < channel_capacity
        → Step s (record s {
          loops = before ++ (l, LoopState.accepting) ∷ after;
          stream_rx = s.stream_rx ++ stream ∷ [];
        })
    -- `stream_tx.send(stream)` fails once `serve` has dropped the receiver.
    refused :
        {s : Listening N L A C T} (before after : List (Loop L A C T)) (l : Listener L A)
        (stream : AsyncStream C T)
        → s.loops ≡ before ++ (l, LoopState.sending stream) ∷ after
        → s.serving.stopped ≡ true
        → Step s (record s {
          loops = before ++ (l, LoopState.finished) ∷ after;
          dropped = s.dropped ++ stream ∷ [];
        })
    finishes :
        {s : Listening N L A C T} (before after : List (Loop L A C T)) (l : Listener L A)
        → s.loops ≡ before ++ (l, LoopState.accepting) ∷ after
        → s.cancelled ≡ true
        → Step s (record s { loops = before ++ (l, LoopState.finished) ∷ after })
    cancels : {s : Listening N L A C T} → Step s (record s { cancelled = true })
    receives :
        {s : Listening N L A C T} (handle : Session) (stream : AsyncStream C T)
        (rest : List (AsyncStream C T))
        → s.stream_rx ≡ stream ∷ rest
        → s.serving.stopped ≡ false
        → IsFresh handle.id s.serving.sessions
        → Step s (record s {
          stream_rx = rest;
          serving = add_client handle s.serving;
          clients = s.clients ++ stream ∷ [];
        })
    session_ends :
        {s : Listening N L A C T} (id : Bytes)
        → Step s (record s { serving = end_session id s.serving })
    reaped :
        {s : Listening N L A C T} (id : Bytes)
        → Step s (record s { serving = record s.serving { sessions = reap id s.serving.sessions } })
    stops :
        {s : Listening N L A C T}
        → All (λ l. l.1 ≡ LoopState.finished) s.loops
        → s.serving.stopped ≡ false
        → Step s (record s {
          stream_rx = [];
          serving = cancel_all_sessions s.serving;
          dropped = s.dropped ++ s.stream_rx;
        })

  pub data Steps (s : Listening N L A C T) : Listening N L A C T → Type 0 where
    here : Steps s s
    next : {t u : Listening N L A C T} → Steps s t → Step t u → Steps s u
