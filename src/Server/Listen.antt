-- ===== src/Server/Listen.antt =====
-- src/transport.rs (`Protocol`) and `bind` of src/server.rs: the listeners for the configured addresses.
-- Sockets and TLS are parameters over a state of the network.
use iotd.Prelude.{
  is_some, Bytes, Bool, Option, none, some, List, [], ◌∷◌, any, ◌==◌, nat_eq, if◌then◌else◌,
}
use iotd.Protocol.Packet.{ascii}
use iotd.Config.{Config, TlsConfig}

pub data Protocol : Type 0 where
  tcp tcp_tls web_socket web_socket_secure unix : Protocol

-- `url.strip_prefix(prefix)`
unfoldable pub strip_prefix : Bytes → Bytes → Option Bytes
strip_prefix [] url = some url
strip_prefix (p ∷ prefix) [] = none
strip_prefix (p ∷ prefix) (c ∷ url) =
    let rest = strip_prefix prefix url in if p == c then rest else none

-- `listen.starts_with("tls://")`
abbrev pub is_tls : Bytes → Bool
is_tls url = is_some (strip_prefix (ascii "tls://") url)

-- It never returns an error.
unfoldable pub from_url : Bytes → Protocol × Bytes
from_url url = elim (strip_prefix (ascii "tcp://") url) [
  | some addr ↦ (Protocol.tcp, addr)
  | none ↦ elim (strip_prefix (ascii "tls://") url) [
    | some addr ↦ (Protocol.tcp_tls, addr)
    | none ↦ (Protocol.tcp, url)
  ]
]

pub data ServerError : Type 0 where
  startup_failed io storage auth : ServerError

-- A call returns, or it panics.
pub data Outcome {ℓ} (A : Type ℓ) : Type ℓ where
  ok : A → Outcome A
  err : ServerError → Outcome A
  panic : Outcome A

-- The network `N`: sockets `L` and acceptors `A` of TLS; `none` is an error.
pub record Net (N L A : Type 0) : Type 0 where
  pub build_tls_acceptor : TlsConfig → Option A
  pub bind : Bytes → N → Option L × N
  pub local_addr : L → Option Bytes

-- `Box<dyn AsyncListener>`
pub data Listener (L A : Type 0) : Type 0 where
  tcp_listener : L → Listener L A
  tls_listener : L → A → Listener L A

abbrev pub Calls : Type 0 → Type 0 → Type 0
Calls N A = N → Outcome A × N

-- `.map_err(|e| ServerError::StartupFailed(..))?`
abbrev pub or_startup_failed : {A : Type 0} → Option A → Outcome A
or_startup_failed none = Outcome.err ServerError.startup_failed
or_startup_failed (some a) = Outcome.ok a

module _ {N : Type 0} where
  infixl 10 ◌>>=◌
  abbrev pub ◌>>=◌ : {A B : Type 0} → Calls N A → (A → Calls N B) → Calls N B
  (m >>= k) n = elim (m n).0 [
    | Outcome.ok a ↦ k a (m n).1
    | Outcome.err e ↦ (Outcome.err e, (m n).1)
    | Outcome.panic ↦ (Outcome.panic, (m n).1)
  ]

  abbrev pub pure : {A : Type 0} → A → Calls N A
  pure a n = (Outcome.ok a, n)

  abbrev pub calling : {A : Type 0} → (N → Option A × N) → Calls N A
  calling m n = (or_startup_failed (m n).0, (m n).1)

  abbrev pub returning : {A : Type 0} → Outcome A → Calls N A
  returning r n = (r, n)

module _ {N L A : Type 0} (net : Net N L A) where
  abbrev pub acceptor_of : Option TlsConfig → Outcome (Option A)
  acceptor_of none = Outcome.err ServerError.startup_failed
  acceptor_of (some tls_config) = elim (net.build_tls_acceptor tls_config) [
    | none ↦ Outcome.err ServerError.startup_failed
    | some acceptor ↦ Outcome.ok (some acceptor)
  ]

  unfoldable pub tls_acceptor : Config → Outcome (Option A)
  tls_acceptor config = if any is_tls config.listen then acceptor_of config.tls else Outcome.ok none

  -- `tls_acceptor.clone().unwrap()`
  abbrev pub unwrap : Option A → Outcome A
  unwrap none = Outcome.panic
  unwrap (some acceptor) = Outcome.ok acceptor

  unfoldable pub bind_one : Option A → Protocol × Bytes → Calls N (Listener L A)
  bind_one acceptor (Protocol.tcp, addr) = do
    socket ← calling (net.bind addr)
    pure (Listener.tcp_listener socket)
  bind_one acceptor (Protocol.tcp_tls, addr) = do
    a ← returning (unwrap acceptor)
    socket ← calling (net.bind addr)
    pure (Listener.tls_listener socket a)
  bind_one acceptor (Protocol.web_socket, addr) = returning (Outcome.err ServerError.startup_failed)
  bind_one acceptor (Protocol.web_socket_secure, addr) =
      returning (Outcome.err ServerError.startup_failed)
  bind_one acceptor (Protocol.unix, addr) = returning (Outcome.err ServerError.startup_failed)

  abbrev pub socket_of : Listener L A → L
  socket_of (Listener.tcp_listener socket) = socket
  socket_of (Listener.tls_listener socket acceptor) = socket

  -- One turn of the loop: the listener and its local address.
  unfoldable pub bind_listener : Option A → Bytes → Calls N (Listener L A × Bytes)
  bind_listener acceptor listen_addr = do
    listener ← bind_one acceptor (from_url listen_addr)
    bound_addr ← returning (or_startup_failed (net.local_addr (socket_of listener)))
    pure (listener, bound_addr)

  unfoldable pub bind_all : Option A → List Bytes → Calls N (List (Listener L A × Bytes))
  bind_all acceptor [] = pure []
  bind_all acceptor (listen_addr ∷ rest) = do
    listener ← bind_listener acceptor listen_addr
    listeners ← bind_all acceptor rest
    pure (listener ∷ listeners)

  -- `Server::bind`
  unfoldable pub bind : Config → Calls N (List (Listener L A × Bytes))
  bind config = do acceptor ← returning (tls_acceptor config); bind_all acceptor config.listen
