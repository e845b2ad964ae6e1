-- ===== src/Server/Accept/Tests.antt =====
-- A server with one listener for TLS accepts a client and stops.
use iotd.Prelude.{
  ℕ, suc, ◌+◌, ◌≤◌, ◌≡◌, refl, Bytes, true, false, some, List, [], ◌∷◌, map, length, All,
  if◌then◌else◌, arith,
}
use iotd.Protocol.Packet.{ascii}
use iotd.Config.{Config, default_config}
use iotd.Server.Listen.{
  Net, Listener, bind, bind_all, bind_listener, bind_one, from_url, strip_prefix, tls_acceptor,
}
use iotd.Server.Serve.{Session, add_client, IsHeld, IsTold}
use iotd.Server.Accept.{
  Sockets, AsyncStream, LoopState, Listening, serve, accept, after_accept, Step, Steps,
}
use iotd.Server.Accept.Kept.{count, held, Steps-Kept}
use iotd.Server.Accept.Secure.{IsSecure, clients-IsSecure}
use iotd.Server.Accept.Held.{Steps-IsHeld}

-- The network counts its sockets and connections.
abbrev net : Net ℕ (ℕ × Bytes) Bytes
net = record {
  build_tls_acceptor = λ conf. some conf.cert_file;
  bind = λ addr n. (some (n, addr), suc n);
  local_addr = λ socket. some socket.1;
}

-- A connection is its number; every handshake succeeds.
abbrev sockets : Sockets ℕ (ℕ × Bytes) Bytes ℕ (Bytes × ℕ)
sockets = record {
  accept = λ socket n. (some n, suc n);
  handshake = λ acceptor c n. (some (acceptor, c), n);
}

abbrev secured : Config
secured = record default_config {
  listen = ascii "tls://a:8883" ∷ [];
  tls = some (record { cert_file = ascii "cert"; key_file = ascii "key" });
}

abbrev listener : Listener (ℕ × Bytes) Bytes
listener = Listener.tls_listener (0, ascii "a:8883") (ascii "cert")

abbrev bound : List (Listener (ℕ × Bytes) Bytes × Bytes)
bound = (listener, ascii "a:8883") ∷ []

abbrev State : Type 0
State = Listening ℕ (ℕ × Bytes) Bytes ℕ (Bytes × ℕ)

abbrev stream : AsyncStream ℕ (Bytes × ℕ)
stream = AsyncStream.tls_stream (ascii "cert", 1)

abbrev begun : State
begun = serve 1 (map (λ b. b.0) bound)

abbrev handle : Session
handle = record { id = ascii "s"; command_tx = 3 }

-- The listener accepts a client, and `serve` takes it out of the channel.
abbrev with_client : State
with_client = record begun {
  network = 2;
  loops = (listener, LoopState.accepting) ∷ [];
  serving = add_client handle begun.serving;
  accepted = stream ∷ [];
  clients = stream ∷ [];
}

one_client : Steps sockets begun with_client
unfolding serve accept after_accept
one_client =
    Steps.next
      (Steps.next (Steps.next Steps.here (Step.accepts [] [] listener refl))
        (Step.sends [] [] listener stream refl (omega arith)))
      (Step.receives handle stream [] refl refl tt)

Steps-Kept_example :
    (count (λ _. true) with_client.accepted
      ≡ count (λ _. true) with_client.clients
        + count (λ _. true) with_client.stream_rx
        + count (λ _. true) (held with_client.loops)
        + count (λ _. true) with_client.dropped)
    × (length with_client.stream_rx ≤ 64)
    × (with_client.serving.stopped ≡ false → with_client.dropped ≡ [])
Steps-Kept_example = Steps-Kept sockets 1 (listener ∷ []) one_client (λ _. true)

clients-IsSecure_example : All (IsSecure net sockets secured.tls) with_client.clients
unfolding bind bind_all bind_listener bind_one from_url strip_prefix tls_acceptor
clients-IsSecure_example = clients-IsSecure net sockets secured 0 1 bound (refl, tt) refl one_client

Steps-IsHeld_example :
    if with_client.serving.stopped
    then All (IsTold with_client.serving.cancelled) with_client.serving.sessions
    else All (IsHeld with_client.serving.handles) with_client.serving.sessions
Steps-IsHeld_example = Steps-IsHeld sockets 1 (listener ∷ []) one_client
