-- ===== src/Server/Bound.antt =====
-- `bind` of src/server.rs: which listeners it makes.
use iotd.Prelude.{
  ◌≡◌, refl, Bytes, Bool, true, false, ◌||◌, Option, none, some, List, [], ◌∷◌, any, Bool-cases,
  inl, inr, nat_eq, if◌then◌else◌, arith,
}
use iotd.Config.{Config, TlsConfig}
use iotd.Server.Address.{IsTcp, IsTls, IsAddress, from_url-is_tls, from_url-IsAddress}
use iotd.Server.Listen.{
  Protocol, is_tls, from_url, Outcome, Net, Listener, Calls, ◌>>=◌, pure, returning, calling,
  or_startup_failed, acceptor_of, tls_acceptor, bind_one, socket_of, bind_listener, bind_all, bind,
}

-- It returns such a value or an error, and does not panic.
abbrev pub Ends : {A : Type 0} → Outcome A → (A → Type 0) → Type 0
Ends (Outcome.ok a) P = P a
Ends (Outcome.err e) P = Unit
Ends Outcome.panic P = ⊥

continue-Ends :
    {N A B : Type 0} (P : A → Type 0) (Q : B → Type 0) (k : A → Calls N B) (r : Outcome A × N)
    → Ends r.0 P
    → ((a : A) (n : N) → P a → Ends (k a n).0 Q)
    → (n : N) → Ends (((λ _. r) >>= k) n).0 Q
continue-Ends P Q k (Outcome.ok a, n') h f n = f a n' h
continue-Ends P Q k (Outcome.err e, n') h f n = tt
continue-Ends P Q k (Outcome.panic, n') h f n = absurd h

bind-Ends :
    {N A B : Type 0} (P : A → Type 0) (Q : B → Type 0) (m : Calls N A) (k : A → Calls N B) (n : N)
    → Ends (m n).0 P
    → ((a : A) (n' : N) → P a → Ends (k a n').0 Q)
    → Ends ((m >>= k) n).0 Q
bind-Ends P Q m k n h f = continue-Ends P Q k (m n) h f n

or_startup_failed-Ends : {A : Type 0} (o : Option A) → Ends (or_startup_failed o) (λ a. o ≡ some a)
or_startup_failed-Ends none = tt
or_startup_failed-Ends (some a) = refl

is_plain : (b : Bool) → Protocol.tcp ≡ (if b then Protocol.tcp_tls else Protocol.tcp) → b ≡ false
is_plain true e = ground (arith, e)
is_plain false e = refl

is_secure :
    (b : Bool) → Protocol.tcp_tls ≡ (if b then Protocol.tcp_tls else Protocol.tcp) → b ≡ true
is_secure true e = refl
is_secure false e = ground (arith, e)

later : (a b : Bool) → b ≡ true → (a || b) ≡ true
later true b e = refl
later false b e = e

module _ {N L A : Type 0} (net : Net N L A) where
  -- The acceptor that the section `tls` of the configuration gives.
  abbrev pub HasAcceptor : Option TlsConfig → Option A → Type 0
  HasAcceptor tls acceptor =
      (a : A) × (conf : TlsConfig) × (acceptor ≡ some a)
      × (tls ≡ some conf)
      × (net.build_tls_acceptor conf ≡ some a)

  -- A socket that was bound to the address.
  abbrev pub IsBound : Bytes → L → Type 0
  IsBound addr socket = (n : N) × ((net.bind addr n).0 ≡ some socket)

  -- The listener for a configured address: with TLS exactly where the address says so.
  abbrev pub ListensAt : Option TlsConfig → Bytes → Listener L A → Type 0
  ListensAt tls url (Listener.tcp_listener socket) =
      (is_tls url ≡ false) × (addr : Bytes) × IsTcp url addr × IsBound addr socket
  ListensAt tls url (Listener.tls_listener socket acceptor) =
      (is_tls url ≡ true)
      × (addr : Bytes) × IsTls url addr
      × IsBound addr socket
      × HasAcceptor tls (some acceptor)

  -- One listener for each address, in their order, each with its local address.
  abbrev pub Serves : Option TlsConfig → List Bytes → List (Listener L A × Bytes) → Type 0
  Serves tls [] [] = Unit
  Serves tls [] (x ∷ xs) = ⊥
  Serves tls (url ∷ urls) [] = ⊥
  Serves tls (url ∷ urls) ((listener, addr) ∷ rest) =
      ListensAt tls url listener
      × (net.local_addr (socket_of net listener) ≡ some addr)
      × Serves tls urls rest

  no_acceptor : (tls : Option TlsConfig) → HasAcceptor tls none → ⊥
  no_acceptor tls (a, conf, e, h, built) = cc e

  calling-Ends : (addr : Bytes) (n : N) → Ends (calling (net.bind addr) n).0 (IsBound addr)
  calling-Ends addr n = bound (net.bind addr n).0 refl
    where
      bound : (o : Option L) → (net.bind addr n).0 ≡ o → Ends (or_startup_failed o) (IsBound addr)
      bound none e = tt
      bound (some socket) e = (n, e)

  tls_acceptor-Ends :
      (config : Config)
      → Ends
          (tls_acceptor net config)
          (λ a. any is_tls config.listen ≡ true → HasAcceptor config.tls a)
  unfolding tls_acceptor
  tls_acceptor-Ends config = elim (Bool-cases (any is_tls config.listen)) [
    | inl wanted ↦ rw wanted (given config.tls)
    | inr plain ↦ rw (plain, tls_acceptor) (λ wanted. absurd (ground (arith, wanted)))
  ]
    where
      given :
          (tls : Option TlsConfig)
          → Ends (acceptor_of net tls) (λ a. true ≡ true → HasAcceptor tls a)
      given none = tt
      given (some conf) = built (net.build_tls_acceptor conf) refl
        where
          built :
              (o : Option A)
              → net.build_tls_acceptor conf ≡ o
              → Ends (acceptor_of net (some conf)) (λ a. true ≡ true → HasAcceptor (some conf) a)
          built none e = rw (acceptor_of, e) tt
          built (some a) e = rw (acceptor_of, e) (λ _. (a, conf, refl, refl, e))

  bind_one-Ends :
      (tls : Option TlsConfig) (acceptor : Option A) (url : Bytes) (p : Protocol) (addr : Bytes)
      → p ≡ (if is_tls url then Protocol.tcp_tls else Protocol.tcp)
      → IsAddress url p addr
      → (is_tls url ≡ true → HasAcceptor tls acceptor)
      → (n : N) → Ends (bind_one net acceptor (p, addr) n).0 (ListensAt tls url)
  unfolding bind_one
  bind_one-Ends tls acceptor url Protocol.tcp addr e a h n =
      bind-Ends (IsBound addr) (ListensAt tls url) (calling (net.bind addr))
        (λ socket. pure (Listener.tcp_listener socket)) n (calling-Ends addr n)
        (λ socket n' b. (is_plain (is_tls url) e, addr, a, b))
  bind_one-Ends tls none url Protocol.tcp_tls addr e a h n =
      absurd (no_acceptor tls (h (is_secure (is_tls url) e)))
  bind_one-Ends tls (some acceptor) url Protocol.tcp_tls addr e a h n =
      bind-Ends (IsBound addr) (ListensAt tls url) (calling (net.bind addr))
        (λ socket. pure (Listener.tls_listener socket acceptor)) n (calling-Ends addr n)
        (λ socket n' b. (is_secure (is_tls url) e, addr, a, b, h (is_secure (is_tls url) e)))
  bind_one-Ends tls acceptor url Protocol.web_socket addr e a h n = tt
  bind_one-Ends tls acceptor url Protocol.web_socket_secure addr e a h n = tt
  bind_one-Ends tls acceptor url Protocol.unix addr e a h n = tt

  abbrev Served : Option TlsConfig → Bytes → Listener L A × Bytes → Type 0
  Served tls url (listener, addr) =
      ListensAt tls url listener × (net.local_addr (socket_of net listener) ≡ some addr)

  bind_listener-Ends :
      (tls : Option TlsConfig) (acceptor : Option A) (url : Bytes)
      → (is_tls url ≡ true → HasAcceptor tls acceptor)
      → (n : N) → Ends (bind_listener net acceptor url n).0 (Served tls url)
  unfolding bind_listener
  bind_listener-Ends tls acceptor url h n =
      bind-Ends (ListensAt tls url) (Served tls url) (bind_one net acceptor (from_url url))
        (λ listener.
          returning (or_startup_failed (net.local_addr (socket_of net listener))) >>= λ addr.
          pure (listener, addr))
        n
        (bind_one-Ends tls acceptor url (from_url url).0 (from_url url).1 (from_url-is_tls url)
          (from_url-IsAddress url) h n)
        (λ listener n' l.
          bind-Ends (λ addr. net.local_addr (socket_of net listener) ≡ some addr) (Served tls url)
            (returning (or_startup_failed (net.local_addr (socket_of net listener))))
            (λ addr. pure (listener, addr)) n'
            (or_startup_failed-Ends (net.local_addr (socket_of net listener)))
            (λ addr n'' e. (l, e)))

  bind_all-Ends :
      (tls : Option TlsConfig) (acceptor : Option A) (urls : List Bytes)
      → (any is_tls urls ≡ true → HasAcceptor tls acceptor)
      → (n : N) → Ends (bind_all net acceptor urls n).0 (Serves tls urls)
  unfolding bind_all
  bind_all-Ends tls acceptor [] h n = tt
  bind_all-Ends tls acceptor (url ∷ urls) h n =
      bind-Ends (Served tls url) (Serves tls (url ∷ urls)) (bind_listener net acceptor url)
        (λ l. bind_all net acceptor urls >>= λ ls. pure (l ∷ ls)) n
        (bind_listener-Ends tls acceptor url (λ e. h (rw e refl)) n)
        (λ l n' served.
          bind-Ends (Serves tls urls) (Serves tls (url ∷ urls)) (bind_all net acceptor urls)
            (λ ls. pure (l ∷ ls)) n'
            (bind_all-Ends tls acceptor urls (λ e. h (later (is_tls url) (any is_tls urls) e)) n')
            (λ ls n'' rest. (served.0, served.1, rest)))

  -- `Server::bind` returns an error or one listener for each configured address, in their order: with TLS
  -- and bound to the rest where the address is `tls://` and a rest, without TLS and bound to the rest where
  -- it is `tcp://` and a rest, or to the whole where it has neither prefix; with TLS by an acceptor for the
  -- section `tls` of the configuration, and with its local address. It does not panic.
  pub bind-Serves :
      (config : Config) (n : N) → Ends (bind net config n).0 (Serves config.tls config.listen)
  unfolding bind
  bind-Serves config n =
      bind-Ends (λ a. any is_tls config.listen ≡ true → HasAcceptor config.tls a)
        (Serves config.tls config.listen) (returning (tls_acceptor net config))
        (λ a. bind_all net a config.listen) n (tls_acceptor-Ends config)
        (λ a n' h. bind_all-Ends config.tls a config.listen h n')
