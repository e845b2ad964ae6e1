-- ===== src/Server/Address.antt =====
-- `Protocol::from_url` of src/transport.rs: what it takes for the protocol and for the address.
use iotd.Prelude.{
  ◌≡◌, refl, Bytes, true, false, none, some, [], ◌∷◌, Bool-cases, ◌≢◌, ◌⊎◌, ◌++◌, sym, ◌∙◌, ap,
  beq_refl, nat_beq_iff, Option-cases, inl, inr, nat_eq, if◌then◌else◌, arith,
}
use iotd.Protocol.Packet.{ascii}
use iotd.Server.Listen.{Protocol, strip_prefix, is_tls, from_url}

no_tcp : (url : Bytes) → is_tls url ≡ true → strip_prefix (ascii "tcp://") url ≡ none
unfolding strip_prefix
no_tcp [] h = ground arith
no_tcp (a ∷ []) h = ground arith
no_tcp (a ∷ b ∷ url) h = ground arith

-- What the prefix of an address decides.
pub from_url-is_tls :
    (url : Bytes) → (from_url url).0 ≡ (if is_tls url then Protocol.tcp_tls else Protocol.tcp)
unfolding from_url
from_url-is_tls url = elim (Bool-cases (is_tls url)) [
  | inl secure ↦ elim (Option-cases (strip_prefix (ascii "tls://") url)) [
    | inl n ↦ absurd (not_some (rw n at secure))
    | inr (addr, p) ↦ rw (from_url, no_tcp url secure, p) refl
  ]
  | inr plain ↦ elim (Option-cases (strip_prefix (ascii "tls://") url)) [
    | inr (addr, p) ↦ absurd (not_none (rw p at plain))
    | inl n ↦ elim (Option-cases (strip_prefix (ascii "tcp://") url)) [
      | inl other ↦ rw (from_url, other, n) refl
      | inr (addr, p) ↦ rw (from_url, p, n) refl
    ]
  ]
]
  where
    not_some : false ≡ true → ⊥
    not_some h = ground arith

    not_none : true ≡ false → ⊥
    not_none h = ground arith

-- The address is written with `tcp://` before it, or without either prefix.
abbrev pub IsTcp : Bytes → Bytes → Type 0
IsTcp url addr =
    (url ≡ ascii "tcp://" ++ addr)
    ⊎ ((url ≡ addr)
        × ((a : Bytes) → url ≢ ascii "tcp://" ++ a)
        × ((a : Bytes) → url ≢ ascii "tls://" ++ a))

-- The address is written with `tls://` before it.
abbrev pub IsTls : Bytes → Bytes → Type 0
IsTls url addr = url ≡ ascii "tls://" ++ addr

abbrev pub IsAddress : Bytes → Protocol → Bytes → Type 0
IsAddress url Protocol.tcp addr = IsTcp url addr
IsAddress url Protocol.tcp_tls addr = IsTls url addr
IsAddress url Protocol.web_socket addr = ⊥
IsAddress url Protocol.web_socket_secure addr = ⊥
IsAddress url Protocol.unix addr = ⊥

strip_prefix-some :
    (prefix url addr : Bytes) → strip_prefix prefix url ≡ some addr → url ≡ prefix ++ addr
unfolding strip_prefix
strip_prefix-some [] url addr h = ground arith
strip_prefix-some (p ∷ prefix) [] addr h = absurd (ground arith)
strip_prefix-some (p ∷ prefix) (c ∷ url) addr h =
    ground (arith, nat_beq_iff p c, strip_prefix-some prefix url addr)

strip_prefix-append : (prefix addr : Bytes) → strip_prefix prefix (prefix ++ addr) ≡ some addr
unfolding strip_prefix
strip_prefix-append [] addr = refl
strip_prefix-append (p ∷ prefix) addr = rw (beq_refl p) (strip_prefix-append prefix addr)

no_prefix : (prefix url : Bytes) → strip_prefix prefix url ≡ none → (a : Bytes) → url ≢ prefix ++ a
no_prefix prefix url h a e = cc (sym h ∙ ap (strip_prefix prefix) e ∙ strip_prefix-append prefix a)

-- What `from_url` takes for the address is the configured one without its prefix.
pub from_url-IsAddress : (url : Bytes) → IsAddress url (from_url url).0 (from_url url).1
unfolding from_url
from_url-IsAddress url = elim (Option-cases (strip_prefix (ascii "tcp://") url)) [
  | inr (addr, tcp) ↦ rw (from_url, tcp) (inl (strip_prefix-some (ascii "tcp://") url addr tcp))
  | inl no_tcp ↦ elim (Option-cases (strip_prefix (ascii "tls://") url)) [
    | inr (addr, tls) ↦ rw (from_url, no_tcp, tls) (strip_prefix-some (ascii "tls://") url addr tls)
    | inl no_tls ↦
        rw (from_url, no_tcp, no_tls)
          (inr (refl, no_prefix (ascii "tcp://") url no_tcp, no_prefix (ascii "tls://") url no_tls))
  ]
]
