-- ===== src/Router/Subscribe/Codes.antt =====
-- What SUBSCRIBE answers, stores and sends.
use iotd.Prelude.{
  ℕ, Bytes, ◌≡◌, refl, sym, ap, ◌∙◌, inl, inr, ◌&&◌, Option, some, List, [], ◌∷◌, ◌++◌,
  append_assoc, append-nil, map, min, HashMap, bytes_eq, ◌==◌, if◌then◌else◌, arith, Bool-cases,
}
use iotd.Protocol.Packet.{QoS, qos_as_u8, PublishPacket, failure}
use iotd.Storage.Types.{PersistedRetainedMessage}
use iotd.Storage.Trait.{Storage, IsRetainedStore}
use iotd.Router.Topic.{validate_subscribe_filter}
use iotd.Router.Index.{SessionId, Mailbox, RouterInternal, subscription}
use iotd.Router.Index.Consistent.{IsConsistent, add_subscription-IsConsistent, subscription-add}
use iotd.Router.Index.Maps.{IsMaps, add_subscription-IsMaps}
use iotd.Router.Retained.Found.{IsKeyed, IsCache, matching, find_retained-matching}
use iotd.Router.Subscribe.{Subscribing, subscribe_one, subscribe_loop, subscribe}

-- The code for one filter: its QoS, or 0x80 if the filter is not well formed.
abbrev pub code : Bytes × QoS → ℕ
code (filter, qos) = if validate_subscribe_filter filter then qos_as_u8 qos else failure

-- The retained messages for a list of filters, one filter after the other.
abbrev pub retained_for :
    List (Bytes × QoS) → HashMap Bytes PersistedRetainedMessage → List PublishPacket
retained_for [] m = []
retained_for ((filter, qos) ∷ rest) m =
    let later = retained_for rest m in
    if validate_subscribe_filter filter then matching filter qos m ++ later else later

-- The subscription under a filter after a list of requests: the last valid one counts.
abbrev pub requested :
    Mailbox → Bytes → List (Bytes × QoS) → Option (Mailbox × QoS) → Option (Mailbox × QoS)
requested sender filter [] old = old
requested sender filter ((f, qos) ∷ rest) old =
    requested sender filter rest
      (if validate_subscribe_filter f && f == filter then some (sender, qos) else old)

min_code : (q : QoS) → min (qos_as_u8 q) 2 ≡ qos_as_u8 q
min_code QoS.at_most_once = refl
min_code _ = refl

retained_for-cons :
    (x : Bytes × QoS) (fs : List (Bytes × QoS)) (m : HashMap Bytes PersistedRetainedMessage)
    → retained_for (x ∷ []) m ++ retained_for fs m ≡ retained_for (x ∷ fs) m
retained_for-cons (f, q) fs m = elim (Bool-cases (validate_subscribe_filter f)) [
  | inl y ↦ rw (y, append-nil)
  | inr n ↦ rw n
]

module _ {S : Type 0} (st : Storage S) (session_id : SessionId) (sender : Mailbox) (s : S) where
  code_one :
      (x : Bytes × QoS) (v : Subscribing)
      → (subscribe_one st session_id sender s x v).return_codes ≡ v.return_codes ++ code x ∷ []
  unfolding subscribe_one
  code_one (f, q) v = ground (arith, min_code q)

  codes_loop :
      (fs : List (Bytes × QoS)) (v : Subscribing)
      → (subscribe_loop st session_id sender s fs v).return_codes ≡ v.return_codes ++ map code fs
  unfolding subscribe_loop
  codes_loop [] v = sym (append-nil v.return_codes)
  codes_loop (x ∷ fs) v =
      codes_loop fs (subscribe_one st session_id sender s x v)
      ∙ rw code_one (append_assoc v.return_codes (code x ∷ []) (map code fs))

  -- SUBSCRIBE answers one code for each filter, in order: the QoS that was asked for if the filter is
  -- well formed, and 0x80 if it is not.
  pub codes-subscribe :
      (fs : List (Bytes × QoS)) (r : RouterInternal)
      → (subscribe st session_id sender s fs r).return_codes ≡ map code fs
  unfolding subscribe
  codes-subscribe fs r = codes_loop fs _

  subscription_one :
      (x : Bytes × QoS) (v : Subscribing) (s' : SessionId) (f' : Bytes)
      → subscription s' f' (subscribe_one st session_id sender s x v).router ≡ (
          if session_id == s'
          then requested sender f' (x ∷ []) (subscription s' f' v.router)
          else subscription s' f' v.router)
  unfolding subscribe_one
  subscription_one (f, q) v s' f' =
      ground (arith, subscription-add session_id s' sender q f f' v.router)

  subscription_loop :
      (fs : List (Bytes × QoS)) (v : Subscribing) (s' : SessionId) (f' : Bytes)
      → subscription s' f' (subscribe_loop st session_id sender s fs v).router ≡ (
          if session_id == s'
          then requested sender f' fs (subscription s' f' v.router)
          else subscription s' f' v.router)
  unfolding subscribe_loop
  subscription_loop [] v s' f' = ground arith
  subscription_loop (x ∷ fs) v s' f' =
      subscription_loop fs (subscribe_one st session_id sender s x v) s' f'
      ∙ rw subscription_one (ground arith)

  -- After SUBSCRIBE the session has, under each filter, the mailbox and the QoS of the last well-formed
  -- request for it, or what it had before if there is none. No other session's subscription changes.
  pub subscription-subscribe :
      (fs : List (Bytes × QoS)) (r : RouterInternal) (s' : SessionId) (f' : Bytes)
      → subscription s' f' (subscribe st session_id sender s fs r).router ≡ (
          if session_id == s'
          then requested sender f' fs (subscription s' f' r)
          else subscription s' f' r)
  unfolding subscribe
  subscription-subscribe fs r s' f' = subscription_loop fs _ s' f'

  subscribe_one-IsConsistent :
      (x : Bytes × QoS) (v : Subscribing)
      → IsConsistent v.router
      → IsConsistent (subscribe_one st session_id sender s x v).router
  unfolding subscribe_one
  subscribe_one-IsConsistent (f, q) v c = elim (Bool-cases (validate_subscribe_filter f)) [
    | inl y ↦ rw y (add_subscription-IsConsistent session_id sender q f v.router c)
    | inr n ↦ rw n c
  ]

  subscribe_loop-IsConsistent :
      (fs : List (Bytes × QoS)) (v : Subscribing)
      → IsConsistent v.router
      → IsConsistent (subscribe_loop st session_id sender s fs v).router
  unfolding subscribe_loop
  subscribe_loop-IsConsistent [] v c = c
  subscribe_loop-IsConsistent (x ∷ fs) v c =
      subscribe_loop-IsConsistent fs _ (subscribe_one-IsConsistent x v c)

  pub subscribe-IsConsistent :
      (fs : List (Bytes × QoS)) (r : RouterInternal)
      → IsConsistent r
      → IsConsistent (subscribe st session_id sender s fs r).router
  unfolding subscribe
  subscribe-IsConsistent fs r c = subscribe_loop-IsConsistent fs _ c

  subscribe_loop-IsMaps :
      (fs : List (Bytes × QoS)) (v : Subscribing)
      → IsMaps v.router.filters
      → IsMaps (subscribe_loop st session_id sender s fs v).router.filters
  unfolding subscribe_loop subscribe_one
  subscribe_loop-IsMaps [] v c = c
  subscribe_loop-IsMaps ((f, q) ∷ fs) v c =
      subscribe_loop-IsMaps fs (subscribe_one st session_id sender s (f, q) v)
        (elim (Bool-cases (validate_subscribe_filter f)) [
          | inl y ↦ rw y (add_subscription-IsMaps session_id sender q f v.router c)
          | inr n ↦ rw n c
        ])

  pub subscribe-IsMaps :
      (fs : List (Bytes × QoS)) (r : RouterInternal)
      → IsMaps r.filters
      → IsMaps (subscribe st session_id sender s fs r).router.filters
  unfolding subscribe
  subscribe-IsMaps fs r c = subscribe_loop-IsMaps fs _ c

  module _ (laws : IsRetainedStore st) (keyed : IsKeyed (laws.view s)) where
    retained_one :
        (x : Bytes × QoS) (v : Subscribing)
        → IsCache st laws v.all_retained s
        → ((subscribe_one st session_id sender s x v).retained_to_send
            ≡ v.retained_to_send ++ retained_for (x ∷ []) (laws.view s))
          × IsCache st laws (subscribe_one st session_id sender s x v).all_retained s
    unfolding subscribe_one
    retained_one (f, q) v h =
        let found =
          find_retained-matching st laws f q s v.retained_to_send v.all_retained keyed h in
        elim (Bool-cases (validate_subscribe_filter f)) [
          | inl y ↦ rw (y, append-nil) found
          | inr n ↦ rw n (sym (append-nil v.retained_to_send), h)
        ]

    retained_loop :
        (fs : List (Bytes × QoS)) (v : Subscribing)
        → IsCache st laws v.all_retained s
        → (subscribe_loop st session_id sender s fs v).retained_to_send
          ≡ v.retained_to_send ++ retained_for fs (laws.view s)
    unfolding subscribe_loop
    retained_loop [] v h = sym (append-nil v.retained_to_send)
    retained_loop (x ∷ fs) v h =
        let (sent, cached) = retained_one x v h in
        retained_loop fs (subscribe_one st session_id sender s x v) cached
        ∙ rw sent (
            append_assoc v.retained_to_send (retained_for (x ∷ []) (laws.view s))
              (retained_for fs (laws.view s))
            ∙ ap (◌++◌ v.retained_to_send) (retained_for-cons x fs (laws.view s)))

    -- SUBSCRIBE sends, for each well-formed filter in turn, every retained message whose topic matches
    -- it, with its payload and RETAIN, at the smaller of the two QoS. The backend keeps the contract of the
    -- retained messages, by which no call fails, each stored under its own topic.
    pub retained-subscribe :
        (fs : List (Bytes × QoS)) (r : RouterInternal)
        → (subscribe st session_id sender s fs r).retained_to_send ≡ retained_for fs (laws.view s)
    unfolding subscribe
    retained-subscribe fs r = retained_loop fs _ tt
