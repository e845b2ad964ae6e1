-- ===== src/Router/Index.antt =====
-- `RouterInternal` of src/router.rs: who subscribes to what, indexed both ways. A session is named
-- by its id, and a mailbox by the number of its channel. Each method holds the lock throughout.
pub mod Consistent
pub mod Maps
use iotd.Prelude.{
  ℕ, Bytes, Bool, true, false, Option, none, some, List, [], ◌∷◌, ◌++◌, contains, retain, not,
  HashMap, get, insert, remove, modify, bytes_eq, ◌==◌, if◌then◌else◌,
}
use iotd.Protocol.Packet.{QoS}

abbrev pub Mailbox : Type 0
Mailbox = ℕ

abbrev pub SessionId : Type 0
SessionId = Bytes

abbrev pub Subscribers : Type 0
Subscribers = HashMap SessionId (Mailbox × QoS)

pub record RouterInternal : Type 0 where
  pub filters : HashMap Bytes Subscribers
  pub sessions : HashMap SessionId (List Bytes)

abbrev pub new : RouterInternal
new = record { filters = []; sessions = [] }

-- `entry(k).or_default()`
abbrev pub or_default {ℓ} : {A : Type ℓ} → Option (List A) → List A
or_default none = []
or_default (some l) = l

-- `HashSet::insert` and `HashSet::remove`
abbrev pub set_insert : Bytes → List Bytes → List Bytes
set_insert f fs = if contains f fs then fs else fs ++ f ∷ []

unfoldable pub set_remove : Bytes → List Bytes → List Bytes
set_remove f [] = []
set_remove f (g ∷ gs) = let rest = set_remove f gs in if g == f then rest else g ∷ rest

-- The two stores of `subscribe` for one filter.
unfoldable pub add_subscription :
    SessionId → Mailbox → QoS → Bytes → RouterInternal → RouterInternal
add_subscription session_id sender qos filter r = record r {
  filters =
      insert filter (insert session_id (sender, qos) (or_default (get filter r.filters))) r.filters;
  sessions =
      insert session_id (set_insert filter (or_default (get session_id r.sessions))) r.sessions;
}

-- One round of `unsubscribe`.
unfoldable pub remove_subscription : SessionId → Bytes → RouterInternal → RouterInternal
remove_subscription session_id filter r = record r {
  filters = modify filter (remove session_id) r.filters;
  sessions = modify session_id (set_remove filter) r.sessions;
}

unfoldable pub unsubscribe : SessionId → List Bytes → RouterInternal → RouterInternal
unsubscribe session_id [] r = r
unsubscribe session_id (filter ∷ rest) r =
    unsubscribe session_id rest (remove_subscription session_id filter r)

-- The loop of `unsubscribe_all`.
unfoldable pub drop_session :
    SessionId → List Bytes → HashMap Bytes Subscribers → HashMap Bytes Subscribers
drop_session session_id [] filters = filters
drop_session session_id (filter ∷ rest) filters =
    drop_session session_id rest (modify filter (remove session_id) filters)

unfoldable pub unsubscribe_all : SessionId → RouterInternal → RouterInternal
unsubscribe_all session_id r = elim (get session_id r.sessions) [
  | none ↦ r
  | some fs ↦ record {
    filters = drop_session session_id fs r.filters;
    sessions = remove session_id r.sessions;
  }
]

-- The QoS of a session under a filter.
abbrev pub subscription : SessionId → Bytes → RouterInternal → Option (Mailbox × QoS)
subscription session_id filter r = get session_id (or_default (get filter r.filters))

unfoldable pub subscribed_filters : SessionId → List Bytes → RouterInternal → List (Bytes × QoS)
subscribed_filters session_id [] r = []
subscribed_filters session_id (filter ∷ rest) r =
    let later = subscribed_filters session_id rest r in
    elim (get filter r.filters) [
      | none ↦ later
      | some sessions ↦ elim (get session_id sessions) [
        | none ↦ later
        | some (sender, qos) ↦ (filter, qos) ∷ later
      ]
    ]

unfoldable pub get_subscriptions : SessionId → RouterInternal → List (Bytes × QoS)
get_subscriptions session_id r =
    subscribed_filters session_id (or_default (get session_id r.sessions)) r
