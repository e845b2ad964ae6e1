-- ===== src/Router/Index/Consistent.antt =====
-- The two indexes of the router agree, through every operation that writes them.
use iotd.Prelude.{
  is_some, Bytes, ◌≡◌, true, false, ◌&&◌, ◌||◌, none, some, List, [], ◌∷◌, ◌++◌, contains, HashMap,
  get, insert, remove, modify, get-insert, get-remove, get-nil, get-modify, bytes_eq, bytes_beq_iff,
  ◌==◌, if◌then◌else◌, arith,
}
use iotd.Protocol.Packet.{QoS}
use iotd.Router.Index.{
  Mailbox, SessionId, Subscribers, RouterInternal, or_default, set_insert, set_remove,
  add_subscription, remove_subscription, new, unsubscribe, drop_session, unsubscribe_all,
  subscription,
}

-- A filter is listed for a session exactly where the session is listed for the filter.
pub record IsConsistent (r : RouterInternal) : Type 0 where
  pub agree :
      (s f : Bytes) → contains f (or_default (get s r.sessions)) ≡ is_some (subscription s f r)

contains-append_one :
    (f g : Bytes) (fs : List Bytes) → contains g (fs ++ f ∷ []) ≡ (contains g fs || f == g)
contains-append_one f g [] = ground arith
contains-append_one f g (h ∷ fs) = ground (arith, contains-append_one f g fs)

contains-set_insert :
    (f g : Bytes) (fs : List Bytes)
    → contains g (set_insert f fs) ≡ (if f == g then true else contains g fs)
contains-set_insert f g fs = ground (arith, contains-append_one f g fs, bytes_beq_iff f g)

contains-set_remove :
    (f g : Bytes) (fs : List Bytes)
    → contains g (set_remove f fs) ≡ (if f == g then false else contains g fs)
unfolding set_remove
contains-set_remove f g [] = ground arith
contains-set_remove f g (h ∷ fs) =
    ground
      (arith, contains-set_remove f g fs, bytes_beq_iff h f, bytes_beq_iff h g, bytes_beq_iff f g)

-- What a subscription becomes.
pub subscription-add :
    (s s' : SessionId) (m : Mailbox) (q : QoS) (f f' : Bytes) (r : RouterInternal)
    → subscription s' f' (add_subscription s m q f r) ≡ (
        if f == f'
        then (if s == s' then some (m, q) else subscription s' f' r)
        else subscription s' f' r)
unfolding add_subscription
subscription-add s s' m q f f' r = ground (
  arith,
  get-insert f f' (insert s (m, q) (or_default (get f r.filters))) r.filters,
  get-insert s s' (m, q) (or_default (get f r.filters)),
  bytes_beq_iff f f',
)

subscription-modify :
    (s s' : SessionId) (f f' : Bytes) (filters : HashMap Bytes Subscribers)
    → get s' (or_default (get f' (modify f (remove s) filters))) ≡ (
        if f == f'
        then (if s == s' then none else get s' (or_default (get f' filters)))
        else get s' (or_default (get f' filters)))
subscription-modify s s' f f' filters = ground (
  arith,
  get-modify f f' (remove s) filters,
  get-remove s s' (or_default (get f' filters)),
  get-nil {V = Mailbox × QoS} s',
)

listed-add :
    (s s' : SessionId) (m : Mailbox) (q : QoS) (f f' : Bytes) (r : RouterInternal)
    → contains f' (or_default (get s' (add_subscription s m q f r).sessions)) ≡ (
        if s == s'
        then (if f == f' then true else contains f' (or_default (get s' r.sessions)))
        else contains f' (or_default (get s' r.sessions)))
unfolding add_subscription
listed-add s s' m q f f' r = ground (
  arith,
  get-insert s s' (set_insert f (or_default (get s r.sessions))) r.sessions,
  contains-set_insert f f' (or_default (get s r.sessions)),
  bytes_beq_iff s s',
)

pub add_subscription-IsConsistent :
    (s : SessionId) (m : Mailbox) (q : QoS) (f : Bytes) (r : RouterInternal)
    → IsConsistent r
    → IsConsistent (add_subscription s m q f r)
add_subscription-IsConsistent s m q f r c = record {
  agree = λ s' f'.
      ground (arith, listed-add s s' m q f f' r, subscription-add s s' m q f f' r, c.agree s' f');
}

pub subscription-remove :
    (s s' : SessionId) (f f' : Bytes) (r : RouterInternal)
    → subscription s' f' (remove_subscription s f r)
      ≡ (if f == f' then (if s == s' then none else subscription s' f' r) else subscription s' f' r)
unfolding remove_subscription
subscription-remove s s' f f' r = subscription-modify s s' f f' r.filters

listed-remove :
    (s s' : SessionId) (f f' : Bytes) (r : RouterInternal)
    → contains f' (or_default (get s' (remove_subscription s f r).sessions)) ≡ (
        if s == s'
        then (if f == f' then false else contains f' (or_default (get s' r.sessions)))
        else contains f' (or_default (get s' r.sessions)))
unfolding remove_subscription
listed-remove s s' f f' r = ground (
  arith,
  get-modify s s' (set_remove f) r.sessions,
  contains-set_remove f f' (or_default (get s' r.sessions)),
)

remove_subscription-IsConsistent :
    (s : SessionId) (f : Bytes) (r : RouterInternal)
    → IsConsistent r
    → IsConsistent (remove_subscription s f r)
remove_subscription-IsConsistent s f r c = record {
  agree = λ s' f'.
      ground (arith, listed-remove s s' f f' r, subscription-remove s s' f f' r, c.agree s' f');
}

pub unsubscribe-IsConsistent :
    (s : SessionId) (fs : List Bytes) (r : RouterInternal)
    → IsConsistent r
    → IsConsistent (unsubscribe s fs r)
unfolding unsubscribe
unsubscribe-IsConsistent s [] r c = c
unsubscribe-IsConsistent s (f ∷ fs) r c =
    unsubscribe-IsConsistent s fs (remove_subscription s f r)
      (remove_subscription-IsConsistent s f r c)

-- UNSUBSCRIBE removes the session from exactly the listed filters, and touches no other session.
pub subscription-unsubscribe :
    (s s' : SessionId) (fs : List Bytes) (f' : Bytes) (r : RouterInternal)
    → subscription s' f' (unsubscribe s fs r)
      ≡ (if s == s' && contains f' fs then none else subscription s' f' r)
unfolding unsubscribe
subscription-unsubscribe s s' [] f' r = ground arith
subscription-unsubscribe s s' (f ∷ fs) f' r = ground (
  arith,
  subscription-unsubscribe s s' fs f' (remove_subscription s f r),
  subscription-remove s s' f f' r,
)

subscription-drop_session :
    (s s' : SessionId) (fs : List Bytes) (f' : Bytes) (filters : HashMap Bytes Subscribers)
    → get s' (or_default (get f' (drop_session s fs filters)))
      ≡ (if s == s' && contains f' fs then none else get s' (or_default (get f' filters)))
unfolding drop_session
subscription-drop_session s s' [] f' filters = ground arith
subscription-drop_session s s' (f ∷ fs) f' filters = ground (
  arith,
  subscription-drop_session s s' fs f' (modify f (remove s) filters),
  subscription-modify s s' f f' filters,
)

-- When a session goes, it is removed from every filter, and no other session's subscription changes.
pub subscription-unsubscribe_all :
    (s s' : SessionId) (f' : Bytes) (r : RouterInternal)
    → IsConsistent r
    → subscription s' f' (unsubscribe_all s r) ≡ (if s == s' then none else subscription s' f' r)
unfolding unsubscribe_all
subscription-unsubscribe_all s s' f' r c = ground (
  arith,
  subscription-drop_session s s' (or_default (get s r.sessions)) f' r.filters,
  c.agree s f',
  bytes_beq_iff s s',
)

listed-unsubscribe_all :
    (s s' : SessionId) (f' : Bytes) (r : RouterInternal)
    → contains f' (or_default (get s' (unsubscribe_all s r).sessions))
      ≡ (if s == s' then false else contains f' (or_default (get s' r.sessions)))
unfolding unsubscribe_all
listed-unsubscribe_all s s' f' r = ground (arith, get-remove s s' r.sessions, bytes_beq_iff s s')

pub unsubscribe_all-IsConsistent :
    (s : SessionId) (r : RouterInternal) → IsConsistent r → IsConsistent (unsubscribe_all s r)
unsubscribe_all-IsConsistent s r c = record {
  agree = λ s' f'. ground (
    arith,
    listed-unsubscribe_all s s' f' r,
    subscription-unsubscribe_all s s' f' r c,
    c.agree s' f',
  );
}

pub new-IsConsistent : IsConsistent new
new-IsConsistent = record { agree = λ s f. simp get-nil }
