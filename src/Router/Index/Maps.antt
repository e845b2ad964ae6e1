-- ===== src/Router/Index/Maps.antt =====
-- The association lists of the router are maps: no key stands twice, in either level.
use iotd.Prelude.{
  Bytes, inl, inr, List, [], ◌∷◌, HashMap, get, insert, remove, modify, Distinct, insert-Distinct,
  remove-Distinct, bytes_eq, Option-cases, arith,
}
use iotd.Protocol.Packet.{QoS}
use iotd.Router.Index.{
  Mailbox, SessionId, Subscribers, RouterInternal, or_default, add_subscription,
  remove_subscription, unsubscribe, drop_session, unsubscribe_all,
}

abbrev pub AllDistinct : HashMap Bytes Subscribers → Type 0
AllDistinct [] = Unit
AllDistinct ((filter, sessions) ∷ rest) = Distinct sessions × AllDistinct rest

abbrev pub IsMaps : HashMap Bytes Subscribers → Type 0
IsMaps filters = Distinct filters × AllDistinct filters

insert-AllDistinct :
    (f : Bytes) (v : Subscribers) (m : HashMap Bytes Subscribers)
    → Distinct v
    → AllDistinct m
    → AllDistinct (insert f v m)
unfolding insert
insert-AllDistinct f v [] d a = (d, tt)
insert-AllDistinct f v ((g, w) ∷ m) d a = ground (arith, insert-AllDistinct f v m d a.1)

get-AllDistinct :
    (f : Bytes) (m : HashMap Bytes Subscribers) → AllDistinct m → Distinct (or_default (get f m))
unfolding get
get-AllDistinct f [] a = tt
get-AllDistinct f ((g, w) ∷ m) a = ground (arith, get-AllDistinct f m a.1)

insert-IsMaps :
    (f : Bytes) (v : Subscribers) (m : HashMap Bytes Subscribers)
    → Distinct v
    → IsMaps m
    → IsMaps (insert f v m)
insert-IsMaps f v m d h = (insert-Distinct f v m h.0, insert-AllDistinct f v m d h.1)

pub add_subscription-IsMaps :
    (s : SessionId) (m : Mailbox) (q : QoS) (f : Bytes) (r : RouterInternal)
    → IsMaps r.filters
    → IsMaps (add_subscription s m q f r).filters
unfolding add_subscription
add_subscription-IsMaps s m q f r h =
    insert-IsMaps f _ r.filters
      (insert-Distinct s (m, q) (or_default (get f r.filters)) (get-AllDistinct f r.filters h.1)) h

modify-IsMaps :
    (s : SessionId) (f : Bytes) (m : HashMap Bytes Subscribers)
    → IsMaps m
    → IsMaps (modify f (remove s) m)
unfolding modify
modify-IsMaps s f m h = elim (Option-cases (get f m)) [
  | inl n ↦ rw (n, modify) h
  | inr (v, e) ↦
      rw (e, modify)
        (insert-IsMaps f (remove s v) m
          (remove-Distinct s v (ground (arith, get-AllDistinct f m h.1))) h)
]

pub unsubscribe-IsMaps :
    (s : SessionId) (fs : List Bytes) (r : RouterInternal)
    → IsMaps r.filters
    → IsMaps (unsubscribe s fs r).filters
unfolding unsubscribe remove_subscription
unsubscribe-IsMaps s [] r h = h
unsubscribe-IsMaps s (f ∷ fs) r h =
    unsubscribe-IsMaps s fs (remove_subscription s f r) (modify-IsMaps s f r.filters h)

drop_session-IsMaps :
    (s : SessionId) (fs : List Bytes) (m : HashMap Bytes Subscribers)
    → IsMaps m
    → IsMaps (drop_session s fs m)
unfolding drop_session
drop_session-IsMaps s [] m h = h
drop_session-IsMaps s (f ∷ fs) m h = drop_session-IsMaps s fs _ (modify-IsMaps s f m h)

pub unsubscribe_all-IsMaps :
    (s : SessionId) (r : RouterInternal) → IsMaps r.filters → IsMaps (unsubscribe_all s r).filters
unfolding unsubscribe_all
unsubscribe_all-IsMaps s r h = elim (Option-cases (get s r.sessions)) [
  | inl n ↦ rw (n, unsubscribe_all) h
  | inr (fs, e) ↦ rw (e, unsubscribe_all) (drop_session-IsMaps s fs r.filters h)
]
