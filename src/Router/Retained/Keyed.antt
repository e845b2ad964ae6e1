-- ===== src/Router/Retained/Keyed.antt =====
-- PUBLISH with the retain flag stores each message under its own topic.
use iotd.Prelude.{
  ℕ, Bytes, [], ◌∷◌, HashMap, get, get-insert, get-remove, insert, remove, bytes_eq, bytes_beq_iff,
  arith,
}
use iotd.Protocol.Packet.{PublishPacket}
use iotd.Storage.Types.{DateTime, PersistedRetainedMessage}
use iotd.Storage.Trait.{Storage, IsRetainedStore}
use iotd.Router.Retained.Found.{IsKeyed}
use iotd.Router.Retained.{retained_of, handle_retained_message}

insert-IsKeyed :
    (m : PersistedRetainedMessage) (r : HashMap Bytes PersistedRetainedMessage)
    → IsKeyed r
    → IsKeyed (insert m.topic m r)
unfolding insert get
insert-IsKeyed m [] h = ground arith
insert-IsKeyed m ((k, n) ∷ rest) h = ground (
  arith,
  bytes_beq_iff k m.topic,
  bytes_beq_iff m.topic k,
  get-insert m.topic k m rest,
  insert-IsKeyed m rest h.2,
)

remove-IsKeyed :
    (t : Bytes) (r : HashMap Bytes PersistedRetainedMessage) → IsKeyed r → IsKeyed (remove t r)
unfolding remove
remove-IsKeyed t [] h = tt
remove-IsKeyed t ((k, n) ∷ rest) h =
    ground (arith, get-remove t k rest, bytes_beq_iff t k, remove-IsKeyed t rest h.2)

module _ {S : Type 0} (st : Storage S) (laws : IsRetainedStore st) (limit : ℕ)
    (now : DateTime) where
  -- Each retained message stays stored under its own topic, and no topic stands twice.
  pub IsKeyed-handle_retained_message :
      (packet : PublishPacket) (s : S)
      → IsKeyed (laws.view s)
      → IsKeyed (laws.view (handle_retained_message st limit now packet s))
  unfolding handle_retained_message
  IsKeyed-handle_retained_message packet s h = ground (
    arith,
    laws.view-save (retained_of now packet) s,
    laws.view-delete packet.topic s,
    insert-IsKeyed (retained_of now packet) (laws.view s) h,
    remove-IsKeyed packet.topic (laws.view s) h,
  )
