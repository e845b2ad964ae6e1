-- ===== src/Storage/Refinement.antt =====
-- src/storage/traits.rs: what the retained messages of any backend are, from outside: a map from topics
-- that a call changes if it returns Ok, and does not change if it fails. Their order is not known.
use mathlib.Core.List.{Permᴰ}
use mathlib.Core.List.Permᴰ
use iotd.Prelude.{
  Bytes, ◌≡◌, refl, ◌∙◌, List, [], ◌∷◌, length, HashMap, get, insert, remove, bytes_eq,
}
use iotd.Storage.Types.{PersistedRetainedMessage}
use iotd.Storage.Trait.{Storage, StorageResult, ok, err, OkElse, values, IsRetainedStore}

abbrev pub RetainedMap : Type 0
RetainedMap = HashMap Bytes PersistedRetainedMessage

pub data RetainedCall : Type 0 where
  save : PersistedRetainedMessage → RetainedCall
  delete : Bytes → RetainedCall

pub data RetainedQuery : Type 0 where
  load : Bytes → RetainedQuery
  load_all count : RetainedQuery

-- The map after a call that succeeds.
unfoldable pub effect : RetainedCall → RetainedMap → RetainedMap
effect (RetainedCall.save msg) m = insert msg.topic msg m
effect (RetainedCall.delete topic) m = remove topic m

-- The map after calls with these results, of which only the successful ones count.
unfoldable pub effects :
    List RetainedCall → List (StorageResult (Unit {0})) → RetainedMap → RetainedMap
effects [] results m = m
effects (call ∷ calls) [] m = m
effects (call ∷ calls) (ok _ ∷ results) m = effects calls results (effect call m)
effects (call ∷ calls) (err _ ∷ results) m = effects calls results m

module _ {S : Type 0} (st : Storage S) where
  unfoldable pub perform : RetainedCall → S → StorageResult (Unit {0}) × S
  perform (RetainedCall.save msg) = st.save_retained_message msg
  perform (RetainedCall.delete topic) = st.delete_retained_message topic

  -- The calls one after the other, whatever they return.
  unfoldable pub perform_all : List RetainedCall → S → List (StorageResult (Unit {0})) × S
  perform_all [] s = ([], s)
  perform_all (call ∷ calls) s =
      let first = perform call s in
      let rest = perform_all calls first.1 in (first.0 ∷ rest.0, rest.1)

  -- What the three queries return of such a map, or when they may fail.
  abbrev pub Shows : (RetainedQuery → Type 0) → S → RetainedMap → Type 0
  Shows fails s m =
      ((t : Bytes)
        → OkElse (st.load_retained_message t s) (λ o. o ≡ get t m) (fails (RetainedQuery.load t)))
      × OkElse (st.load_all_retained_messages s) (λ l. Permᴰ l (values m))
          (fails RetainedQuery.load_all)
      × OkElse (st.count_retained_messages s) (λ n. n ≡ length m) (fails RetainedQuery.count)

  -- How a backend represents a map.
  pub record Refines : Type 1 where
    pub Represents : S → RetainedMap → Type 0
    pub Fails : S → RetainedQuery → Type 0
    pub perform_lem :
        (call : RetainedCall) (s : S) (m : RetainedMap)
        → Represents s m
        → OkElse
            (perform call s).0
            (λ _. Represents (perform call s).1 (effect call m))
            (Represents (perform call s).1 m)
    pub shows_lem : (s : S) (m : RetainedMap) → Represents s m → Shows (Fails s) s m

  pub perform_all-Represents :
      (r : Refines) (calls : List RetainedCall) (s : S) (m : RetainedMap)
      → r.Represents s m
      → r.Represents (perform_all calls s).1 (effects calls (perform_all calls s).0 m)
  unfolding perform_all effects
  perform_all-Represents r [] s m h = h
  perform_all-Represents r (call ∷ calls) s m h =
      split (perform call s) (r.perform_lem call s m h) (perform_all-Represents r calls)
    where
      split :
          (p : StorageResult (Unit {0}) × S)
          → OkElse p.0 (λ _. r.Represents p.1 (effect call m)) (r.Represents p.1 m)
          → ((e : S) (n : RetainedMap)
              → r.Represents e n
              → r.Represents (perform_all calls e).1 (effects calls (perform_all calls e).0 n))
          → r.Represents
              (perform_all calls p.1).1
              (effects (call ∷ calls) (p.0 ∷ (perform_all calls p.1).0) m)
      split (ok _, e) q rest = rest e (effect call m) q
      split (err _, e) q rest = rest e m q

module _ {S : Type 0} (st : Storage S) (laws : IsRetainedStore st) where
  pub performed :
      (call : RetainedCall) (s : S) (m : RetainedMap)
      → laws.view s ≡ m
      → OkElse
          (perform st call s).0
          (λ _. laws.view (perform st call s).1 ≡ effect call m)
          (laws.view (perform st call s).1 ≡ m)
  unfolding perform effect
  performed (RetainedCall.save msg) s m h =
      rw (laws.save_lem msg s) (laws.view-save msg s ∙ rw h refl)
  performed (RetainedCall.delete topic) s m h =
      rw (laws.delete_lem topic s) (laws.view-delete topic s ∙ rw h refl)

  pub shown : (s : S) (m : RetainedMap) → laws.view s ≡ m → Shows st (λ _. ⊥) s m
  shown s m h = (
    λ t. rw (laws.load_lem t s) (rw h refl),
    rw (laws.load_all_lem s) (rw h (Permᴰ.refl (values m))),
    rw (laws.count_lem s) (rw h refl),
  )

  -- A backend that never fails represents its map.
  abbrev pub refines_of : Refines st
  refines_of = record {
    Represents = λ s m. laws.view s ≡ m;
    Fails = λ s q. ⊥;
    perform_lem = performed;
    shows_lem = shown;
  }
