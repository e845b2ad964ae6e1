-- ===== src/Session/Subscribing/ReturnCodes.antt =====
-- The codes of SUBACK: `return_codes` puts 0x80 at the filters that were denied.
use iotd.Prelude.{
  ℕ, zero, suc, Bytes, ◌<◌, ◌≡◌, refl, Bool, true, false, some, List, [], ◌∷◌, map, length,
  contains, nat_eq, nat_beq_iff, beq_refl, if◌then◌else◌, arith,
}
use iotd.Protocol.Packet.{QoS, failure}
use iotd.Router.Subscribe.Codes.{code}
use iotd.Session.Effect.{Env, is_allowed}
use iotd.Session.Subscribing.{return_codes, authorize_filters}

module _ {S : Type 0} (e : Env S) where
  -- The code for one filter: 0x80 if the client may not subscribe to it, or what the router answers.
  abbrev pub answer_code : Bytes → Bytes × QoS → ℕ
  answer_code client_id (filter, qos) =
      if is_allowed (e.authorize_subscribe client_id filter) then code (filter, qos) else failure

  denied-later :
      (client_id : Bytes) (fs : List (Bytes × QoS)) (i j : ℕ)
      → j < i
      → contains j (authorize_filters e client_id i fs).denied_indices ≡ false
  unfolding authorize_filters
  denied-later client_id [] i j h = refl
  denied-later client_id ((f, q) ∷ fs) i j h =
      ground (arith, nat_beq_iff i j, denied-later client_id fs (suc i) j (omega arith))

  return_codes-earlier :
      (denied codes : List ℕ) (n i j : ℕ)
      → i < j
      → return_codes (i ∷ denied) n j codes ≡ return_codes denied n j codes
  unfolding return_codes
  return_codes-earlier denied codes zero i j h = refl
  return_codes-earlier denied [] (suc n) i j h =
      ground (arith, nat_beq_iff i j, return_codes-earlier denied [] n i (suc j) (omega arith))
  return_codes-earlier denied (c ∷ cs) (suc n) i j h = ground (
    arith,
    nat_beq_iff i j,
    return_codes-earlier denied (c ∷ cs) n i (suc j) (omega arith),
    return_codes-earlier denied cs n i (suc j) (omega arith),
  )

  return_codes-next :
      (client_id : Bytes) (f : Bytes × QoS) (fs : List (Bytes × QoS)) (i : ℕ) (b : Bool)
      → let later = authorize_filters e client_id (suc i) fs in
        let checked =
          if b
          then record later { authorized_filters = f ∷ later.authorized_filters }
          else record later { denied_indices = i ∷ later.denied_indices } in
        return_codes later.denied_indices (length fs) (suc i) (map code later.authorized_filters)
          ≡ some (map (answer_code client_id) fs)
        → return_codes checked.denied_indices
            (length (f ∷ fs))
            i
            (map code checked.authorized_filters)
          ≡ some ((if b then code f else failure) ∷ map (answer_code client_id) fs)
  unfolding return_codes
  return_codes-next client_id f fs i true h =
      rw (denied-later client_id fs (suc i) i (omega arith), h) refl
  return_codes-next client_id f fs i false h =
      let later = authorize_filters e client_id (suc i) fs in
      rw
        (
          beq_refl i,
          return_codes-earlier later.denied_indices (map code later.authorized_filters) (length fs)
              i (suc i) (omega arith),
          h,
        )
        refl

  pub return_codes-map :
      (client_id : Bytes) (fs : List (Bytes × QoS)) (i : ℕ)
      → let checked = authorize_filters e client_id i fs in
        return_codes checked.denied_indices (length fs) i (map code checked.authorized_filters)
        ≡ some (map (answer_code client_id) fs)
  unfolding authorize_filters return_codes
  return_codes-map client_id [] i = refl
  return_codes-map client_id ((f, q) ∷ fs) i =
      return_codes-next client_id (f, q) fs i (is_allowed (e.authorize_subscribe client_id f))
        (return_codes-map client_id fs (suc i))
