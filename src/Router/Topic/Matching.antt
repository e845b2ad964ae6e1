-- ===== src/Router/Topic/Matching.antt =====
-- `topic_matches` against the rules of MQTT 3.1.1 for topic filters, as an inductive relation.
use iotd.Prelude.{
  Bytes, ◌≡◌, ◌≢◌, refl, sym, ◌∙◌, ◌↔◌, inl, inr, true, List, [], ◌∷◌, is_empty, ◌==◌, nat_eq,
  bytes_eq, bytes_beq_iff, eq_of_beq, ne_of_beq, Bool-cases, arith,
}
use iotd.Router.Topic.{
  Level, hash, plus, split, validate_levels, validate_subscribe_filter, match_parts, topic_matches,
}

-- The levels of a topic name match the levels of a topic filter, by 4.7.1 of MQTT 3.1.1.
pub data Matches : List Level → List Level → Type 0 where
  done : Matches [] []
  -- `#` stands for all the levels that are left, also for none
  remaining : {f : Level} (ts : List Level) → f ≡ hash → Matches ts (f ∷ [])
  -- `+` stands for one level, whichever it is
  single : {t f : Level} {ts fs : List Level} → f ≡ plus → Matches ts fs → Matches (t ∷ ts) (f ∷ fs)
  -- any other level stands for itself
  literal :
      {t f : Level} {ts fs : List Level}
      → f ≢ hash
      → f ≢ plus
      → t ≡ f
      → Matches ts fs
      → Matches (t ∷ ts) (f ∷ fs)

-- No `+` of the filter stands at an empty level of the topic, which MQTT does not ask for.
pub data PlusIsFull : List Level → List Level → Type 0 where
  no_topic : {fs : List Level} → PlusIsFull [] fs
  no_filter : {ts : List Level} → PlusIsFull ts []
  full :
      {t f : Level} {ts fs : List Level}
      → ((f ≡ plus) → t ≢ [])
      → PlusIsFull ts fs
      → PlusIsFull (t ∷ ts) (f ∷ fs)

-- Both at once, level by level.
data Agrees : List Level → List Level → Type 0 where
  done : Agrees [] []
  remaining : {f : Level} (ts : List Level) → f ≡ hash → Agrees ts (f ∷ [])
  single :
      {t f : Level} {ts fs : List Level}
      → f ≡ plus
      → t ≢ []
      → Agrees ts fs
      → Agrees (t ∷ ts) (f ∷ fs)
  literal :
      {t f : Level} {ts fs : List Level}
      → f ≢ hash
      → f ≢ plus
      → t ≡ f
      → Agrees ts fs
      → Agrees (t ∷ ts) (f ∷ fs)

Agrees-Matches : {ts fs : List Level} → Agrees ts fs → Matches ts fs
Agrees-Matches Agrees.done = Matches.done
Agrees-Matches (Agrees.remaining ts e) = Matches.remaining ts e
Agrees-Matches (Agrees.single e ne m) = Matches.single e (Agrees-Matches m)
Agrees-Matches (Agrees.literal nh np e m) = Matches.literal nh np e (Agrees-Matches m)

Agrees-PlusIsFull : {ts fs : List Level} → Agrees ts fs → PlusIsFull ts fs
Agrees-PlusIsFull Agrees.done = no_topic
Agrees-PlusIsFull (Agrees.remaining [] e) = no_topic
Agrees-PlusIsFull (Agrees.remaining (t ∷ ts) e) =
    full (λ p empty. hash_not_plus (sym e ∙ p)) no_filter
  where
    hash_not_plus : hash ≢ plus
    hash_not_plus h = ground arith
Agrees-PlusIsFull (Agrees.single e ne m) = full (λ p. ne) (Agrees-PlusIsFull m)
Agrees-PlusIsFull (Agrees.literal nh np e m) = full (λ p. absurd (np p)) (Agrees-PlusIsFull m)

Matches-Agrees : {ts fs : List Level} → Matches ts fs → PlusIsFull ts fs → Agrees ts fs
Matches-Agrees Matches.done h = Agrees.done
Matches-Agrees (Matches.remaining ts e) h = Agrees.remaining ts e
Matches-Agrees (Matches.single e m) (full ne h) = Agrees.single e (ne e) (Matches-Agrees m h)
Matches-Agrees (Matches.literal nh np e m) (full ne h) = Agrees.literal nh np e (Matches-Agrees m h)

is_empty_iff : (l : List Level) → (is_empty l ≡ true) → l ≡ []
is_empty_iff [] h = refl
is_empty_iff (x ∷ l) h = cc

match_parts-Agrees : (ts fs : List Level) → match_parts ts fs ≡ true → Agrees ts fs
unfolding match_parts
match_parts-Agrees [] [] h = Agrees.done
match_parts-Agrees (t ∷ ts) [] h = cc
match_parts-Agrees [] (f ∷ []) h = Agrees.remaining [] (eq_of_beq f hash h)
match_parts-Agrees [] (f ∷ g ∷ fs) h = cc
match_parts-Agrees (t ∷ ts) (f ∷ fs) h = grind (
  arith,
  Agrees.remaining,
  Agrees.single,
  Agrees.literal,
  match_parts-Agrees ts fs,
  bytes_beq_iff,
)

Agrees-match_parts : {ts fs : List Level} → Agrees ts fs → match_parts ts fs ≡ true
unfolding match_parts
Agrees-match_parts Agrees.done = refl
Agrees-match_parts (Agrees.remaining [] e) = rw e
Agrees-match_parts (Agrees.remaining (t ∷ ts) e) = rw e
Agrees-match_parts (Agrees.single {t} {f} {ts} {fs} e ne m) =
    rw e (ground (arith, Agrees-match_parts m))
Agrees-match_parts (Agrees.literal {t} {f} {ts} {fs} nh np e m) =
    ground
      (arith, Agrees-match_parts m, bytes_beq_iff f hash, bytes_beq_iff f plus, bytes_beq_iff t f)

valid_tail :
    (l : Level) (ls : List Level) → validate_levels (l ∷ ls) ≡ true → validate_levels ls ≡ true
unfolding validate_levels
valid_tail l ls h = ground arith

hash_last : (l : Level) (ls : List Level) → l ≡ hash → validate_levels (l ∷ ls) ≡ true → ls ≡ []
unfolding validate_levels
hash_last l [] e h = refl
hash_last l (m ∷ ls) e h = cc (rw e at h)

-- A filter that SUBSCRIBE accepts matches itself, level by level: the test for equal texts with
-- which `topic_matches` starts is a shortcut only.
valid_self : (ls : List Level) → validate_levels ls ≡ true → Agrees ls ls
valid_self [] h = Agrees.done
valid_self (l ∷ ls) h = elim (Bool-cases (l == hash)) [
  | inl e ↦
      let is_hash = eq_of_beq l hash e in
      rw (hash_last l ls is_hash h) (Agrees.remaining (l ∷ []) is_hash)
  | inr n ↦ elim (Bool-cases (l == plus)) [
    | inl e ↦
        let is_plus = eq_of_beq l plus e in
        Agrees.single is_plus (λ empty. cc (sym is_plus ∙ empty))
          (valid_self ls (valid_tail l ls h))
    | inr m ↦
        Agrees.literal (ne_of_beq l hash n) (ne_of_beq l plus m) refl
          (valid_self ls (valid_tail l ls h))
  ]
]

valid_levels : (f : Bytes) → validate_subscribe_filter f ≡ true → validate_levels (split f) ≡ true
unfolding validate_subscribe_filter
valid_levels f h = ground arith

topic_matches-Agrees :
    (t f : Bytes)
    → validate_subscribe_filter f ≡ true
    → topic_matches t f ≡ true
    → Agrees (split t) (split f)
unfolding topic_matches
topic_matches-Agrees t f valid h = elim (Bool-cases (t == f)) [
  | inl e ↦ rw (eq_of_beq t f e) (valid_self (split f) (valid_levels f valid))
  | inr n ↦ match_parts-Agrees (split t) (split f) (rw n at h)
]

-- For every filter that SUBSCRIBE accepts, `topic_matches` holds of exactly the topics whose levels
-- match the filter's levels by 4.7.1 of MQTT 3.1.1 and have no empty level where the filter has `+`.
-- A topic that starts with `$` is matched like any other.
pub topic_matches_iff :
    (t f : Bytes)
    → validate_subscribe_filter f ≡ true
    → (topic_matches t f ≡ true) ↔ (Matches (split t) (split f) × PlusIsFull (split t) (split f))
unfolding topic_matches
topic_matches_iff t f valid = (
  λ h. let a = topic_matches-Agrees t f valid h in (Agrees-Matches a, Agrees-PlusIsFull a),
  λ (m, plus_full). elim (Bool-cases (t == f)) [
    | inl e ↦ rw e
    | inr n ↦ rw n (Agrees-match_parts (Matches-Agrees m plus_full))
  ],
)
