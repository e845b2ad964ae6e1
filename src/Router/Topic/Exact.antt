-- ===== src/Router/Topic/Exact.antt =====
-- Filters without wildcards, for which the router looks up one topic in place of a search.
use iotd.Prelude.{
  ℕ, Bytes, ◌≡◌, ◌≢◌, refl, sym, ap, ◌∙◌, ◌↔◌, inl, inr, true, false, List, [], ◌∷◌, ◌++◌, contains,
  ◌==◌, nat_eq, bytes_eq, bytes_beq_iff, beq_refl, beq_ne, eq_of_beq, Bool-cases, arith, All,
}
use iotd.Router.Topic.{
  Level, hash, plus, split, push_front, has_wildcards, match_parts, topic_matches,
}

-- The levels joined by `/` again.
join : List Level → Bytes
join [] = []
join (l ∷ []) = l
join (l ∷ m ∷ ls) = l ++ (b'/' ∷ join (m ∷ ls))

join-push_front : (c : ℕ) (ls : List Level) → join (push_front c ls) ≡ c ∷ join ls
unfolding join
join-push_front c [] = refl
join-push_front c (l ∷ []) = refl
join-push_front c (l ∷ m ∷ ls) = refl

join-slash : (ls : List Level) → ls ≢ [] → join ([] ∷ ls) ≡ b'/' ∷ join ls
unfolding join
join-slash [] h = absurd (h refl)
join-slash (l ∷ ls) h = refl

split-ne-nil : (s : Bytes) → split s ≢ []
unfolding split
split-ne-nil [] h = cc
split-ne-nil (c ∷ cs) h = ground arith

join-split : (s : Bytes) → join (split s) ≡ s
unfolding split
join-split [] = unfold join in refl
join-split (c ∷ cs) = elim (Bool-cases (c == b'/')) [
  | inl e ↦ rw e (join-slash (split cs) (split-ne-nil cs) ∙ cc (join-split cs, eq_of_beq c b'/' e))
  | inr n ↦ rw n (join-push_front c (split cs) ∙ ap (◌∷◌ c) (join-split cs))
]

split-injective : (s t : Bytes) → split s ≡ split t → s ≡ t
split-injective s t h = sym (join-split s) ∙ ap join h ∙ join-split t

-- A byte that does not stand in the text stands in none of its levels.
absent_push :
    (b c : ℕ) (ls : List Level)
    → (c == b) ≡ false
    → All (λ l. contains b l ≡ false) ls
    → All (λ l. contains b l ≡ false) (push_front c ls)
absent_push b c [] h a = (rw h, tt)
absent_push b c (l ∷ ls) h a = (rw h a.0, a.1)

absent_split :
    (b : ℕ) (s : Bytes) → contains b s ≡ false → All (λ l. contains b l ≡ false) (split s)
unfolding split
absent_split b [] h = (refl, tt)
absent_split b (c ∷ cs) h = elim (Bool-cases (c == b'/')) [
  | inl e ↦ rw e (refl, absent_split b cs (ground arith))
  | inr n ↦ rw n (absent_push b c (split cs) (ground arith) (absent_split b cs (ground arith)))
]

not_hash : (l : Level) → contains b'#' l ≡ false → (l == hash) ≡ false
not_hash l h = beq_ne l hash (λ e. cc (rw e at h))

not_plus : (l : Level) → contains b'+' l ≡ false → (l == plus) ≡ false
not_plus l h = beq_ne l plus (λ e. cc (rw e at h))

plain_match :
    (ts fs : List Level)
    → All (λ l. contains b'+' l ≡ false) fs
    → All (λ l. contains b'#' l ≡ false) fs
    → match_parts ts fs ≡ true
    → ts ≡ fs
unfolding match_parts
plain_match [] [] p q h = refl
plain_match (t ∷ ts) [] p q h = cc
plain_match [] (f ∷ fs) p q h = ground (arith, not_hash f q.0)
plain_match (t ∷ ts) (f ∷ fs) p q h =
    ground (arith, not_hash f q.0, not_plus f p.0, bytes_beq_iff t f, plain_match ts fs p.1 q.1)

-- A filter without `+` and `#` matches the topic that it spells, and no other.
pub topic_matches-plain :
    (t f : Bytes) → has_wildcards f ≡ false → (topic_matches t f ≡ true) ↔ (t ≡ f)
unfolding topic_matches has_wildcards
topic_matches-plain t f plain = (
  λ h. elim (Bool-cases (t == f)) [
    | inl e ↦ eq_of_beq t f e
    | inr n ↦ split-injective t f (
        plain_match (split t) (split f) (absent_split b'+' f (ground arith))
          (absent_split b'#' f (ground arith)) (rw n at h))
  ],
  λ e. rw (e, beq_refl f),
)
