-- ===== src/Auth/AclFile.antt =====
-- src/auth/acl_file.rs: `AclFileAuthorizer::new`. What `read_to_string` gives is a parameter, `none` for
-- its error.
use iotd.Prelude.{
  ◌≡◌, refl, ap, Bytes, false, Option, none, some, List, [], ◌∷◌, ◌++◌, is_empty, All, ◌==◌, ◌||◌,
  bytes_eq, nat_eq, contains, if◌then◌else◌,
}
use iotd.Protocol.Packet.{ascii}
use iotd.Auth.Text.{
  lines, trim, split_once, starts_with, IsTrimmed, trim-IsTrimmed, lines-append, split_once-append,
}
use iotd.Auth.Acl.{Permission, AclRule}

unfoldable pub permission_of : Bytes → Option Permission
permission_of word =
    if word == ascii "pub"
    then some Permission.publish
    else if word == ascii "sub"
    then some Permission.subscribe
    else if word == ascii "pubsub"
    then some Permission.publish_subscribe
    else none

abbrev pub make_rule : Bytes → Bytes → Option Permission → Option AclRule
make_rule client_id topic_filter none = none
make_rule client_id topic_filter (some permission) =
    some (record { client_id = client_id; permission = permission; topic_filter = topic_filter })

-- The three parts of `line.splitn(3, ' ')`.
unfoldable pub rule_of_parts : Bytes → Option AclRule
rule_of_parts line = elim (split_once 32 line) [
  | none ↦ none
  | some (client_id, rest) ↦ elim (split_once 32 rest) [
    | none ↦ none
    | some (word, topic_filter) ↦ make_rule client_id topic_filter (permission_of word)
  ]
]

-- One turn of the loop: the rule of the line, or `continue`.
unfoldable pub rule_of_line : Bytes → Option AclRule
rule_of_line line =
    let line' = trim line in
    if is_empty line' || starts_with 35 line' then none else rule_of_parts line'

unfoldable pub rules_of_lines : List Bytes → List AclRule
rules_of_lines [] = []
rules_of_lines (line ∷ rest) = elim (rule_of_line line) [
  | none ↦ rules_of_lines rest
  | some rule ↦ rule ∷ rules_of_lines rest
]

unfoldable pub new : Option Bytes → Option (List AclRule)
new none = none
new (some contents) = some (rules_of_lines (lines contents))

-- How a rule is written.
abbrev pub word_of : Permission → Bytes
word_of Permission.publish = ascii "pub"
word_of Permission.subscribe = ascii "sub"
word_of Permission.publish_subscribe = ascii "pubsub"

abbrev pub print_rule : AclRule → Bytes
print_rule r = r.client_id ++ (32 ∷ (word_of r.permission ++ (32 ∷ r.topic_filter)))

abbrev pub print_rules : List AclRule → Bytes
print_rules [] = []
print_rules (r ∷ rules) = print_rule r ++ 10 ∷ print_rules rules

-- A rule that a line can hold: no space in the name, no line end, no comment, and nothing to trim.
abbrev pub IsPrintable : AclRule → Type 0
IsPrintable r =
    (contains 32 r.client_id ≡ false)
    × (contains 10 (print_rule r) ≡ false)
    × (contains 13 (print_rule r) ≡ false)
    × (starts_with 35 r.client_id ≡ false)
    × IsTrimmed (print_rule r)

permission_of-word_of : (p : Permission) → permission_of (word_of p) ≡ some p
unfolding permission_of
permission_of-word_of Permission.publish = refl
permission_of-word_of Permission.subscribe = refl
permission_of-word_of Permission.publish_subscribe = refl

word_of-contains : (p : Permission) → contains 32 (word_of p) ≡ false
word_of-contains Permission.publish = refl
word_of-contains Permission.subscribe = refl
word_of-contains Permission.publish_subscribe = refl

starts_with-append :
    (l s : Bytes)
    → starts_with 35 l ≡ false
    → is_empty (l ++ 32 ∷ s) || starts_with 35 (l ++ 32 ∷ s) ≡ false
starts_with-append [] s h = refl
starts_with-append (c ∷ l) s h = h

print_rule-IsRule :
    (r : AclRule)
    → starts_with 35 r.client_id ≡ false
    → is_empty (print_rule r) || starts_with 35 (print_rule r) ≡ false
print_rule-IsRule r = starts_with-append r.client_id (word_of r.permission ++ (32 ∷ r.topic_filter))

rule_of_parts-print_rule :
    (r : AclRule) → contains 32 r.client_id ≡ false → rule_of_parts (print_rule r) ≡ some r
unfolding rule_of_parts
rule_of_parts-print_rule r h =
    rw
      (
        rule_of_parts,
        split_once-append 32 r.client_id (word_of r.permission ++ (32 ∷ r.topic_filter)) h,
        split_once-append 32 (word_of r.permission) r.topic_filter (word_of-contains r.permission),
        permission_of-word_of r.permission,
      )
      refl

rule_of_line-print_rule : (r : AclRule) → IsPrintable r → rule_of_line (print_rule r) ≡ some r
unfolding rule_of_line
rule_of_line-print_rule r h =
    rw (rule_of_line, trim-IsTrimmed (print_rule r) h.4, print_rule-IsRule r h.3)
      (rule_of_parts-print_rule r h.0)

rules_of_lines-print_rules :
    (rules : List AclRule)
    → All IsPrintable rules
    → rules_of_lines (lines (print_rules rules)) ≡ rules
unfolding rules_of_lines lines
rules_of_lines-print_rules [] h = refl
rules_of_lines-print_rules (r ∷ rules) (p, h) =
    rw
      (
        lines-append (print_rule r) (print_rules rules) p.1 p.2,
        rules_of_lines,
        rule_of_line-print_rule r p,
        rules_of_lines-print_rules rules h,
      )
      refl

-- From the file in which these rules are written, one in each line, these rules are read.
pub new-print_rules :
    (rules : List AclRule) → All IsPrintable rules → new (some (print_rules rules)) ≡ some rules
unfolding new
new-print_rules rules h = ap some (rules_of_lines-print_rules rules h)
