-- ===== src/Auth/Acl.antt =====
-- src/auth/acl_file.rs: the rules of an access control list. A rule names one client and one topic or
-- filter, which is compared as it is written.
use iotd.Prelude.{
  Bytes, ◌≡◌, ◌⊎◌, Bool, true, false, List, [], ◌∷◌, not, ◌==◌, bytes_eq, if◌then◌else◌,
}
use iotd.Auth.Types.{AuthResult}

pub data Permission : Type 0 where
  publish subscribe publish_subscribe : Permission

pub record AclRule : Type 0 where
  pub client_id : Bytes
  pub permission : Permission
  pub topic_filter : Bytes

abbrev pub may_publish : Permission → Bool
may_publish Permission.publish = true
may_publish Permission.subscribe = false
may_publish Permission.publish_subscribe = true

abbrev pub may_subscribe : Permission → Bool
may_subscribe Permission.publish = false
may_subscribe Permission.subscribe = true
may_subscribe Permission.publish_subscribe = true

-- The loop over the rules, by the permission that is asked for.
unfoldable pub authorize : (Permission → Bool) → Bytes → Bytes → List AclRule → AuthResult
authorize permits client_id topic [] = AuthResult.not_authorized
authorize permits client_id topic (rule ∷ rules) =
    let rest = authorize permits client_id topic rules in
    if not (rule.client_id == client_id)
    then rest
    else if not (permits rule.permission)
    then rest
    else if rule.topic_filter == topic
    then AuthResult.allowed
    else rest

unfoldable pub authorize_publish : List AclRule → Bytes → Bytes → AuthResult
authorize_publish rules client_id topic = authorize may_publish client_id topic rules

unfoldable pub authorize_subscribe : List AclRule → Bytes → Bytes → AuthResult
authorize_subscribe rules client_id topic_filter =
    authorize may_subscribe client_id topic_filter rules

-- The rule stands in the list.
abbrev pub IsRule : AclRule → List AclRule → Type 0
IsRule rule [] = ⊥
IsRule rule (r ∷ rules) = (rule ≡ r) ⊎ IsRule rule rules

-- A rule for this client and this topic, with the permission.
abbrev pub Permits : (Permission → Bool) → Bytes → Bytes → AclRule → Type 0
Permits permits client_id topic rule =
    (rule.client_id ≡ client_id) × (permits rule.permission ≡ true) × (rule.topic_filter ≡ topic)

abbrev pub HasRule : (Permission → Bool) → Bytes → Bytes → List AclRule → Type 0
HasRule permits client_id topic rules =
    (rule : AclRule) × IsRule rule rules × Permits permits client_id topic rule
