-- ===== src/Identity/Independence.antt =====
-- What `are_independent` of domain/identity.py promises to the checks that rest on it.
use super_scientist_orchestr.Prelude.{
  String, ◌≡◌, refl, ◌⊎◌, Option, none, some, arith, ==_comm, nat_eq, string_eq, option_eq, list_eq,
}
use super_scientist_orchestr.Identity.{ActorIdentity, correlated, are_independent}

-- Both actors declare the value `v` in the field.
abbrev pub BothDeclare : Option String → Option String → Type 0
BothDeclare left right = (v : String) × (left ≡ some v) × (right ≡ some v)

-- What correlates two actors: their name, or a declared part of how they operate.
abbrev pub IsCorrelated : ActorIdentity → ActorIdentity → Type 0
IsCorrelated left right =
    (left.actor_id ≡ right.actor_id)
    ⊎ BothDeclare left.provider_id right.provider_id
    ⊎ BothDeclare left.model_id right.model_id
    ⊎ BothDeclare left.adapter_id right.adapter_id
    ⊎ BothDeclare left.configuration_hash right.configuration_hash

correlated_comm : (l r : Option String) → correlated l r ≡ correlated r l
correlated_comm none none = refl
correlated_comm none (some r) = refl
correlated_comm (some l) none = refl
correlated_comm (some l) (some r) = ==_comm l r

-- Independence does not depend on the order of the two actors.
pub are_independent_comm :
    (left right : ActorIdentity) → are_independent left right ≡ are_independent right left
unfolding are_independent
are_independent_comm left right = ground (
  arith,
  ==_comm left.actor_id right.actor_id,
  correlated_comm left.provider_id right.provider_id,
  correlated_comm left.model_id right.model_id,
  correlated_comm left.adapter_id right.adapter_id,
  correlated_comm left.configuration_hash right.configuration_hash,
)
