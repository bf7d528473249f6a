-- ===== src/Identity.antt =====
-- domain/identity.py: the actors that propose, approve and validate, and when two of them count
-- as independent.
pub mod Independence
use super_scientist_orchestr.Prelude.{
  ℕ, String, ◌≡◌, Bool, false, not, ◌&&◌, ◌||◌, Option, none, some, String-discrete, ℕ_discrete,
  decide, eq→discrete, indexed_eq, arith, if◌then◌else◌, Eq, ◌==◌, nat_eq, string_eq, option_eq,
  list_eq, discrete_eq,
}

pub data ActorKind : Type 0 where
  human model tool service : ActorKind

abbrev pub kind_index : ActorKind → ℕ
kind_index ActorKind.human = 0
kind_index ActorKind.model = 1
kind_index ActorKind.tool = 2
kind_index ActorKind.service = 3

pub kind_index_inj : (a b : ActorKind) → kind_index a ≡ kind_index b → a ≡ b
kind_index_inj a b h = ground arith

instance abbrev pub kind_eq : Eq ActorKind
kind_eq = indexed_eq kind_index kind_index_inj

unfoldable pub ActorKind-discrete : Discrete ActorKind
unfolding eq→discrete
ActorKind-discrete = eq→discrete kind_eq

-- A timestamp is the number of microseconds since the least `datetime`.
pub record ActorIdentity : Type 0 where
  pub actor_id : String
  pub kind : ActorKind
  pub created_at : ℕ
  pub provider_id : Option String
  pub model_id : Option String
  pub adapter_id : Option String
  pub configuration_hash : Option String

unfoldable pub ActorIdentity-discrete : Discrete ActorIdentity
unfolding decide String-discrete ActorKind-discrete ℕ_discrete
ActorIdentity-discrete = hlevel (String-discrete, ℕ_discrete, ActorKind-discrete)

instance abbrev pub actor_eq : Eq ActorIdentity
actor_eq = discrete_eq ActorIdentity-discrete

-- The validator `require_model_identity`.
unfoldable pub has_model_identity : ActorIdentity → Bool
has_model_identity a =
    not (a.kind == ActorKind.model && (a.provider_id == none || a.model_id == none))

-- One pair of `correlated_fields`: both are declared, and they are equal.
abbrev pub correlated : Option String → Option String → Bool
correlated (some l) (some r) = l == r
correlated _ _ = false

unfoldable pub are_independent : ActorIdentity → ActorIdentity → Bool
are_independent left right =
    if left.actor_id == right.actor_id
    then false
    else not (
        correlated left.provider_id right.provider_id
        || correlated left.model_id right.model_id
        || correlated left.adapter_id right.adapter_id
        || correlated left.configuration_hash right.configuration_hash)
