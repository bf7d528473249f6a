-- ===== src/Json.antt =====
-- The JSON-like values that the source keeps in audit payloads and structured observations
-- (kernel/audit/models.py and domain/evidence/models.py), and how it freezes them.
pub mod Freezing
use super_scientist_orchestr.Prelude.{
  ℕ, String, Bool, true, false, nat_eq, string_eq, option_eq, list_eq,
}

-- An `int`: `negative n` is -(n + 1).
pub data Integer : Type 0 where
  natural negative : ℕ → Integer

mutual
  -- A Python object. A float carries whether it is finite and its `repr`; `other` is a value of any
  -- type that is not listed, by the name of its type.
  pub data Value : Type 0 where
    null : Value
    boolean : Bool → Value
    integer : Integer → Value
    float : Bool → String → Value
    text : String → Value
    sequence : Values → Value
    collection : Values → Value
    mapping : Items → Value
    other : String → Value

  pub data Values : Type 0 where
    nil : Values
    cons : Value → Values → Values

  pub data Items : Type 0 where
    end : Items
    item : Value → Value → Items → Items

-- The `ValueError`s that freezing raises.
pub data FreezeError : Type 0 where
  key_is_not_text unordered_collection : FreezeError
  unsupported : String → FreezeError

pub data Frozen {ℓ} (A : Type ℓ) : Type ℓ where
  frozen : A → Frozen A
  refused : FreezeError → Frozen A

infixl 5 ◌>>=◌
abbrev pub ◌>>=◌ {ℓ κ} : {A : Type ℓ} {B : Type κ} → Frozen A → (A → Frozen B) → Frozen B
frozen a >>= f = f a
refused e >>= f = refused e

-- The key of an item: only a text is a key.
abbrev pub require_text : Value → Frozen Value
require_text (text k) = frozen (text k)
require_text _ = refused FreezeError.key_is_not_text

-- `_freeze_json_value` of kernel/audit/models.py. The keys of a mapping are distinct, so that the new
-- dict has the items in their order.
unfoldable mutual
  pub freeze_json_value : Value → Frozen Value
  freeze_json_value null = frozen null
  freeze_json_value (boolean b) = frozen (boolean b)
  freeze_json_value (integer i) = frozen (integer i)
  freeze_json_value (float true r) = frozen (float true r)
  freeze_json_value (float false r) = refused (FreezeError.unsupported "float")
  freeze_json_value (text t) = frozen (text t)
  freeze_json_value (sequence xs) = do ys ← freeze_values xs; frozen (sequence ys)
  freeze_json_value (collection xs) = refused FreezeError.unordered_collection
  freeze_json_value (mapping ms) = do ns ← freeze_items ms; frozen (mapping ns)
  freeze_json_value (other n) = refused (FreezeError.unsupported n)

  pub freeze_values : Values → Frozen Values
  freeze_values nil = frozen nil
  freeze_values (cons x xs) = do y ← freeze_json_value x; ys ← freeze_values xs; frozen (cons y ys)

  pub freeze_items : Items → Frozen Items
  freeze_items end = frozen end
  freeze_items (item k v ms) = do
    key ← require_text k
    w ← freeze_json_value v
    ns ← freeze_items ms
    frozen (item key w ns)
