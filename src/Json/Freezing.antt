-- ===== src/Json/Freezing.antt =====
-- What `_freeze_json_value` accepts and returns.
use super_scientist_orchestr.Prelude.{
  ◌≡◌, refl, ◌↔◌, ◌⊎◌, inl, inr, Bool, true, false, ◌&&◌, arith, and_left, and_right, nat_eq,
  string_eq, option_eq, list_eq,
}
use super_scientist_orchestr.Json.{
  Value, Values, Items, null, boolean, integer, float, text, sequence, collection, mapping, other,
  nil, cons, end, item, Frozen, frozen, refused, freeze_json_value, freeze_values, freeze_items,
  FreezeError, ◌>>=◌,
}

Frozen-cases {ℓ} :
    {A : Type ℓ} (r : Frozen A) → ((a : A) × (r ≡ frozen a)) ⊎ ((e : FreezeError) × (r ≡ refused e))
Frozen-cases (frozen a) = inl (a, refl)
Frozen-cases (refused e) = inr (e, refl)

bind_inv {ℓ κ} :
    {A : Type ℓ} {B : Type κ} (r : Frozen A) (f : A → Frozen B) {b : B}
    → (r >>= f) ≡ frozen b
    → (a : A) × (r ≡ frozen a) × (f a ≡ frozen b)
bind_inv (frozen a) f h = (a, refl, h)
bind_inv (refused e) f h = cc

-- A value of JSON: finite numbers, ordered sequences, mappings with texts as keys.
unfoldable mutual
  pub is_json : Value → Bool
  is_json (float finite r) = finite
  is_json (sequence xs) = are_json xs
  is_json (collection xs) = false
  is_json (mapping ms) = items_are_json ms
  is_json (other n) = false
  is_json _ = true

  pub are_json : Values → Bool
  are_json nil = true
  are_json (cons x xs) = is_json x && are_json xs

  pub items_are_json : Items → Bool
  items_are_json end = true
  items_are_json (item (text k) v ms) = is_json v && items_are_json ms
  items_are_json (item _ v ms) = false

mutual
  unfolding is_json freeze_json_value

  freeze_of_json : (v : Value) → is_json v ≡ true → freeze_json_value v ≡ frozen v
  freeze_of_json null h = refl
  freeze_of_json (boolean b) h = refl
  freeze_of_json (integer i) h = refl
  freeze_of_json (float finite r) h = ground arith
  freeze_of_json (text t) h = refl
  freeze_of_json (sequence xs) h = rw (freeze_values_of_json xs h)
  freeze_of_json (collection xs) h = cc
  freeze_of_json (mapping ms) h = rw (freeze_items_of_json ms h)
  freeze_of_json (other n) h = cc

  freeze_values_of_json : (xs : Values) → are_json xs ≡ true → freeze_values xs ≡ frozen xs
  freeze_values_of_json nil h = refl
  freeze_values_of_json (cons x xs) h = rw (
    freeze_of_json x (and_left (is_json x) (are_json xs) h),
    freeze_values_of_json xs (and_right (is_json x) (are_json xs) h),
  )

  freeze_items_of_json : (ms : Items) → items_are_json ms ≡ true → freeze_items ms ≡ frozen ms
  freeze_items_of_json end h = refl
  freeze_items_of_json (item (text k) v ms) h = rw (
    freeze_of_json v (and_left (is_json v) (items_are_json ms) h),
    freeze_items_of_json ms (and_right (is_json v) (items_are_json ms) h),
  )
  freeze_items_of_json (item _ v ms) h = cc

mutual
  unfolding is_json freeze_json_value

  json_of_frozen : (v w : Value) → freeze_json_value v ≡ frozen w → (is_json v ≡ true) × (w ≡ v)
  json_of_frozen null w h = (refl, cc)
  json_of_frozen (boolean b) w h = (refl, cc)
  json_of_frozen (integer i) w h = (refl, cc)
  json_of_frozen (float true r) w h = (refl, cc)
  json_of_frozen (float false r) w h = cc
  json_of_frozen (text t) w h = (refl, cc)
  json_of_frozen (sequence xs) w h = elim (Frozen-cases (freeze_values xs)) [
    | inl (ys, e) ↦ ground (arith, json_of_frozen_values xs ys e)
    | inr (f, e) ↦ ground arith
  ]
  json_of_frozen (collection xs) w h = cc
  json_of_frozen (mapping ms) w h = elim (Frozen-cases (freeze_items ms)) [
    | inl (ns, e) ↦ ground (arith, json_of_frozen_items ms ns e)
    | inr (f, e) ↦ ground arith
  ]
  json_of_frozen (other n) w h = cc

  json_of_frozen_values :
      (xs ys : Values) → freeze_values xs ≡ frozen ys → (are_json xs ≡ true) × (ys ≡ xs)
  json_of_frozen_values nil ys h = (refl, cc)
  json_of_frozen_values (cons x xs) ys h =
      let (y, p, h') = bind_inv (freeze_json_value x) _ h in
      let (zs, q, r) = bind_inv (freeze_values xs) _ h' in
      ground (arith, json_of_frozen x y p, json_of_frozen_values xs zs q)

  json_of_frozen_items :
      (ms ns : Items) → freeze_items ms ≡ frozen ns → (items_are_json ms ≡ true) × (ns ≡ ms)
  json_of_frozen_items end ns h = (refl, cc)
  json_of_frozen_items (item (text k) v ms) ns h =
      let (w, p, h') = bind_inv (freeze_json_value v) _ h in
      let (zs, q, r) = bind_inv (freeze_items ms) _ h' in
      ground (arith, json_of_frozen v w p, json_of_frozen_items ms zs q)
  json_of_frozen_items (item _ v ms) ns h = cc

-- Freezing returns exactly on the values of JSON, and returns the value that it was given.
pub freeze_json_value_iff :
    (v w : Value) → (freeze_json_value v ≡ frozen w) ↔ ((is_json v ≡ true) × (w ≡ v))
freeze_json_value_iff v w = (json_of_frozen v w, λ (h, same). rw same (freeze_of_json v h))
