-- ===== src/Prelude/Text/Order.antt =====
-- Texts are strictly ordered.
use Prim.Native.Nat.{Ordering}
use Prim.Native.Char.{Char, code}
use Prim.Native.String.{String, compare}
use Prim.Native.String.compare as compare_text
use mathlib.Core.Path.{◌≡◌, refl, ap, ◌∙◌}
use mathlib.Core.Bool.{Bool, true, false, ◌&&◌, ◌||◌}
use native.Mathlib.Omega.{arith}
use text.Mathlib.TextEquality.{Char-path}
use super_scientist_orchestr.Prelude.Tests.{ltb}
use super_scientist_orchestr.Prelude.Equality.{◌==◌, nat_eq}

-- `s < t` on texts: lexicographic by code points.
abbrev pub is_lt : Ordering → Bool
is_lt Ordering.lt = true
is_lt _ = false

abbrev pub text_lt : String → String → Bool
text_lt s t = is_lt (compare s t)

text_lt-cons :
    (c d : Char) (s t : String)
    → text_lt (String.◌∷◌ c s) (String.◌∷◌ d t)
      ≡ (ltb (code c) (code d) || code c == code d && text_lt s t)
text_lt-cons c d s t = ap is_lt (compare_text.cons-cons c d s t) ∙ ground arith

pub text_lt_asym : (s t : String) → text_lt s t ≡ true → text_lt t s ≡ false
text_lt_asym String.[] String.[] h = refl
text_lt_asym String.[] (String.◌∷◌ d t) h = ap is_lt (compare_text.cons-nil d t)
text_lt_asym (String.◌∷◌ c s) String.[] h =
    absurd (ground (arith, ap is_lt (compare_text.cons-nil c s)))
text_lt_asym (String.◌∷◌ c s) (String.◌∷◌ d t) h =
    ground (arith, text_lt-cons c d s t, text_lt-cons d c t s, text_lt_asym s t)

pub text_lt_trans : (s t u : String) → text_lt s t ≡ true → text_lt t u ≡ true → text_lt s u ≡ true
text_lt_trans s t String.[] h k = absurd (no_less t k)
  where
    no_less : (t : String) → text_lt t String.[] ≡ true → ⊥
    no_less String.[] k = cc
    no_less (String.◌∷◌ d t) k = ground (arith, ap is_lt (compare_text.cons-nil d t))
text_lt_trans String.[] t (String.◌∷◌ e u) h k = ap is_lt (compare_text.nil-cons e u)
text_lt_trans (String.◌∷◌ c s) String.[] (String.◌∷◌ e u) h k =
    absurd (ground (arith, ap is_lt (compare_text.cons-nil c s)))
text_lt_trans (String.◌∷◌ c s) (String.◌∷◌ d t) (String.◌∷◌ e u) h k =
    ground
      (arith, text_lt-cons c d s t, text_lt-cons d e t u, text_lt-cons c e s u, text_lt_trans s t u)

-- Of two different texts one is the lesser.
pub text_lt_total : (s t : String) → text_lt s t ≡ false → text_lt t s ≡ false → s ≡ t
text_lt_total String.[] String.[] h k = refl
text_lt_total String.[] (String.◌∷◌ d t) h k =
    absurd (ground (arith, ap is_lt (compare_text.nil-cons d t)))
text_lt_total (String.◌∷◌ c s) String.[] h k =
    absurd (ground (arith, ap is_lt (compare_text.nil-cons c s)))
text_lt_total (String.◌∷◌ c s) (String.◌∷◌ d t) h k =
    let same : c ≡ d = Char-path c d (ground (arith, text_lt-cons c d s t, text_lt-cons d c t s)) in
    let rest : s ≡ t =
      text_lt_total s t (ground (arith, text_lt-cons c d s t, text_lt-cons d c t s))
        (ground (arith, text_lt-cons c d s t, text_lt-cons d c t s)) in
    cc
