-- ===== src/Rules/Precedence.antt =====
-- Versions increase in a strict order.
use super_scientist_orchestr.Prelude.{
  some_inj, String, ◌≡◌, refl, ap, true, false, Option, none, some, List, [], ◌∷◌, arith, ==_comm,
  nat_eq, string_eq, option_eq, list_eq, text_lt_asym,
}
use super_scientist_orchestr.Rules.Versions.{
  VersionParts, part_increases, prerelease_increases, release_increases, parts_increase, both_parts,
  semantic_version_parts, semantic_version_increases,
}

part_increases_asym : (p q : String) → part_increases p q ≡ true → part_increases q p ≡ false
unfolding part_increases
part_increases_asym p q h = ground (arith, text_lt_asym p q, text_lt_asym q p)

prerelease_increases_asym :
    (ps qs : List String) → prerelease_increases ps qs ≡ true → prerelease_increases qs ps ≡ false
unfolding prerelease_increases
prerelease_increases_asym [] qs h = cc
prerelease_increases_asym (p ∷ ps) [] h = refl
prerelease_increases_asym (p ∷ ps) (q ∷ qs) h =
    ground (arith, ==_comm p q, part_increases_asym p q, prerelease_increases_asym ps qs)

release_increases_asym :
    (p q : Option (List String)) → release_increases p q ≡ true → release_increases q p ≡ false
release_increases_asym none none h = refl
release_increases_asym none (some q) h = refl
release_increases_asym (some p) none h = cc
release_increases_asym (some p) (some q) h = prerelease_increases_asym p q h

parts_increase_asym : (a b : VersionParts) → parts_increase a b ≡ true → parts_increase b a ≡ false
unfolding parts_increase
parts_increase_asym a b h = ground (arith, release_increases_asym a.prerelease b.prerelease)

both_parts_asym :
    (x y : Option VersionParts) → both_parts x y ≡ some true → both_parts y x ≡ some false
both_parts_asym none y h = cc
both_parts_asym (some a) none h = cc
both_parts_asym (some a) (some b) h = ap some (parts_increase_asym a b (some_inj h))

-- Of two versions at most one increases over the other; in particular no version increases over
-- itself.
pub semantic_version_increases_asym :
    (a b : String)
    → semantic_version_increases a b ≡ some true
    → semantic_version_increases b a ≡ some false
unfolding semantic_version_increases
semantic_version_increases_asym a b h =
    both_parts_asym (semantic_version_parts a) (semantic_version_parts b) h
