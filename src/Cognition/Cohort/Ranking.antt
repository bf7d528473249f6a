-- ===== src/Cognition/Cohort/Ranking.antt =====
-- The order that `ranked.sort` gives the candidates for a cohort.
use super_scientist_orchestr.Prelude.{
  String, ◌≡◌, sym, ap, ◌∙◌, inl, inr, Bool, true, false, not, List, arith, Bool-cases, text_lt,
  sorted-mem, IsOrdered, sorted-IsOrdered, text_lt_asym, text_lt_trans, text_lt_total,
}
use super_scientist_orchestr.Cognition.Candidates.{Candidate, actor_of, ranks_before, rank}
use mathlib.Core.Bool.{false≢true}
use mathlib.Core.List.{Memᴰ}

-- `a` may stand before `b`.
abbrev pub may_precede : Candidate → Candidate → Bool
may_precede a b = not (ranks_before b a)

ranks_before_asym : (a b : Candidate) → ranks_before a b ≡ true → ranks_before b a ≡ false
ranks_before_asym a b h = ground (arith, text_lt_asym (actor_of a) (actor_of b))

text_not_lt_trans : (s t u : String) → text_lt s u ≡ true → text_lt s t ≡ false → text_lt t u ≡ true
text_not_lt_trans s t u h k = elim (Bool-cases (text_lt t s)) [
  | inl less ↦ text_lt_trans t s u less h
  | inr same ↦ rw (← text_lt_total s t k same) h
]

-- What stands before the last of three stands before the second, or the second before the last.
ranks_before_split :
    (a b c : Candidate)
    → ranks_before a c ≡ true
    → ranks_before a b ≡ false
    → ranks_before b c ≡ true
ranks_before_split a b c h k =
    ground (arith, text_not_lt_trans (actor_of a) (actor_of b) (actor_of c))

may_precede_total : (a b : Candidate) → may_precede a b ≡ false → may_precede b a ≡ true
may_precede_total a b h = ground (arith, ranks_before_asym b a)

not-true : {b : Bool} → not b ≡ true → b ≡ false
not-true {b} h = ground arith

may_precede_trans :
    (a b c : Candidate) → may_precede a b ≡ true → may_precede b c ≡ true → may_precede a c ≡ true
may_precede_trans a b c h k = elim (Bool-cases (ranks_before c a)) [
  | inl before ↦
      let clash : ranks_before b a ≡ true = ranks_before_split c b a before (not-true k) in
      absurd (false≢true (sym (not-true h) ∙ clash))
  | inr after ↦ ap not after
]

-- Every candidate is ranked, and none but the candidates.
pub rank-mem : (cs : List Candidate) {c : Candidate} → Memᴰ c cs → Memᴰ c (rank cs)
unfolding rank
rank-mem cs m = sorted-mem may_precede cs m

pub rank-IsOrdered : (cs : List Candidate) → IsOrdered may_precede (rank cs)
unfolding rank
rank-IsOrdered cs = sorted-IsOrdered may_precede may_precede_total may_precede_trans cs
