-- ===== src/Trails/Heights.antt =====
-- Heights of the finished nodes of a search, which every edge descends.
use super_scientist_orchestr.Prelude.{
  ℕ, suc, ◌<◌, String, ◌≡◌, refl, sym, ap, ◌∙◌, subst, ◌≢◌, inl, inr, false, List, arith,
  if◌then◌else◌, Bool-cases, ◌==◌, ==_iff, ==_refl, nat_eq, string_eq, option_eq, list_eq, pair_eq,
  bool_eq,
}
use super_scientist_orchestr.Trails.{Mark, State, set_mark}
use super_scientist_orchestr.Trails.Search.{set_mark-off, Edge}

module _ (adjacency : String → List String) where
  -- The finished nodes lead only to lower finished nodes.
  pub record IsRanked (s : State) : Type 0 where
    pub height : String → ℕ
    pub bound : ℕ
    pub below : (u : String) → s u ≡ Mark.finished → height u < bound
    pub descends :
        (u t : String)
        → s u ≡ Mark.finished
        → Edge adjacency u t
        → (s t ≡ Mark.finished) × (height t < height u)

  pub IsRanked-map :
      (s s' : State)
      → ((x : String) → s x ≡ Mark.finished → s' x ≡ Mark.finished)
      → ((x : String) → s' x ≡ Mark.finished → s x ≡ Mark.finished)
      → IsRanked s
      → IsRanked s'
  IsRanked-map s s' there back ranked = record {
    height = ranked.height;
    bound = ranked.bound;
    below = λ u f. ranked.below u (back u f);
    descends = λ u t f e. let (g, lower) = ranked.descends u t (back u f) e in (there t g, lower);
  }

  -- The heights with a new node on top.
  abbrev pub raised : String → ℕ → (String → ℕ) → String → ℕ
  raised v bound height x = if x == v then bound else height x

  raised-at : (v : String) (bound : ℕ) (height : String → ℕ) → raised v bound height v ≡ bound
  raised-at v bound height = rw (==_refl v) refl

  raised-off :
      (v : String) (bound : ℕ) (height : String → ℕ) (x : String)
      → (x == v) ≡ false
      → raised v bound height x ≡ height x
  raised-off v bound height x h = rw h refl

  -- A finished node is another node than one that is not.
  finished-apart :
      (s : State) (v x : String) → s v ≢ Mark.finished → s x ≡ Mark.finished → (x == v) ≡ false
  finished-apart s v x still f = elim (Bool-cases (x == v)) [
    | inl same ↦ absurd (still (ap s (sym ((==_iff x v).0 same)) ∙ f))
    | inr other ↦ other
  ]

  -- To finish a node whose targets are all finished.
  pub IsRanked-finish :
      (s : State) (v : String)
      → s v ≢ Mark.finished
      → ((t : String) → Edge adjacency v t → s t ≡ Mark.finished)
      → IsRanked s
      → IsRanked (set_mark s v Mark.finished)
  IsRanked-finish s v still ends ranked =
      let s' = set_mark s v Mark.finished in
      let keeps = λ (x : String) (f : s x ≡ Mark.finished).
        set_mark-off s v Mark.finished x (finished-apart s v x still f) ∙ f in
      let same = λ (x : String) (f : s x ≡ Mark.finished).
        raised-off v ranked.bound ranked.height x (finished-apart s v x still f) in
      record {
        height = raised v ranked.bound ranked.height;
        bound = suc ranked.bound;
        below = λ u f. elim (Bool-cases (u == v)) [
          | inl e ↦ ground arith
          | inr other ↦
              let g : s u ≡ Mark.finished = sym (set_mark-off s v Mark.finished u other) ∙ f in
              let b = ranked.below u g in let h = same u g in omega arith
        ];
        descends = λ u t f e. elim (Bool-cases (u == v)) [
          | inl at_v ↦
              let g = ends t (subst (λ w. Edge adjacency w t) ((==_iff u v).0 at_v) e) in
              let b = ranked.below t g in
              let h = same t g in
              let top : raised v ranked.bound ranked.height u ≡ ranked.bound = rw at_v refl in
              (keeps t g, omega arith)
          | inr other ↦
              let k : s u ≡ Mark.finished = sym (set_mark-off s v Mark.finished u other) ∙ f in
              let (g, lower) = ranked.descends u t k e in
              let h = same t g in let h' = same u k in (keeps t g, omega arith)
        ];
      }
