-- ===== src/Agent/Acceptance.antt =====
-- pkg/agent/compiler.go: the agents that the topological sort has sorted at the end.
use mathlib.Core.Path.{subst}
use mathlib.Core.List.{append_assoc, append-nil}
use bunshin_go.Common.{
  String, ℕ, zero, suc, ◌≤◌, ◌<◌, List, [], ◌∷◌, ◌++◌, Map, some, Bool, true, false, ◌≡◌, refl, sym,
  ap, ◌∙◌, arith, eq_iff, contains, contains-append, str_eq, Bool-cases, inl, inr, if◌then◌else◌,
  length, Distinct, ◌⊎◌, some-inj,
}
use bunshin_go.Core.Value.{ℤ, pos, negsuc}
use bunshin_go.Agent.Cycles.{targets}
use bunshin_go.Agent.Depth.{Closed}
use bunshin_go.Agent.Kahn.{degree, is_zero, release, drain, sources, in_degrees}
use bunshin_go.Agent.Counting.{times, open_edges, open_edges-append, in_degrees-open_edges}
use bunshin_go.Agent.Draining.{
  IsRooted, Tracks, Distinct-first, pos-inj, release-Tracks, no_open-IsRooted,
}

-- A list without one of its texts.
unfoldable without : String → List String → List String
without v [] = []
without v (x ∷ xs) = let rest = without v xs in if str_eq x v then rest else x ∷ rest

without-length : (v : String) (xs : List String) → length (without v xs) ≤ length xs
unfolding without
without-length v [] = omega arith
without-length v (x ∷ xs) = ground (arith, without-length v xs)

without-shorter :
    (v : String) (xs : List String) → contains v xs ≡ true → length (without v xs) < length xs
unfolding without
without-shorter v [] h = absurd cc
without-shorter v (x ∷ xs) h = ground (arith, without-shorter v xs, without-length v xs)

without-contains :
    (v w : String) (xs : List String)
    → contains w xs ≡ true
    → str_eq v w ≡ false
    → contains w (without v xs) ≡ true
unfolding without
without-contains v w [] h other = h
without-contains v w (x ∷ xs) h other =
    ground (arith, without-contains v w xs, eq_iff x v, eq_iff x w, eq_iff v w)

-- Distinct texts of a list are no more than the list.
pub Distinct-length :
    (xs ys : List String)
    → Distinct xs
    → ((v : String) → contains v xs ≡ true → contains v ys ≡ true)
    → length xs ≤ length ys
Distinct-length [] ys d within = omega arith
Distinct-length (x ∷ xs) ys (fresh, d) within =
    let later = Distinct-length xs (without x ys) d (λ v at.
      without-contains x v ys (within v (ground arith)) (apart v at (Bool-cases (str_eq x v)))) in
    let fewer = without-shorter x ys (within x (ground (arith, eq_iff x x))) in omega arith
  where
    apart :
        (v : String)
        → contains v xs ≡ true
        → (str_eq x v ≡ true) ⊎ (str_eq x v ≡ false)
        → str_eq x v ≡ false
    apart v at (inr other) = other
    apart v at (inl same) =
        let no = subst (λ y. contains y xs ≡ false) ((eq_iff x v).0 same) fresh in absurd cc

module _ (edges : Map (List String)) (nodes : List String) where
  -- The head of the queue is sorted.
  pop-Tracks :
      (m : Map ℤ) (n : String) (queue sorted : List String)
      → Distinct nodes
      → Tracks edges nodes [] m (n ∷ queue) sorted
      → Tracks edges nodes (targets edges n) m queue (sorted ++ (n ∷ []))
  unfolding times
  pop-Tracks m n queue sorted d t = record {
    counts = λ v.
        t.counts v ∙ ap pos (ground (arith, open_edges-append edges sorted nodes n v d node new));
    spent = λ v there. t.spent v (ap (contains v) (sym shift) ∙ there);
    distinct = subst Distinct (sym shift) t.distinct;
    inside = λ v there. t.inside v (ap (contains v) (sym shift) ∙ there);
    roots = λ v there. t.roots v (ap (contains v) (sym shift) ∙ there);
  }
    where
      shift : (sorted ++ (n ∷ [])) ++ queue ≡ sorted ++ (n ∷ queue)
      shift = append_assoc sorted (n ∷ []) queue

      new : contains n sorted ≡ false
      new = Distinct-first sorted queue n t.distinct

      node : contains n nodes ≡ true
      node = t.inside n (ground (arith, contains-append n sorted (n ∷ queue), eq_iff n n))

  -- What is sorted at the end.
  pub record Sorted (out : List String) : Type 0 where
    pub distinct : Distinct out
    pub inside : (v : String) → contains v out ≡ true → contains v nodes ≡ true
    pub roots : (v : String) → contains v out ≡ true → IsRooted edges nodes v

  pub drain-Sorted :
      (fuel : ℕ) (m : Map ℤ) (queue sorted out : List String)
      → Distinct nodes
      → Closed edges nodes
      → Tracks edges nodes [] m queue sorted
      → drain edges fuel m queue sorted ≡ some out
      → Sorted out
  unfolding drain
  drain-Sorted zero m queue sorted out d closed t h = absurd cc
  drain-Sorted (suc fuel) m [] sorted out d closed t h =
      let at : sorted ++ [] ≡ out = append-nil sorted ∙ some-inj h in
      subst Sorted at (record { distinct = t.distinct; inside = t.inside; roots = t.roots })
  drain-Sorted (suc fuel) m (n ∷ queue) sorted out d closed t h =
      drain-Sorted fuel ((release (targets edges n) m queue).0)
        ((release (targets edges n) m queue).1) (sorted ++ (n ∷ [])) out d closed
        (release-Tracks edges nodes (targets edges n) m queue (sorted ++ (n ∷ [])) (closed n)
          (pop-Tracks m n queue sorted d t))
        h

  is_zero-eq : (d : ℤ) → is_zero d ≡ true → d ≡ pos 0
  is_zero-eq (pos zero) h = refl
  is_zero-eq (pos (suc n)) h = absurd cc
  is_zero-eq (negsuc n) h = absurd cc

  sources-contains :
      (m : Map ℤ) (ns : List String) (v : String)
      → contains v (sources m ns) ≡ true
      → (contains v ns ≡ true) × (is_zero (degree m v) ≡ true)
  unfolding sources
  sources-contains m [] v h = absurd cc
  sources-contains m (n ∷ ns) v h = elim (Bool-cases (str_eq n v)) [
    | inl same ↦ elim (Bool-cases (is_zero (degree m n))) [
      | inl none_in ↦
          (ground arith, subst (λ y. is_zero (degree m y) ≡ true) ((eq_iff n v).0 same) none_in)
      | inr some_in ↦ let later = sources-contains m ns v (ground arith) in (ground arith, later.1)
    ]
    | inr other ↦ let later = sources-contains m ns v (ground arith) in (ground arith, later.1)
  ]

  sources-Distinct : (m : Map ℤ) (ns : List String) → Distinct ns → Distinct (sources m ns)
  unfolding sources
  sources-Distinct m [] d = tt
  sources-Distinct m (n ∷ ns) (fresh, d) =
      go (is_zero (degree m n)) (Bool-cases (contains n (sources m ns))) (sources-Distinct m ns d)
    where
      go :
          (none_in : Bool)
          → (contains n (sources m ns) ≡ true) ⊎ (contains n (sources m ns) ≡ false)
          → Distinct (sources m ns)
          → Distinct (if none_in then n ∷ sources m ns else sources m ns)
      go false at later = later
      go true (inr away) later = (away, later)
      go true (inl there) later = let old = (sources-contains m ns n there).0 in absurd cc

  pub start-Tracks :
      Distinct nodes
      → Tracks edges nodes []
          (in_degrees edges nodes [])
          (sources (in_degrees edges nodes []) nodes)
          []
  unfolding times
  start-Tracks d = record {
    counts = λ v. in_degrees-open_edges edges nodes v ∙ ap pos (omega arith);
    spent = λ v there. is_zero-eq (degree (in_degrees edges nodes []) v) (source v there).1;
    distinct = sources-Distinct (in_degrees edges nodes []) nodes d;
    inside = λ v there. (source v there).0;
    roots = λ v there.
        no_open-IsRooted edges nodes v [] [] (λ u at. absurd cc)
          (pos-inj (open_edges edges [] nodes v) 0 (
            sym (in_degrees-open_edges edges nodes v)
            ∙ is_zero-eq (degree (in_degrees edges nodes []) v) (source v there).1));
  }
    where
      source :
          (v : String)
          → contains v (sources (in_degrees edges nodes []) nodes) ≡ true
          → (contains v nodes ≡ true) × (is_zero (degree (in_degrees edges nodes []) v) ≡ true)
      source v there = sources-contains (in_degrees edges nodes []) nodes v there
