-- ===== src/Agent/Draining.antt =====
-- pkg/agent/compiler.go: what the topological sort has sorted is reached by no cycle.
use mathlib.Core.Path.{subst}
use mathlib.Core.List.{append_assoc}
use bunshin_go.Common.{
  String, ℕ, zero, suc, ◌+◌, List, [], ◌∷◌, ◌++◌, Map, Bool, true, false, ◌≡◌, refl, sym, ap, ◌∙◌,
  arith, eq_iff, All, contains, contains-append, str_eq, ◌||◌, Bool-cases, inl, inr, if◌then◌else◌,
  insert, Distinct, Distinct-concat, ◌⊎◌,
}
use bunshin_go.Core.Value.{ℤ, pos}
use bunshin_go.Agent.Paths.{Edge}
use bunshin_go.Agent.Kahn.{degree, dec, is_zero, release}
use bunshin_go.Agent.Counting.{times, degree-insert, open_edges, open_edges-contains}

-- Every walk along nodes to the agent, followed backwards, ends.
pub data IsRooted (edges : Map (List String)) (nodes : List String) : String → Type 0 where
  rooted :
      {n : String}
      → ((u : String) → contains u nodes ≡ true → Edge edges u n → IsRooted edges nodes u)
      → IsRooted edges nodes n

pub Distinct-first :
    (xs ys : List String) (v : String) → Distinct (xs ++ (v ∷ ys)) → contains v xs ≡ false
Distinct-first [] ys v d = refl
Distinct-first (x ∷ xs) ys v (fresh, d) =
    ground (arith, Distinct-first xs ys v d, contains-append x xs (v ∷ ys), eq_iff x v, eq_iff v x)

pub pos-inj : (a b : ℕ) → pos a ≡ pos b → a ≡ b
pos-inj a b h = cc

module _ (edges : Map (List String)) (nodes : List String) where
  -- While the edges to `ns` are still to be released: the degrees count the open edges, and what is
  -- sorted or in the queue is a node with none, rooted, and there once.
  pub record Tracks (ns : List String) (m : Map ℤ) (queue sorted : List String) : Type 0 where
    pub counts : (v : String) → degree m v ≡ pos (open_edges edges sorted nodes v + times v ns)
    pub spent : (v : String) → contains v (sorted ++ queue) ≡ true → degree m v ≡ pos 0
    pub distinct : Distinct (sorted ++ queue)
    pub inside : (v : String) → contains v (sorted ++ queue) ≡ true → contains v nodes ≡ true
    pub roots : (v : String) → contains v (sorted ++ queue) ≡ true → IsRooted edges nodes v

  -- A node with no open edge is rooted.
  pub no_open-IsRooted :
      (v : String) (sorted queue : List String)
      → ((u : String) → contains u (sorted ++ queue) ≡ true → IsRooted edges nodes u)
      → open_edges edges sorted nodes v ≡ 0
      → IsRooted edges nodes v
  no_open-IsRooted v sorted queue roots none_left = rooted (λ u at edge. roots u (
      let done = open_edges-contains edges sorted nodes v u none_left at edge in
      ground (arith, contains-append u sorted queue)))

  contains-longer :
      (sorted queue : List String) (n v : String)
      → contains v (sorted ++ (queue ++ (n ∷ []))) ≡ (contains v (sorted ++ queue) || str_eq n v)
  contains-longer sorted queue n v =
      ap (contains v) (sym (append_assoc sorted queue (n ∷ [])))
      ∙ ground (arith, contains-append v (sorted ++ queue) (n ∷ []))

  module _ (n : String) (ns : List String) (m : Map ℤ) (queue sorted : List String)
      (t : Tracks (n ∷ ns) m queue sorted) where
    lowered : dec (degree m n) ≡ pos (open_edges edges sorted nodes n + times n ns)
    unfolding times
    lowered =
        let before : degree m n ≡ pos (suc (open_edges edges sorted nodes n + times n ns)) =
          t.counts n ∙ ap pos (ground (arith, eq_iff n n)) in
        ap dec before

    absent : contains n (sorted ++ queue) ≡ false
    unfolding times
    absent = elim (Bool-cases (contains n (sorted ++ queue))) [
      | inr away ↦ away
      | inl there ↦
          let no =
            pos-inj (open_edges edges sorted nodes n + times n (n ∷ ns)) 0
              (sym (t.counts n) ∙ t.spent n there) in
          absurd (ground (arith, eq_iff n n))
    ]

    lower-counts :
        (v : String)
        → degree (insert n (dec (degree m n)) m) v
          ≡ pos (open_edges edges sorted nodes v + times v ns)
    unfolding times
    lower-counts v = elim (Bool-cases (str_eq n v)) [
      | inl same ↦
          let here : (if str_eq n v then dec (degree m n) else degree m v)
              ≡ pos (open_edges edges sorted nodes n + times n ns) =
            rw same lowered in
          degree-insert n v (dec (degree m n)) m
          ∙ (here
              ∙ ap (λ y. pos (open_edges edges sorted nodes y + times y ns)) ((eq_iff n v).0 same))
      | inr other ↦
          let here : (if str_eq n v then dec (degree m n) else degree m v) ≡ degree m v =
            rw other refl in
          degree-insert n v (dec (degree m n)) m ∙ (here ∙ (t.counts v ∙ ap pos (ground arith)))
    ]

    lower-spent :
        (v : String)
        → contains v (sorted ++ queue) ≡ true
        → degree (insert n (dec (degree m n)) m) v ≡ pos 0
    lower-spent v there = elim (Bool-cases (str_eq n v)) [
      | inl same ↦
          let gone : contains v (sorted ++ queue) ≡ false =
            subst (λ y. contains y (sorted ++ queue) ≡ false) ((eq_iff n v).0 same) absent in
          absurd cc
      | inr other ↦ degree-insert n v (dec (degree m n)) m ∙ rw other (t.spent v there)
    ]

    wait-Tracks : Tracks ns (insert n (dec (degree m n)) m) queue sorted
    wait-Tracks = record {
      counts = lower-counts;
      spent = lower-spent;
      distinct = t.distinct;
      inside = t.inside;
      roots = t.roots;
    }

    queue-Tracks :
        contains n nodes ≡ true
        → open_edges edges sorted nodes n + times n ns ≡ 0
        → Tracks ns (insert n (dec (degree m n)) m) (queue ++ (n ∷ [])) sorted
    queue-Tracks node nothing = record {
      counts = lower-counts;
      spent = λ v there.
          go_spent v (sym (contains-longer sorted queue n v) ∙ there) (Bool-cases (str_eq n v));
      distinct =
          subst Distinct (append_assoc sorted queue (n ∷ []))
            (Distinct-concat (sorted ++ queue) n t.distinct absent);
      inside = λ v there.
          go_inside v (sym (contains-longer sorted queue n v) ∙ there) (Bool-cases (str_eq n v));
      roots = λ v there.
          go_roots v (sym (contains-longer sorted queue n v) ∙ there) (Bool-cases (str_eq n v));
    }
      where
        go_spent :
            (v : String)
            → (contains v (sorted ++ queue) || str_eq n v) ≡ true
            → (str_eq n v ≡ true) ⊎ (str_eq n v ≡ false)
            → degree (insert n (dec (degree m n)) m) v ≡ pos 0
        go_spent v there (inl same) =
            let here : (if str_eq n v then dec (degree m n) else degree m v)
                ≡ pos (open_edges edges sorted nodes n + times n ns) =
              rw same lowered in
            degree-insert n v (dec (degree m n)) m ∙ (here ∙ ap pos nothing)
        go_spent v there (inr other) = lower-spent v (ground arith)

        go_inside :
            (v : String)
            → (contains v (sorted ++ queue) || str_eq n v) ≡ true
            → (str_eq n v ≡ true) ⊎ (str_eq n v ≡ false)
            → contains v nodes ≡ true
        go_inside v there (inl same) =
            subst (λ y. contains y nodes ≡ true) ((eq_iff n v).0 same) node
        go_inside v there (inr other) = t.inside v (ground arith)

        go_roots :
            (v : String)
            → (contains v (sorted ++ queue) || str_eq n v) ≡ true
            → (str_eq n v ≡ true) ⊎ (str_eq n v ≡ false)
            → IsRooted edges nodes v
        go_roots v there (inl same) =
            subst (IsRooted edges nodes) ((eq_iff n v).0 same)
              (no_open-IsRooted n sorted queue t.roots (omega arith))
        go_roots v there (inr other) = t.roots v (ground arith)

  pub is_zero-pos : (k : ℕ) → is_zero (pos k) ≡ true → k ≡ 0
  is_zero-pos zero h = refl
  is_zero-pos (suc k) h = absurd cc

  pub release-Tracks :
      (ns : List String) (m : Map ℤ) (queue sorted : List String)
      → All (λ v. contains v nodes ≡ true) ns
      → Tracks ns m queue sorted
      → Tracks [] ((release ns m queue).0) ((release ns m queue).1) sorted
  unfolding release
  release-Tracks [] m queue sorted inside t = t
  release-Tracks (n ∷ ns) m queue sorted (here, inside) t =
      go (is_zero (dec (degree m n))) refl
        (release-Tracks ns (insert n (dec (degree m n)) m) queue sorted inside)
        (release-Tracks ns (insert n (dec (degree m n)) m) (queue ++ (n ∷ [])) sorted inside)
    where
      go :
          (none_left : Bool)
          → is_zero (dec (degree m n)) ≡ none_left
          → (Tracks ns (insert n (dec (degree m n)) m) queue sorted
              → Tracks []
                  ((release ns (insert n (dec (degree m n)) m) queue).0)
                  ((release ns (insert n (dec (degree m n)) m) queue).1)
                  sorted)
          → (Tracks ns (insert n (dec (degree m n)) m) (queue ++ (n ∷ [])) sorted
              → Tracks []
                  ((release ns (insert n (dec (degree m n)) m) (queue ++ (n ∷ []))).0)
                  ((release ns (insert n (dec (degree m n)) m) (queue ++ (n ∷ []))).1)
                  sorted)
          → Tracks []
              ((release ns
                (insert n (dec (degree m n)) m)
                (if none_left then queue ++ (n ∷ []) else queue)).0)
              ((release ns
                (insert n (dec (degree m n)) m)
                (if none_left then queue ++ (n ∷ []) else queue)).1)
              sorted
      go false e wait enter = wait (wait-Tracks n ns m queue sorted t)
      go true e wait enter = enter (
          queue-Tracks n ns m queue sorted t here (
            is_zero-pos (open_edges edges sorted nodes n + times n ns)
              (ap is_zero (sym (lowered n ns m queue sorted t)) ∙ e)))
