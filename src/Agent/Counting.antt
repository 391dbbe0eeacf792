-- ===== src/Agent/Counting.antt =====
-- pkg/agent/compiler.go: how the in-degrees of the topological sort count edges.
use mathlib.Core.Path.{subst}
use bunshin_go.Common.{
  String, ℕ, suc, ◌+◌, List, [], ◌∷◌, ◌++◌, Map, Option, none, some, true, false, ◌≡◌, refl, sym,
  ap, ◌∙◌, arith, eq_iff, contains, contains-append, str_eq, Bool-cases, inl, inr, if◌then◌else◌,
  lookup, insert, lookup-insert, Distinct,
}
use bunshin_go.Core.Value.{ℤ, pos}
use bunshin_go.Agent.Cycles.{targets}
use bunshin_go.Agent.Kahn.{degree, inc, count_edges, in_degrees}

-- How often a text is in a list.
unfoldable pub times : String → List String → ℕ
times v [] = 0
times v (x ∷ xs) = let rest = times v xs in if str_eq x v then suc rest else rest

pub times-contains : (v : String) (xs : List String) → times v xs ≡ 0 → contains v xs ≡ false
unfolding times
times-contains v [] h = refl
times-contains v (x ∷ xs) h = ground (arith, times-contains v xs)

pub degree-insert :
    (k v : String) (d : ℤ) (m : Map ℤ)
    → degree (insert k d m) v ≡ (if str_eq k v then d else degree m v)
degree-insert k v d m = ground (arith, lookup-insert k v d m)

pub count_edges-degree :
    (ns : List String) (m : Map ℤ) (v : String) (k : ℕ)
    → degree m v ≡ pos k
    → degree (count_edges ns m) v ≡ pos (times v ns + k)
unfolding count_edges times
count_edges-degree [] m v k h = h ∙ ap pos (omega arith)
count_edges-degree (n ∷ ns) m v k h = elim (Bool-cases (str_eq n v)) [
  | inl same ↦
      let old : degree m n ≡ pos k = ap (degree m) ((eq_iff n v).0 same) ∙ h in
      let now : degree (insert n (inc (degree m n)) m) v ≡ pos (suc k) =
        degree-insert n v (inc (degree m n)) m ∙ rw (same, old) refl in
      let later = count_edges-degree ns (insert n (inc (degree m n)) m) v (suc k) now in
      later ∙ ground arith
  | inr other ↦
      let now : degree (insert n (inc (degree m n)) m) v ≡ pos k =
        degree-insert n v (inc (degree m n)) m ∙ rw other h in
      let later = count_edges-degree ns (insert n (inc (degree m n)) m) v k now in
      later ∙ ground arith
]

-- The entry that the count starts from does not change what is read.
start-degree :
    (n v : String) (m : Map ℤ) (k : ℕ)
    → degree m v ≡ pos k
    → degree (elim (lookup n m) as (λ _. Map ℤ) [ none ↦ insert n (pos 0) m | some d ↦ m ]) v
      ≡ pos k
start-degree n v m k h = go (lookup n m) refl
  where
    go :
        (o : Option ℤ)
        → lookup n m ≡ o
        → degree (elim o as (λ _. Map ℤ) [ none ↦ insert n (pos 0) m | some d ↦ m ]) v ≡ pos k
    go (some d) at = h
    go none at = elim (Bool-cases (str_eq n v)) [
      | inl same ↦
          let missing : lookup v m ≡ none = ap (λ y. lookup y m) (sym ((eq_iff n v).0 same)) ∙ at in
          let zero_now : pos 0 ≡ pos k = sym (rw (degree, missing) refl) ∙ h in
          degree-insert n v (pos 0) m ∙ (rw same refl ∙ zero_now)
      | inr other ↦ degree-insert n v (pos 0) m ∙ rw other h
    ]

module _ (edges : Map (List String)) where
  -- The edges to `v` from the nodes that are not in `done`.
  unfoldable pub open_edges : List String → List String → String → ℕ
  open_edges done [] v = 0
  open_edges done (u ∷ us) v =
      let rest = open_edges done us v in
      if contains u done then rest else times v (targets edges u) + rest

  -- With no edge left, each node that has one is done.
  pub open_edges-contains :
      (done us : List String) (v u : String)
      → open_edges done us v ≡ 0
      → contains u us ≡ true
      → contains v (targets edges u) ≡ true
      → contains u done ≡ true
  unfolding open_edges
  open_edges-contains done [] v u none_left at edge = absurd cc
  open_edges-contains done (x ∷ us) v u none_left at edge = elim (Bool-cases (contains x done)) [
    | inl old ↦ elim (Bool-cases (str_eq x u)) [
      | inl same ↦ subst (λ y. contains y done ≡ true) ((eq_iff x u).0 same) old
      | inr other ↦ open_edges-contains done us v u (ground arith) (ground arith) edge
    ]
    | inr new ↦ elim (Bool-cases (str_eq x u)) [
      | inl same ↦
          let no = times-contains v (targets edges x) (ground arith) in
          let yes =
            subst (λ y. contains v (targets edges y) ≡ true) (sym ((eq_iff x u).0 same)) edge in
          absurd cc
      | inr other ↦ open_edges-contains done us v u (ground arith) (ground arith) edge
    ]
  ]

  open_edges-fresh :
      (done us : List String) (n v : String)
      → contains n us ≡ false
      → open_edges (done ++ (n ∷ [])) us v ≡ open_edges done us v
  unfolding open_edges
  open_edges-fresh done [] n v h = refl
  open_edges-fresh done (u ∷ us) n v h =
      ground (
        arith,
        open_edges-fresh done us n v,
        contains-append u done (n ∷ []),
        eq_iff u n,
        eq_iff n u,
      )

  -- A node that gets done takes its edges with it.
  pub open_edges-append :
      (done us : List String) (n v : String)
      → Distinct us
      → contains n us ≡ true
      → contains n done ≡ false
      → open_edges done us v ≡ open_edges (done ++ (n ∷ [])) us v + times v (targets edges n)
  unfolding open_edges
  open_edges-append done [] n v d h new = absurd cc
  open_edges-append done (u ∷ us) n v (fresh, d) h new = elim (Bool-cases (str_eq u n)) [
    | inl same ↦
        let at = (eq_iff u n).0 same in
        let absent : contains n us ≡ false = subst (λ y. contains y us ≡ false) at fresh in
        let unmet : contains u done ≡ false = subst (λ y. contains y done ≡ false) (sym at) new in
        let met : contains u (done ++ (n ∷ [])) ≡ true =
          ground (arith, contains-append u done (n ∷ []), eq_iff n u, eq_iff u n) in
        let edges_same : times v (targets edges u) ≡ times v (targets edges n) =
          ap (λ y. times v (targets edges y)) at in
        ground (arith, open_edges-fresh done us n v)
    | inr other ↦ ground (
      arith,
      open_edges-append done us n v,
      contains-append u done (n ∷ []),
      eq_iff u n,
      eq_iff n u,
    )
  ]

  in_degrees-degree :
      (us : List String) (m : Map ℤ) (v : String) (k : ℕ)
      → degree m v ≡ pos k
      → degree (in_degrees edges us m) v ≡ pos (open_edges [] us v + k)
  unfolding in_degrees open_edges
  in_degrees-degree [] m v k h = h ∙ ap pos (omega arith)
  in_degrees-degree (u ∷ us) m v k h =
      let first =
        count_edges-degree (targets edges u)
          (elim (lookup u m) as (λ _. Map ℤ) [ none ↦ insert u (pos 0) m | some d ↦ m ]) v k
          (start-degree u v m k h) in
      in_degrees-degree us
        (count_edges (targets edges u)
          (elim (lookup u m) as (λ _. Map ℤ) [ none ↦ insert u (pos 0) m | some d ↦ m ]))
        v (times v (targets edges u) + k) first
      ∙ ap pos (omega arith)

  -- The counts are those of the edges between the nodes.
  pub in_degrees-open_edges :
      (nodes : List String) (v : String)
      → degree (in_degrees edges nodes []) v ≡ pos (open_edges [] nodes v)
  unfolding lookup
  in_degrees-open_edges nodes v = in_degrees-degree nodes [] v 0 refl ∙ ap pos (omega arith)
