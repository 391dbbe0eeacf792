-- ===== src/Agent/Depth.antt =====
-- pkg/agent/compiler.go: the search for a cycle ends, no deeper than there are agents.
use mathlib.Core.Path.{subst}
use bunshin_go.Common.{
  String, ℕ, zero, suc, ◌≤◌, ◌<◌, List, [], ◌∷◌, ◌++◌, Map, Option, none, some, lookup, insert,
  Bool, true, false, ◌≡◌, refl, sym, arith, eq_iff, All, contains, str_eq, Bool-cases, inl, inr,
  if◌then◌else◌, lookup-insert, length,
}
use bunshin_go.Agent.Paths.{All-contains}
use bunshin_go.Agent.Cycles.{
  targets, flag, Search, from_first, scan, leave, enter, dfs, find_from, find_cycle_dfs,
}

-- The nodes that are not visited.
unfoldable pub unseen : List String → Map Bool → ℕ
unseen [] m = 0
unseen (x ∷ xs) m = let rest = unseen xs m in if flag m x then rest else suc rest

pub unseen-length : (nodes : List String) (m : Map Bool) → unseen nodes m ≤ length nodes
unfolding unseen
unseen-length [] m = omega arith
unseen-length (x ∷ xs) m = ground (arith, unseen-length xs m)

pub unseen-insert :
    (nodes : List String) (n : String) (m : Map Bool)
    → unseen nodes (insert n true m) ≤ unseen nodes m
unfolding unseen
unseen-insert [] n m = omega arith
unseen-insert (x ∷ xs) n m =
    ground (arith, unseen-insert xs n m, lookup-insert n x true m, eq_iff n x)

pub unseen-insert_new :
    (nodes : List String) (n : String) (m : Map Bool)
    → contains n nodes ≡ true
    → flag m n ≡ false
    → unseen nodes (insert n true m) < unseen nodes m
unfolding unseen
unseen-insert_new [] n m h new = cc
unseen-insert_new (x ∷ xs) n m h new = elim (Bool-cases (str_eq x n)) [
  | inl same ↦
      let old : flag m x ≡ false = subst (λ k. flag m k ≡ false) (sym ((eq_iff x n).0 same)) new in
      ground (arith, unseen-insert xs n m, lookup-insert n x true m, eq_iff n x, eq_iff x n)
  | inr other ↦
      ground (arith, unseen-insert_new xs n m, lookup-insert n x true m, eq_iff n x, eq_iff x n)
]

pub targets-All :
    (P : String → Type 0) (edges : Map (List String)) (a : String)
    → All (λ e. All P e.1) edges
    → All P (targets edges a)
unfolding targets lookup
targets-All P [] a h = tt
targets-All P ((n, ns) ∷ edges) a (here, h) = go (str_eq n a) (targets-All P edges a h)
  where
    go :
        (same : Bool)
        → All P (elim (lookup a edges) as (λ _. List String) [ none ↦ [] | some ms ↦ ms ])
        → All P (elim (if same then some ns else lookup a edges) as (λ _. List String) [
          | none ↦ []
          | some ms ↦ ms
        ])
    go true later = here
    go false later = later

module _ (edges : Map (List String)) (nodes : List String) where
  -- Each agent that a node declares is a node.
  abbrev pub Closed : Type 0
  Closed = (a : String) → All (λ b. contains b nodes ≡ true) (targets edges a)

  -- It is enough to look at the entries.
  pub entries-Closed : All (λ e. All (λ b. contains b nodes ≡ true) e.1) edges → Closed
  entries-Closed h a = targets-All (λ b. contains b nodes ≡ true) edges a h

  abbrev left : Search → ℕ
  left s = unseen nodes s.visited

  -- A call returns, and takes no mark of a visit away.
  abbrev Returns : ℕ → Option (Bool × Search) → Type 0
  Returns k none = ⊥
  Returns k (some (b, s)) = left s ≤ k

  Returns-weaken : (j k : ℕ) (r : Option (Bool × Search)) → j ≤ k → Returns j r → Returns k r
  Returns-weaken j k none h q = elim q [ ]
  Returns-weaken j k (some (b, s)) h q = omega arith

  scan-Returns :
      (visit : String → Search → Option (Bool × Search)) (fuel : ℕ)
      → ((n : String) (s : Search)
          → contains n nodes ≡ true
          → flag s.visited n ≡ false
          → left s ≤ fuel
          → Returns (left s) (visit n s))
      → (ns : List String) (s : Search) → All (λ b. contains b nodes ≡ true) ns
      → left s ≤ fuel
      → Returns (left s) (scan visit ns s)
  unfolding scan
  scan-Returns visit fuel ih [] s inside enough = omega arith
  scan-Returns visit fuel ih (n ∷ ns) s (here, inside) enough =
      go (flag s.visited n) refl (visit n s) (λ new. ih n s here new enough) (flag s.rec_stack n)
        (from_first n s.path) (λ q. scan-Returns visit fuel ih ns q inside)
    where
      go :
          (seen : Bool)
          → flag s.visited n ≡ seen
          → (r : Option (Bool × Search)) → (flag s.visited n ≡ false → Returns (left s) r)
          → (on_stack : Bool) (found : Option (List String))
          → ((q : Search) → left q ≤ fuel → Returns (left q) (scan visit ns q))
          → Returns (left s) (elim seen as (λ _. Option (Bool × Search)) [
            | false ↦ elim r as (λ _. Option (Bool × Search)) [
              | none ↦ none
              | some q ↦ elim q.0 as (λ _. Option (Bool × Search)) [
                | true ↦ some (true, q.1)
                | false ↦ scan visit ns q.1
              ]
            ]
            | true ↦ elim on_stack as (λ _. Option (Bool × Search)) [
              | false ↦ scan visit ns s
              | true ↦ elim found as (λ _. Option (Bool × Search)) [
                | none ↦ scan visit ns s
                | some cycle ↦ some (true, record s { path = cycle ++ (n ∷ []) })
              ]
            ]
          ])
      go false new none post on_stack found later = post new
      go false new (some (true, q)) post on_stack found later = post new
      go false new (some (false, q)) post on_stack found later =
          let fewer = post new in
          Returns-weaken (left q) (left s) (scan visit ns q) fewer (later q (omega arith))
      go true old r post false found later = later s enough
      go true old r post true none later = later s enough
      go true old r post true (some c) later = omega arith

  leave-Returns :
      (n : String) (k : ℕ) (r : Option (Bool × Search)) → Returns k r → Returns k (leave n r)
  unfolding leave
  leave-Returns n k none post = elim post [ ]
  leave-Returns n k (some (true, q)) post = post
  leave-Returns n k (some (false, q)) post = post

  dfs-Returns :
      Closed
      → (fuel : ℕ) (n : String) (s : Search) → contains n nodes ≡ true
      → flag s.visited n ≡ false
      → left s ≤ fuel
      → Returns (left s) (dfs edges fuel n s)
  unfolding dfs
  dfs-Returns closed zero n s inside new enough =
      absurd (omega (arith, unseen-insert_new nodes n s.visited inside new))
  dfs-Returns closed (suc fuel) n s inside new enough =
      let fewer = unseen-insert_new nodes n s.visited inside new in
      leave-Returns n (left s) (scan (dfs edges fuel) (targets edges n) (enter n s)) (
        Returns-weaken (left (enter n s)) (left s)
          (scan (dfs edges fuel) (targets edges n) (enter n s)) (omega arith)
          (scan-Returns (dfs edges fuel) fuel (dfs-Returns closed fuel) (targets edges n)
            (enter n s) (closed n) (omega arith)))

  find_from_returns :
      Closed
      → (fuel : ℕ) (ns : List String) (s : Search) → All (λ b. contains b nodes ≡ true) ns
      → length nodes ≤ fuel
      → (r : Option (List String)) × (find_from edges fuel ns s ≡ some r)
  unfolding find_from
  find_from_returns closed fuel [] s inside enough = (none, refl)
  find_from_returns closed fuel (n ∷ ns) s (here, inside) enough =
      go (flag s.visited n) refl (dfs edges fuel n (record s { path = [] }))
        (λ new.
          dfs-Returns closed fuel n (record s { path = [] }) here new
            (omega (arith, unseen-length nodes s.visited)))
        (λ q. find_from_returns closed fuel ns q inside enough)
    where
      go :
          (seen : Bool)
          → flag s.visited n ≡ seen
          → (r : Option (Bool × Search)) → (flag s.visited n ≡ false → Returns (left s) r)
          → ((q : Search) → (r : Option (List String)) × (find_from edges fuel ns q ≡ some r))
          → (out : Option (List String)) × ((elim seen as (λ _. Option (Option (List String))) [
            | true ↦ find_from edges fuel ns s
            | false ↦ elim r as (λ _. Option (Option (List String))) [
              | none ↦ none
              | some q ↦ elim q.0 as (λ _. Option (Option (List String))) [
                | true ↦ some (some q.1.path)
                | false ↦ find_from edges fuel ns q.1
              ]
            ]
          ])
              ≡ some out)
      go true old r post later = later s
      go false new none post later = absurd (post new)
      go false new (some (true, q)) post later = (some q.path, refl)
      go false new (some (false, q)) post later = later q

-- When each agent that a node declares is a node, a depth of the number of nodes is enough for
-- `findCycleDFS`: it returns, a cycle or nil.
pub find_cycle_dfs_returns :
    (edges : Map (List String)) (fuel : ℕ) (nodes : List String)
    → Closed edges nodes
    → length nodes ≤ fuel
    → (r : Option (List String)) × (find_cycle_dfs edges fuel nodes ≡ some r)
unfolding find_cycle_dfs
find_cycle_dfs_returns edges fuel nodes closed enough =
    find_from_returns edges nodes closed fuel nodes
      (record { visited = []; rec_stack = []; path = [] }) (All-contains nodes) enough
