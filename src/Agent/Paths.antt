-- ===== src/Agent/Paths.antt =====
-- pkg/agent/compiler.go: the path that the search for a cycle reports is a cycle.
use mathlib.Core.Path.{subst}
use mathlib.Core.List.{append_assoc}
use bunshin_go.Common.{
  String, ℕ, zero, suc, List, [], ◌∷◌, ◌++◌, Map, Option, none, some, Bool, true, false, ◌≡◌, refl,
  sym, ap, ◌∙◌, arith, eq_iff, All, contains, str_eq, Bool-cases, inl, inr,
}
use bunshin_go.Agent.Cycles.{
  targets, flag, Search, from_first, drop_last, scan, leave, enter, dfs, find_from, find_cycle_dfs,
}

pub drop_last-append : (xs : List String) (x : String) → drop_last (xs ++ (x ∷ [])) ≡ xs
unfolding drop_last
drop_last-append [] x = refl
drop_last-append (y ∷ []) x = refl
drop_last-append (y ∷ z ∷ xs) x = ap (◌∷◌ y) (drop_last-append (z ∷ xs) x)

-- What `fromFirst` returns is an end of the path that begins with the node.
from_first-suffix :
    (n : String) (l c : List String)
    → from_first n l ≡ some c
    → (before mid : List String) × (l ≡ before ++ c) × (c ≡ n ∷ mid)
unfolding from_first
from_first-suffix n [] c h = cc
from_first-suffix n (x ∷ xs) c h = elim (Bool-cases (str_eq x n)) [
  | inl here ↦ ([], xs, ground arith, ground (arith, eq_iff x n))
  | inr away ↦
      let (before, mid, split, starts) = from_first-suffix n xs c (ground arith) in
      (x ∷ before, mid, ap (◌∷◌ x) split, starts)
]

pub All-weaken {ℓ} :
    {A : Type ℓ} {P Q : A → Type 0} (xs : List A) → ((x : A) → P x → Q x) → All P xs → All Q xs
All-weaken [] f h = tt
All-weaken (x ∷ xs) f (p, ps) = (f x p, All-weaken xs f ps)

pub All-contains : (xs : List String) → All (λ x. contains x xs ≡ true) xs
All-contains [] = tt
All-contains (x ∷ xs) = (
  ground (arith, eq_iff x x),
  All-weaken {Q = λ y. contains y (x ∷ xs) ≡ true} xs (λ y h. ground arith) (All-contains xs),
)

module _ (edges : Map (List String)) where
  abbrev pub Edge : String → String → Type 0
  Edge a b = contains b (targets edges a) ≡ true

  -- Each node of the list has an edge to the next one.
  abbrev pub Walk : List String → Type 0
  Walk [] = Unit
  Walk (x ∷ []) = Unit
  Walk (x ∷ y ∷ xs) = Edge x y × Walk (y ∷ xs)

  pub Walk-step :
      (p : List String) (a b : String)
      → Walk (p ++ (a ∷ []))
      → Edge a b
      → Walk ((p ++ (a ∷ [])) ++ (b ∷ []))
  Walk-step [] a b walk e = (e, tt)
  Walk-step (x ∷ []) a b walk e = (walk.0, (e, tt))
  Walk-step (x ∷ y ∷ p) a b walk e = (walk.0, Walk-step (y ∷ p) a b walk.1 e)

  Walk-suffix : (p q : List String) → Walk (p ++ q) → Walk q
  Walk-suffix [] q walk = walk
  Walk-suffix (x ∷ []) [] walk = tt
  Walk-suffix (x ∷ []) (y ∷ q) walk = walk.1
  Walk-suffix (x ∷ y ∷ p) q walk = Walk-suffix (y ∷ p) q walk.1

  -- A walk that starts and ends at the same node, with an edge at least.
  pub record IsCycle (c : List String) : Type 0 where
    pub start : String
    pub mid : List String
    pub closed : c ≡ (start ∷ mid) ++ (start ∷ [])
    pub walk : Walk c

  -- What a call leaves: a cycle if it found one, else the path that it started from.
  abbrev Post : Search → Option (Bool × Search) → Type 0
  Post s none = Unit
  Post s (some (true, s')) = IsCycle s'.path
  Post s (some (false, s')) = s'.path ≡ s.path

  back-IsCycle :
      (p : List String) (a n : String) (c : List String)
      → Walk (p ++ (a ∷ []))
      → Edge a n
      → from_first n (p ++ (a ∷ [])) ≡ some c
      → IsCycle (c ++ (n ∷ []))
  back-IsCycle p a n c walk e found =
      let (before, mid, split, starts) = from_first-suffix n (p ++ (a ∷ [])) c found in
      let whole : Walk (before ++ (c ++ (n ∷ []))) =
        subst Walk (ap (λ l. l ++ (n ∷ [])) split ∙ append_assoc before c (n ∷ []))
          (Walk-step p a n walk e) in
      record {
        start = n;
        mid = mid;
        closed = ap (λ l. l ++ (n ∷ [])) starts;
        walk = Walk-suffix before (c ++ (n ∷ [])) whole;
      }

  Post-weaken :
      (s s' : Search) → s'.path ≡ s.path → (r : Option (Bool × Search)) → Post s' r → Post s r
  Post-weaken s s' same none post = tt
  Post-weaken s s' same (some (true, q)) post = post
  Post-weaken s s' same (some (false, q)) post = post ∙ same

  scan-Post :
      (visit : String → Search → Option (Bool × Search))
      → ((n : String) (s : Search) → Walk (s.path ++ (n ∷ [])) → Post s (visit n s))
      → (ns : List String) (s : Search) (p : List String) (a : String) → s.path ≡ p ++ (a ∷ [])
      → Walk (p ++ (a ∷ []))
      → All (Edge a) ns
      → Post s (scan visit ns s)
  unfolding scan
  scan-Post visit ih [] s p a at walk es = refl
  scan-Post visit ih (n ∷ ns) s p a at walk (e, es) =
      go (flag s.visited n) (visit n s) (ih n s (rw at (Walk-step p a n walk e)))
        (flag s.rec_stack n) (from_first n s.path) (ap (from_first n) (sym at))
        (scan-Post visit ih ns s p a at walk es)
        (λ s' same. scan-Post visit ih ns s' p a (same ∙ at) walk es)
    where
      go :
          (seen : Bool) (r : Option (Bool × Search))
          → Post s r
          → (on_stack : Bool) (found : Option (List String)) → from_first n (p ++ (a ∷ [])) ≡ found
          → Post s (scan visit ns s)
          → ((s' : Search) → s'.path ≡ s.path → Post s' (scan visit ns s'))
          → Post s (elim seen as (λ _. Option (Bool × Search)) [
            | false ↦ elim r as (λ _. Option (Bool × Search)) [
              | none ↦ none
              | some q ↦ elim q.0 as (λ _. Option (Bool × Search)) [
                | true ↦ some (true, q.1)
                | false ↦ scan visit ns q.1
              ]
            ]
            | true ↦ elim on_stack as (λ _. Option (Bool × Search)) [
              | false ↦ scan visit ns s
              | true ↦ elim found as (λ _. Option (Bool × Search)) [
                | none ↦ scan visit ns s
                | some cycle ↦ some (true, record s { path = cycle ++ (n ∷ []) })
              ]
            ]
          ])
      go false none post on_stack found look here later = tt
      go false (some (true, s')) post on_stack found look here later = post
      go false (some (false, s')) post on_stack found look here later =
          Post-weaken s s' post (scan visit ns s') (later s' post)
      go true r post false found look here later = here
      go true r post true none look here later = here
      go true r post true (some c) look here later = back-IsCycle p a n c walk e look

  leave-Post :
      (n : String) (s : Search) (r : Option (Bool × Search))
      → Post (enter n s) r
      → Post s (leave n r)
  unfolding leave
  leave-Post n s none post = tt
  leave-Post n s (some (true, q)) post = post
  leave-Post n s (some (false, q)) post = ap drop_last post ∙ drop_last-append s.path n

  dfs-Post :
      (fuel : ℕ) (n : String) (s : Search) → Walk (s.path ++ (n ∷ [])) → Post s (dfs edges fuel n s)
  unfolding dfs
  dfs-Post zero n s walk = tt
  dfs-Post (suc fuel) n s walk =
      leave-Post n s (scan (dfs edges fuel) (targets edges n) (enter n s)) (
        scan-Post (dfs edges fuel) (dfs-Post fuel) (targets edges n) (enter n s) s.path n refl walk
          (All-contains (targets edges n)))

  find_from-IsCycle :
      (fuel : ℕ) (ns : List String) (s : Search) (c : List String)
      → find_from edges fuel ns s ≡ some (some c)
      → IsCycle c
  unfolding find_from
  find_from-IsCycle fuel [] s c h = cc
  find_from-IsCycle fuel (n ∷ ns) s c h =
      go (flag s.visited n) (dfs edges fuel n (record s { path = [] }))
        (dfs-Post fuel n (record s { path = [] }) tt) (λ q. find_from-IsCycle fuel ns q c) h
    where
      go :
          (seen : Bool) (r : Option (Bool × Search))
          → Post (record s { path = [] }) r
          → ((q : Search) → find_from edges fuel ns q ≡ some (some c) → IsCycle c)
          → (elim seen as (λ _. Option (Option (List String))) [
            | true ↦ find_from edges fuel ns s
            | false ↦ elim r as (λ _. Option (Option (List String))) [
              | none ↦ none
              | some q ↦ elim q.0 as (λ _. Option (Option (List String))) [
                | true ↦ some (some q.1.path)
                | false ↦ find_from edges fuel ns q.1
              ]
            ]
          ])
            ≡ some (some c)
          → IsCycle c
      go true r post later e = later s e
      go false none post later e = cc
      go false (some (true, q)) post later e = let same : q.path ≡ c = cc in subst IsCycle same post
      go false (some (false, q)) post later e = later q e

-- The path that `findCycleDFS` reports starts and ends at the same agent, and each agent on it
-- declares the next one.
pub find_cycle_dfs-IsCycle :
    (edges : Map (List String)) (fuel : ℕ) (nodes c : List String)
    → find_cycle_dfs edges fuel nodes ≡ some (some c)
    → IsCycle edges c
unfolding find_cycle_dfs
find_cycle_dfs-IsCycle edges fuel nodes c h =
    find_from-IsCycle edges fuel nodes (record { visited = []; rec_stack = []; path = [] }) c h
