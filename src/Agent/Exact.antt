-- ===== src/Agent/Exact.antt =====
-- pkg/agent/compiler.go: where the search for a cycle finds none there is none.
use mathlib.Core.Path.{subst}
use bunshin_go.Common.{
  String, ℕ, zero, suc, ◌≤◌, List, [], ◌∷◌, Map, Option, none, some, Bool, true, false, ◌≡◌, ◌↔◌,
  ◌⊎◌, refl, sym, ap, ◌∙◌, arith, eq_iff, All, contains, contains-append, str_eq, ◌||◌, Bool-cases,
  inl, inr, lookup, insert, length,
}
use bunshin_go.Agent.Cycles.{
  targets, flag, Search, drop_last, scan, leave, enter, dfs, find_from, find_cycle_dfs,
}
use bunshin_go.Agent.Paths.{IsCycle, drop_last-append, find_cycle_dfs-IsCycle}
use bunshin_go.Agent.Depth.{Closed, find_cycle_dfs_returns}
use bunshin_go.Agent.Acyclic.{IsGrounded, grounded, All-at, IsGrounded-IsCycle}
use bunshin_go.Agent.Complete.{Fits, Passed, Left, Passed-IsGrounded, scan-Left, flag-insert}

module _ (edges : Map (List String)) where
  off_path :
      (s : Search) (n : String)
      → Fits edges s
      → flag s.visited n ≡ false
      → contains n s.path ≡ false
  off_path s n fits new = go (Bool-cases (contains n s.path))
    where
      go : (contains n s.path ≡ true) ⊎ (contains n s.path ≡ false) → contains n s.path ≡ false
      go (inr away) = away
      go (inl on) = let old = fits.seen n on in cc

  enter-Fits :
      (n : String) (s : Search) → Fits edges s → flag s.visited n ≡ false → Fits edges (enter n s)
  enter-Fits n s fits new = record {
    stacked = λ k.
        let old = fits.stacked k in
        ground (arith, flag-insert n k true s.rec_stack, contains-append k s.path (n ∷ []));
    seen = λ k on.
        let old = fits.seen k in
        ground (arith, flag-insert n k true s.visited, contains-append k s.path (n ∷ []));
    finished = λ k old off.
        fits.finished k
          (ground (arith, flag-insert n k true s.visited, contains-append k s.path (n ∷ [])))
          (ground (arith, contains-append k s.path (n ∷ [])));
  }

  leave-Fits :
      (n : String) (s q : Search)
      → Fits edges s
      → flag s.visited n ≡ false
      → IsGrounded edges n
      → Passed edges (enter n s) q
      → Passed edges s
          (record q { path = drop_last q.path; rec_stack = insert n false q.rec_stack })
        × (flag q.visited n ≡ true)
  leave-Fits n s q fits new ends passed = (
    record {
      fits = record {
        stacked = λ k. marks k (Bool-cases (str_eq n k)) ∙ ap (contains k) (sym back);
        seen = λ k on. passed.more k (seen_before k (ap (contains k) (sym back) ∙ on));
        finished =
            λ k old off. done k old (ap (contains k) (sym back) ∙ off) (Bool-cases (str_eq n k));
      };
      same = back;
      more = λ k old. passed.more k (ground (arith, flag-insert n k true s.visited));
    },
    passed.more n (ground (arith, flag-insert n n true s.visited, eq_iff n n)),
  )
    where
      back : drop_last q.path ≡ s.path
      back = ap drop_last passed.same ∙ drop_last-append s.path n

      inner : (k : String) → contains k q.path ≡ (contains k s.path || contains k (n ∷ []))
      inner k = ap (contains k) passed.same ∙ contains-append k s.path (n ∷ [])

      seen_before :
          (k : String) → contains k s.path ≡ true → flag (insert n true s.visited) k ≡ true
      seen_before k on = let old = fits.seen k on in ground (arith, flag-insert n k true s.visited)

      marks :
          (k : String)
          → (str_eq n k ≡ true) ⊎ (str_eq n k ≡ false)
          → flag (insert n false q.rec_stack) k ≡ contains k s.path
      marks k (inl here) =
          let off : contains k s.path ≡ false =
            subst (λ j. contains j s.path ≡ false) ((eq_iff n k).0 here) (off_path s n fits new) in
          ground (arith, flag-insert n k false q.rec_stack)
      marks k (inr other) =
          ground (arith, flag-insert n k false q.rec_stack, passed.fits.stacked k, inner k)

      done :
          (k : String)
          → flag q.visited k ≡ true
          → contains k s.path ≡ false
          → (str_eq n k ≡ true) ⊎ (str_eq n k ≡ false)
          → IsGrounded edges k
      done k old off (inl here) = subst (IsGrounded edges) ((eq_iff n k).0 here) ends
      done k old off (inr other) = passed.fits.finished k old (ground (arith, inner k))

  leave-Left :
      (n : String) (s : Search) (r : Option (Bool × Search))
      → Fits edges s
      → flag s.visited n ≡ false
      → ((h : All (IsGrounded edges) (targets edges n)) → IsGrounded edges n)
      → Left edges (λ q. Passed edges (enter n s) q × All (IsGrounded edges) (targets edges n)) r
      → Left edges (λ q. Passed edges s q × (flag q.visited n ≡ true)) (leave n r)
  unfolding leave
  leave-Left n s none fits new ends h = tt
  leave-Left n s (some (true, q)) fits new ends h = tt
  leave-Left n s (some (false, q)) fits new ends h = leave-Fits n s q fits new (ends h.1) h.0

  dfs-Left :
      (fuel : ℕ) (n : String) (s : Search)
      → Fits edges s
      → flag s.visited n ≡ false
      → Left edges (λ q. Passed edges s q × (flag q.visited n ≡ true)) (dfs edges fuel n s)
  unfolding dfs
  dfs-Left zero n s fits new = tt
  dfs-Left (suc fuel) n s fits new =
      leave-Left n s (scan (dfs edges fuel) (targets edges n) (enter n s)) fits new
        (λ h. grounded (λ t e. All-at (IsGrounded edges) (targets edges n) t h e))
        (scan-Left edges (dfs edges fuel) (dfs-Left fuel) (targets edges n) (enter n s)
          (enter-Fits n s fits new))

  abbrev at_rest : Search → Search
  at_rest s = record s { path = [] }

  find_from-All :
      (fuel : ℕ) (ns : List String) (s : Search)
      → Fits edges (at_rest s)
      → find_from edges fuel ns s ≡ some none
      → All (IsGrounded edges) ns
  unfolding find_from
  find_from-All fuel [] s fits h = tt
  find_from-All fuel (n ∷ ns) s fits h =
      go (flag s.visited n) refl (dfs edges fuel n (at_rest s)) (dfs-Left fuel n (at_rest s) fits)
        (λ q f. find_from-All fuel ns q f) h
    where
      go :
          (old : Bool)
          → flag s.visited n ≡ old
          → (r : Option (Bool × Search))
          → (flag s.visited n ≡ false
              → Left edges (λ q. Passed edges (at_rest s) q × (flag q.visited n ≡ true)) r)
          → ((q : Search)
              → Fits edges (at_rest q)
              → find_from edges fuel ns q ≡ some none
              → All (IsGrounded edges) ns)
          → (elim old as (λ _. Option (Option (List String))) [
            | true ↦ find_from edges fuel ns s
            | false ↦ elim r as (λ _. Option (Option (List String))) [
              | none ↦ none
              | some q ↦ elim q.0 as (λ _. Option (Option (List String))) [
                | true ↦ some (some q.1.path)
                | false ↦ find_from edges fuel ns q.1
              ]
            ]
          ])
            ≡ some none
          → IsGrounded edges n × All (IsGrounded edges) ns
      go true old r post later h = (fits.finished n old refl, later s fits h)
      go false new none post later h = absurd cc
      go false new (some (true, q)) post later h = absurd cc
      go false new (some (false, q)) post later h =
          let (passed, now) = post new in
          let rest : at_rest q ≡ q = ap (λ p. record q { path = p }) (sym passed.same) in
          (
            Passed-IsGrounded edges (at_rest s) q n fits new passed now,
            later q (subst (Fits edges) (sym rest) passed.fits) h,
          )

-- When each agent that a node declares is a node and the depth allowed is the number of nodes,
-- `findCycleDFS` returns nil exactly for the graphs without a cycle.
pub find_cycle_dfs_iff :
    (edges : Map (List String)) (fuel : ℕ) (nodes : List String)
    → Closed edges nodes
    → length nodes ≤ fuel
    → (find_cycle_dfs edges fuel nodes ≡ some none) ↔ ((c : List String) → ¬ IsCycle edges c)
unfolding find_cycle_dfs lookup
find_cycle_dfs_iff edges fuel nodes closed enough = (
  λ h c cycle.
      IsGrounded-IsCycle edges nodes c closed
        (λ n at.
          All-at (IsGrounded edges) nodes n
            (find_from-All edges fuel nodes (record { visited = []; rec_stack = []; path = [] })
              start h)
            at)
        cycle,
  λ free. nothing free (find_cycle_dfs_returns edges fuel nodes closed enough),
)
  where
    start : Fits edges (record { visited = []; rec_stack = []; path = [] })
    start = record {
      stacked = λ n. refl;
      seen = λ n on. absurd cc;
      finished = λ n old off. absurd cc;
    }

    nothing :
        ((c : List String) → ¬ IsCycle edges c)
        → (r : Option (List String)) × (find_cycle_dfs edges fuel nodes ≡ some r)
        → find_cycle_dfs edges fuel nodes ≡ some none
    nothing free (none, h) = h
    nothing free (some c, h) = absurd (free c (find_cycle_dfs-IsCycle edges fuel nodes c h))
