-- ===== src/Agent/Reached.antt =====
-- pkg/agent/compiler.go: the search for the reachable agents ends, and leaves none out.
use mathlib.Core.Path.{subst}
use bunshin_go.Common.{
  String, ℕ, zero, suc, ◌+◌, ◌≤◌, ◌<◌, List, [], ◌∷◌, ◌++◌, Map, Option, none, some, lookup, insert,
  Bool, true, false, ◌≡◌, refl, sym, arith, eq_iff, All, contains, str_eq, Bool-cases, inl, inr,
  if◌then◌else◌, lookup-insert, length, ◌⊎◌, length-append, contains-append,
}
use bunshin_go.Core.Errors.{wrapf, Result, ok, err}
use bunshin_go.Agent.State.{SubAgent}
use bunshin_go.Agent.Cycles.{flag}
use bunshin_go.Agent.Depth.{unseen, unseen-insert_new}
use bunshin_go.Agent.Resolve.{enqueue, reach}

flag-insert :
    (k n : String) (m : Map Bool)
    → flag (insert k true m) n ≡ (if str_eq k n then true else flag m n)
flag-insert k n m = ground (arith, lookup-insert k n true m)

enqueue_seen :
    (n : String) (ns : List String) (m : Map Bool) (q : List String)
    → flag m n ≡ true
    → enqueue (n ∷ ns) m q ≡ enqueue ns m q
unfolding enqueue
enqueue_seen n ns m q seen = rw (enqueue, seen) refl

enqueue_fresh :
    (n : String) (ns : List String) (m : Map Bool) (q : List String)
    → flag m n ≡ false
    → enqueue (n ∷ ns) m q ≡ enqueue ns (insert n true m) (q ++ (n ∷ []))
unfolding enqueue
enqueue_fresh n ns m q fresh = rw (enqueue, fresh) refl

-- A name stays visited.
pub enqueue-flag :
    (ns : List String) (b : String) (m : Map Bool) (q : List String)
    → flag m b ≡ true
    → flag ((enqueue ns m q).0) b ≡ true
unfolding enqueue
enqueue-flag [] b m q h = h
enqueue-flag (n ∷ ns) b m q h = elim (Bool-cases (flag m n)) [
  | inl seen ↦ rw (enqueue, seen) (enqueue-flag ns b m q h)
  | inr new ↦
      rw (enqueue, new)
        (enqueue-flag ns b (insert n true m) (q ++ (n ∷ [])) (ground (arith, flag-insert n b m)))
]

-- A name stays in the queue.
pub enqueue-contains :
    (ns : List String) (b : String) (m : Map Bool) (q : List String)
    → contains b q ≡ true
    → contains b ((enqueue ns m q).1) ≡ true
unfolding enqueue
enqueue-contains [] b m q h = h
enqueue-contains (n ∷ ns) b m q h = elim (Bool-cases (flag m n)) [
  | inl seen ↦ rw (enqueue, seen) (enqueue-contains ns b m q h)
  | inr new ↦
      rw (enqueue, new)
        (enqueue-contains ns b (insert n true m) (q ++ (n ∷ []))
          (ground (arith, contains-append b q (n ∷ []))))
]

-- Each of the names is visited afterwards.
pub enqueue-all :
    (ns : List String) (m : Map Bool) (q : List String)
    → All (λ b. flag ((enqueue ns m q).0) b ≡ true) ns
unfolding enqueue
enqueue-all [] m q = tt
enqueue-all (n ∷ ns) m q = elim (Bool-cases (flag m n)) [
  | inl seen ↦
      subst (λ r. All (λ b. flag r.0 b ≡ true) (n ∷ ns)) (sym (enqueue_seen n ns m q seen))
        (enqueue-flag ns n m q seen, enqueue-all ns m q)
  | inr new ↦
      subst (λ r. All (λ b. flag r.0 b ≡ true) (n ∷ ns)) (sym (enqueue_fresh n ns m q new))
        (
          enqueue-flag ns n (insert n true m) (q ++ (n ∷ []))
              (ground (arith, flag-insert n n m, eq_iff n n)),
          enqueue-all ns (insert n true m) (q ++ (n ∷ [])),
        )
]

-- What is newly visited is in the queue.
pub enqueue-new :
    (ns : List String) (b : String) (m : Map Bool) (q : List String)
    → flag ((enqueue ns m q).0) b ≡ true
    → (flag m b ≡ true) ⊎ (contains b ((enqueue ns m q).1) ≡ true)
unfolding enqueue
enqueue-new [] b m q h = inl h
enqueue-new (n ∷ ns) b m q h = elim (Bool-cases (flag m n)) [
  | inl seen ↦
      subst (λ r. (flag m b ≡ true) ⊎ (contains b r.1 ≡ true)) (sym (enqueue_seen n ns m q seen))
        (enqueue-new ns b m q (subst (λ r. flag r.0 b ≡ true) (enqueue_seen n ns m q seen) h))
  | inr new ↦
      subst (λ r. (flag m b ≡ true) ⊎ (contains b r.1 ≡ true)) (sym (enqueue_fresh n ns m q new))
        (added (
          enqueue-new ns b (insert n true m) (q ++ (n ∷ []))
            (subst (λ r. flag r.0 b ≡ true) (enqueue_fresh n ns m q new) h)))
]
  where
    added :
        (flag (insert n true m) b ≡ true)
          ⊎ (contains b ((enqueue ns (insert n true m) (q ++ (n ∷ []))).1) ≡ true)
        → (flag m b ≡ true) ⊎ (contains b ((enqueue ns (insert n true m) (q ++ (n ∷ []))).1) ≡ true)
    added (inr queued) = inr queued
    added (inl old) = elim (Bool-cases (str_eq n b)) [
      | inl same ↦ inr (
          enqueue-contains ns b (insert n true m) (q ++ (n ∷ []))
            (ground (arith, contains-append b q (n ∷ []))))
      | inr other ↦ inl (ground (arith, flag-insert n b m))
    ]

-- The names of the universe that are not visited pay for the queue.
enqueue-length :
    (all ns : List String) (m : Map Bool) (q : List String)
    → All (λ b. contains b all ≡ true) ns
    → unseen all ((enqueue ns m q).0) + length ((enqueue ns m q).1) ≤ unseen all m + length q
unfolding enqueue
enqueue-length all [] m q inside = omega arith
enqueue-length all (n ∷ ns) m q (here, inside) = elim (Bool-cases (flag m n)) [
  | inl seen ↦ rw (enqueue, seen) (enqueue-length all ns m q inside)
  | inr new ↦
      let later = enqueue-length all ns (insert n true m) (q ++ (n ∷ [])) inside in
      rw (enqueue, new)
        (omega (arith, later, unseen-insert_new all n m here new, length-append q (n ∷ [])))
]

module _ {W : Type 0} (resolver : String → W → W × Result (SubAgent W)) (all : List String) where
  -- Whatever is resolved declares names of the list `all` only.
  abbrev pub Declares : Type 0
  Declares =
      (n : String) (w w' : W) (a : SubAgent W)
      → resolver n w ≡ (w', ok a)
      → All (λ b. contains b all ≡ true) a.agent_names

  pub reach_returns :
      Declares
      → (fuel : ℕ) (agents : Map (SubAgent W)) (visited : Map Bool) (queue : List String) (w : W)
      → unseen all visited + length queue < fuel
      → (r : W × Result (Map (SubAgent W))) × (reach resolver fuel agents visited queue w ≡ some r)
  unfolding reach
  reach_returns inside zero agents visited queue w enough = absurd (omega arith)
  reach_returns inside (suc fuel) agents visited [] w enough = ((w, ok agents), refl)
  reach_returns inside (suc fuel) agents visited (n ∷ queue) w enough =
      go (lookup n agents) (resolver n w) refl (reach_returns inside fuel agents visited queue w)
        (λ found vs q w'. reach_returns inside fuel found vs q w')
    where
      go :
          (known : Option (SubAgent W)) (out : W × Result (SubAgent W))
          → resolver n w ≡ out
          → (unseen all visited + length queue < fuel
              → (r : W × Result (Map (SubAgent W))) × (reach resolver fuel agents visited queue w
                  ≡ some r))
          → ((found : Map (SubAgent W)) (vs : Map Bool) (q : List String) (w' : W)
              → unseen all vs + length q < fuel
              → (r : W × Result (Map (SubAgent W))) × (reach resolver fuel found vs q w' ≡ some r))
          → (r : W × Result (Map (SubAgent W))) × ((elim known
                as (λ _. Option (W × Result (Map (SubAgent W)))) [
                  | some a ↦ reach resolver fuel agents visited queue w
                  | none ↦ elim out.1 as (λ _. Option (W × Result (Map (SubAgent W)))) [
                    | err e ↦ some (out.0, err (wrapf "agents not found: [%s]: %w" (n ∷ []) e))
                    | ok a ↦
                        reach resolver fuel
                          (insert n a agents)
                          ((enqueue a.agent_names visited queue).0)
                          ((enqueue a.agent_names visited queue).1)
                          out.0
                  ]
                ])
              ≡ some r)
      go (some a) out same here later = here (omega arith)
      go none (w', err e) same here later =
          ((w', err (wrapf "agents not found: [%s]: %w" (n ∷ []) e)), refl)
      go none (w', ok a) same here later =
          let fewer = enqueue-length all a.agent_names visited queue (inside n w w' a same) in
          later (insert n a agents) ((enqueue a.agent_names visited queue).0)
            ((enqueue a.agent_names visited queue).1) w' (omega arith)
