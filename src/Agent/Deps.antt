-- ===== src/Agent/Deps.antt =====
-- pkg/agent/compiler.go: the map of resolved agents, its keys, and the map of what they declare.
use mathlib.Core.Path.{subst}
use bunshin_go.Common.{
  String, List, [], ◌∷◌, Map, lookup, insert, Bool, true, false, ◌≡◌, refl, sym, arith, eq_iff, All,
  contains, str_eq, ◌||◌, if◌then◌else◌, lookup-insert, is_some, keys, Distinct,
}
use bunshin_go.Agent.State.{SubAgent}
use bunshin_go.Agent.Cycles.{targets}
use bunshin_go.Agent.Resolve.{add_deps}

pub All-insert {ℓ} :
    {V : Type ℓ} (P : String × V → Type 0) (k : String) (v : V) (m : Map V)
    → P (k, v)
    → All P m
    → All P (insert k v m)
unfolding insert
All-insert P k v [] p ps = (p, tt)
All-insert P k v ((j, w) ∷ m) p (q, ps) = go (str_eq j k) (All-insert P k v m p ps)
  where
    go :
        (same : Bool)
        → All P (insert k v m)
        → All P (if same then (k, v) ∷ m else (j, w) ∷ insert k v m)
    go true later = (p, ps)
    go false later = (q, later)

pub keys-insert {ℓ} :
    {V : Type ℓ} (k j : String) (v : V) (m : Map V)
    → contains j (keys (insert k v m)) ≡ (str_eq k j || contains j (keys m))
unfolding insert
keys-insert k j v [] = refl
keys-insert k j v ((i, w) ∷ m) =
    ground (arith, keys-insert k j v m, eq_iff i k, eq_iff i j, eq_iff k j)

pub keys-Distinct {ℓ} :
    {V : Type ℓ} (k : String) (v : V) (m : Map V)
    → Distinct (keys m)
    → Distinct (keys (insert k v m))
unfolding insert
keys-Distinct k v [] d = (refl, tt)
keys-Distinct k v ((i, w) ∷ m) (fresh, d) = go (str_eq i k) refl (keys-Distinct k v m d)
  where
    go :
        (same : Bool)
        → str_eq i k ≡ same
        → Distinct (keys (insert k v m))
        → Distinct (keys (if same then (k, v) ∷ m else (i, w) ∷ insert k v m))
    go true at later = (subst (λ y. contains y (keys m) ≡ false) ((eq_iff i k).0 at) fresh, d)
    go false at later = (ground (arith, keys-insert k i v m, eq_iff k i, eq_iff i k), later)

pub lookup-keys {ℓ} :
    {V : Type ℓ} (k : String) (m : Map V) → contains k (keys m) ≡ is_some (lookup k m)
unfolding lookup
lookup-keys k [] = refl
lookup-keys k ((j, v) ∷ m) = ground (arith, lookup-keys k m)

pub targets-insert :
    (k n : String) (ns : List String) (deps : Map (List String))
    → targets (insert k ns deps) n ≡ (if str_eq k n then ns else targets deps n)
unfolding targets
targets-insert k n ns deps = ground (arith, lookup-insert k n ns deps)

pub add_deps-targets :
    {W : Type 0} (P : String → Type 0) (agents : Map (SubAgent W)) (deps : Map (List String))
    (n : String)
    → All (λ e. All P e.1.agent_names) agents
    → All P (targets deps n)
    → All P (targets (add_deps agents deps) n)
unfolding add_deps
add_deps-targets P [] deps n h old = old
add_deps-targets P ((k, a) ∷ m) deps n (here, h) old =
    add_deps-targets P m (insert k a.agent_names deps) n h
      (subst (All P) (sym (targets-insert k n a.agent_names deps)) (go (str_eq k n)))
  where
    go : (same : Bool) → All P (if same then a.agent_names else targets deps n)
    go true = here
    go false = old
