-- ===== src/Graph/Refinement.antt =====
-- The loop of `Graph.Invoke` against the executions of Graph/Runs.
use mathlib.Core.Path.{subst}
use native.Mathlib.Nat.{suc-add}
use bunshin_go.Common.{
  String, ℕ, zero, suc, ◌+◌, ◌≡◌, refl, ◌≢◌, ◌↔◌, inl, inr, false, Option, none, some, lookup,
  str_eq, eq_iff, Bool-cases, Option-cases, arith,
}
use bunshin_go.Core.Errors.{Error, Result, ok, err}
use bunshin_go.Core.State.{State}
use bunshin_go.Graph.Defs.{
  end_node, Reply, done, failed, Routed, Router, Node, Graph, Config, Final, Round, stop, more,
  round, loop, invoke, after_node, after_router,
}
use bunshin_go.Graph.Runs.{
  Enters, Runs, at_end, cancelled, missing, node_failed, last, router_failed, hop,
}

module _ {ℓ} {S W : Type ℓ} (ctx_err : W → Option Error) (g : Graph S W) where
  -- What a round that ends, or goes on, adds to an execution.
  abbrev Adds : Config S W → Round S W → Type ℓ
  Adds c (stop final) = Runs ctx_err g c final
  Adds c (more c') = (final : Final S W) → Runs ctx_err g c' final → Runs ctx_err g c final

  after_router-Adds :
      (c : Config S W) (n : Node S W) (out : State S) (w w' : W) (router : Router S W)
      (r : Routed S) (next : Result String)
      → Enters ctx_err g c n
      → n.runnable c.input c.world ≡ (w, done out)
      → n.router ≡ some router
      → router out w ≡ (w', r)
      → r.next ≡ next
      → Adds c (after_router g c.current (w', r))
  after_router-Adds c n out w w' router r (ok next) enters ran routes routed e =
      rw e (λ final rest. hop enters ran routes routed e rest)
  after_router-Adds c n out w w' router r (err x) enters ran routes routed e =
      rw e (router_failed enters ran routes routed e)

  after_node-Adds :
      (c : Config S W) (n : Node S W) (w : W) (reply : Reply S) (router : Option (Router S W))
      → Enters ctx_err g c n
      → n.runnable c.input c.world ≡ (w, reply)
      → n.router ≡ router
      → Adds c (after_node g n c.current (w, reply))
  after_node-Adds c n w (failed e seen) router enters ran routes = node_failed enters ran
  after_node-Adds c n w (done out) none enters ran routes = rw routes (last enters ran routes)
  after_node-Adds c n w (done out) (some router) enters ran routes = rw routes (
      after_router-Adds c n out w (router out w).0 router (router out w).1 (router out w).1.next
        enters ran routes refl refl)

  round-Adds : (c : Config S W) → Adds c (round ctx_err g c)
  unfolding round
  round-Adds c = elim (Bool-cases (str_eq c.current end_node)) [
    | inl ended ↦ rw ended (at_end ((eq_iff _ _).0 ended))
    | inr running ↦ rw running (elim (Option-cases (ctx_err c.world)) [
      | inr (e, dead) ↦ rw dead (cancelled (ne running) dead)
      | inl alive ↦ rw alive (elim (Option-cases (lookup c.current g.nodes)) [
        | inl absent ↦ rw absent (missing (ne running) alive absent)
        | inr (n, found) ↦ rw found (
            after_node-Adds c n (n.runnable c.input c.world).0 (n.runnable c.input c.world).1
              n.router (record { running = ne running; alive = alive; found = found }) refl refl)
      ])
    ])
  ]
    where
      ne : str_eq c.current end_node ≡ false → c.current ≢ end_node
      ne = ground (arith, eq_iff c.current end_node)

  loop-Runs :
      (fuel : ℕ) (c : Config S W) (final : Final S W)
      → loop ctx_err g fuel c ≡ some final
      → Runs ctx_err g c final
  unfolding loop
  loop-Runs zero c final h = cc
  loop-Runs (suc fuel) c final h = go (round ctx_err g c) (round-Adds c) (loop-Runs fuel) h
    where
      go :
          (r : Round S W)
          → Adds c r
          → ((c' : Config S W) (f : Final S W)
              → loop ctx_err g fuel c' ≡ some f
              → Runs ctx_err g c' f)
          → elim r [ stop f ↦ some f | more c' ↦ loop ctx_err g fuel c' ] ≡ some final
          → Runs ctx_err g c final
      go (stop f) adds ih e = let same : f ≡ final = cc in subst (Runs ctx_err g c) same adds
      go (more c') adds ih e = adds final (ih c' final e)

  -- Each execution is found with enough fuel.
  Runs-loop :
      {c : Config S W} {final : Final S W}
      → Runs ctx_err g c final
      → (fuel : ℕ) × (loop ctx_err g fuel c ≡ some final)
  unfolding loop
  Runs-loop (at_end {c} e) = (1, ground (arith, eq_iff c.current end_node))
  Runs-loop (cancelled {c} running dead) = (1, ground (arith, eq_iff c.current end_node))
  Runs-loop (missing {c} running alive absent) = (1, ground (arith, eq_iff c.current end_node))
  Runs-loop (node_failed {c} en ran) = (1, ground (arith, eq_iff c.current end_node))
  Runs-loop (last {c} en ran routes) = (1, ground (arith, eq_iff c.current end_node))
  Runs-loop (router_failed {c} en ran routes routed e) =
      (1, ground (arith, eq_iff c.current end_node))
  Runs-loop (hop {c} en ran routes routed e rest) =
      let (fuel, found) = Runs-loop rest in (suc fuel, ground (arith, eq_iff c.current end_node))

  loop_mono :
      (fuel extra : ℕ) (c : Config S W) {final : Final S W}
      → loop ctx_err g fuel c ≡ some final
      → loop ctx_err g (fuel + extra) c ≡ some final
  unfolding loop
  loop_mono zero extra c h = cc
  loop_mono (suc fuel) extra c {final} h =
      rw suc-add (go (round ctx_err g c) (λ c'. loop_mono fuel extra c') h)
    where
      go :
          (r : Round S W)
          → ((c' : Config S W)
              → loop ctx_err g fuel c' ≡ some final
              → loop ctx_err g (fuel + extra) c' ≡ some final)
          → elim r [ stop f ↦ some f | more c' ↦ loop ctx_err g fuel c' ] ≡ some final
          → elim r [ stop f ↦ some f | more c' ↦ loop ctx_err g (fuel + extra) c' ] ≡ some final
      go (stop f) ih e = e
      go (more c') ih e = ih c' e

  -- Every amount of fuel that suffices gives the same result.
  pub loop_agree :
      (fuel fuel' : ℕ) (c : Config S W) {r r' : Final S W}
      → loop ctx_err g fuel c ≡ some r
      → loop ctx_err g fuel' c ≡ some r'
      → r ≡ r'
  loop_agree fuel fuel' c {r} {r'} h h' =
      let p = loop_mono fuel fuel' c h in
      let q = loop_mono fuel' fuel c h' in
      let e : fuel + fuel' ≡ fuel' + fuel = omega arith in
      let q' : loop ctx_err g (fuel + fuel') c ≡ some r' = rw e q in cc

-- With an entry point, `Invoke` ends with a result exactly when the graph has an execution from
-- the entry point with that result; and the result is unique, so the fuel does not change it.
pub invoke_iff-Runs {ℓ} :
    {S W : Type ℓ} (ctx_err : W → Option Error) (g : Graph S W) (input : State S) (w : W)
    (final : Final S W)
    → g.entry_point ≢ ""
    → (((fuel : ℕ) × (invoke ctx_err g fuel input w ≡ some final))
        ↔ Runs ctx_err g (record { current = g.entry_point; input = input; world = w }) final)
      × ((r r' : Final S W)
          → Runs ctx_err g (record { current = g.entry_point; input = input; world = w }) r
          → Runs ctx_err g (record { current = g.entry_point; input = input; world = w }) r'
          → r ≡ r')
unfolding invoke
invoke_iff-Runs {S} {W} ctx_err g input w final entry = rw no_entry (
  ((λ h. loop-Runs ctx_err g h.0 start final h.1), (λ runs. Runs-loop ctx_err g runs)),
  λ r r' runs runs'.
      let (fuel, h) = Runs-loop ctx_err g runs in
      let (fuel', h') = Runs-loop ctx_err g runs' in loop_agree ctx_err g fuel fuel' start h h',
)
  where
    start : Config S W
    start = record { current = g.entry_point; input = input; world = w }

    no_entry : str_eq g.entry_point "" ≡ false
    no_entry = ground (arith, eq_iff g.entry_point "")
