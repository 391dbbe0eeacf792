-- ===== src/Llm/Health.antt =====
-- pkg/llm/registry.go: what the pings leave for the selection of a provider.
use bunshin_go.Common.{
  String, ℕ, List, [], ◌∷◌, ◌++◌, Map, Option, none, some, insert, Bool, true, false, if◌then◌else◌,
  str_eq, ◌≡◌, refl, sym, ap, ◌∙◌, arith, eq_iff, lookup-insert, All, ◌≢◌,
}
use bunshin_go.Core.Errors.{Error}
use bunshin_go.Llm.Fallback.{Provider, is_available}
use bunshin_go.Llm.Registry.{
  Tags, ProviderRegistry, Pinger, pooled, register, record_ping, ping_one, ping_from, ping_all,
}

module _ {Req Resp W : Type 0} (pinger : Pinger Req Resp W) where
  -- Whether a ping succeeds; a provider without one is available.
  abbrev pub healthy : Provider Req Resp W → W → Bool
  healthy p w = elim (pinger p) [
    | none ↦ true
    | some ping ↦ elim (ping w).1.1 [ none ↦ true | some e ↦ false ]
  ]

  ping_from-append :
      (xs ys : List (Provider Req Resp W)) (r : ProviderRegistry Req Resp W) (w : W)
      → ping_from pinger (xs ++ ys) r w
        ≡ ping_from pinger ys ((ping_from pinger xs r w).1) ((ping_from pinger xs r w).0)
  unfolding ping_from
  ping_from-append [] ys r w = refl
  ping_from-append (x ∷ xs) ys r w =
      ping_from-append xs ys ((ping_one pinger x r w).1) ((ping_one pinger x r w).0)

  read_written :
      (id asked : String) (b : Bool) (m : Map Bool)
      → is_available (insert id b m) asked ≡ (if str_eq id asked then b else is_available m asked)
  unfolding is_available
  read_written id asked b m = ground (arith, lookup-insert id asked b m)

  ping_one-available :
      (p : Provider Req Resp W) (r : ProviderRegistry Req Resp W) (w : W) (asked : String)
      → is_available (ping_one pinger p r w).1.available asked
        ≡ (if str_eq p.id asked then healthy p w else is_available r.available asked)
  unfolding ping_one record_ping insert
  ping_one-available p r w asked = go (pinger p)
    where
      recorded :
          (out : ℕ × Option Error)
          → is_available (record_ping p.id out r).available asked ≡ (
              if str_eq p.id asked
              then (elim out.1 as (λ _. Bool) [ none ↦ true | some e ↦ false ])
              else is_available r.available asked)
      recorded (rtt, none) = read_written p.id asked true r.available
      recorded (rtt, some e) = read_written p.id asked false r.available

      go :
          (found : Option (W → W × (ℕ × Option Error)))
          → is_available
              ((elim found as (λ _. W × ProviderRegistry Req Resp W) [
                | none ↦ (w, record r { available = insert p.id true r.available })
                | some ping ↦ ((ping w).0, record_ping p.id ((ping w).1) r)
              ]).1
                ).available
              asked
            ≡ (if str_eq p.id asked
                then (elim found as (λ _. Bool) [
                  | none ↦ true
                  | some ping ↦ elim (ping w).1.1 as (λ _. Bool) [ none ↦ true | some e ↦ false ]
                ])
                else is_available r.available asked)
      go none = read_written p.id asked true r.available
      go (some ping) = recorded ((ping w).1)

  -- Pings of other identifiers change nothing.
  ping_from-other :
      (ps : List (Provider Req Resp W)) (r : ProviderRegistry Req Resp W) (w : W) (asked : String)
      → All (λ p. p.id ≢ asked) ps
      → is_available (ping_from pinger ps r w).1.available asked ≡ is_available r.available asked
  unfolding ping_from
  ping_from-other [] r w asked others = refl
  ping_from-other (p ∷ ps) r w asked (other, others) =
      let later =
        ping_from-other ps ((ping_one pinger p r w).1) ((ping_one pinger p r w).0) asked others in
      let here = ping_one-available p r w asked in ground (arith, eq_iff p.id asked)

  -- After `pingAll` a provider of the pool is available exactly if its own ping succeeded, in the
  -- state that the pings before it left, when no later one in the pool has its identifier.
  pub ping_all-healthy :
      (before after : List (Provider Req Resp W)) (p : Provider Req Resp W)
      (r : ProviderRegistry Req Resp W) (w : W)
      → r.providers ≡ before ++ (p ∷ after)
      → All (λ q. q.id ≢ p.id) after
      → is_available (ping_all pinger r w).1.available p.id
        ≡ healthy p (ping_from pinger before r w).0
  unfolding ping_all ping_from
  ping_all-healthy before after p r w pool others =
      let m = ping_from pinger before r w in
      let here = ping_one-available p m.1 m.0 p.id in
      let later =
        ping_from-other after ((ping_one pinger p m.1 m.0).1) ((ping_one pinger p m.1 m.0).0) p.id
          others in
      let whole = ping_from-append before (p ∷ after) r w in
      ap (λ l. is_available (ping_from pinger l r w).1.available p.id) pool
      ∙ (ap (λ x. is_available x.1.available p.id) whole
          ∙ (later ∙ ground (arith, eq_iff p.id p.id)))

  pooled-append :
      (id : String) (before after : List (Provider Req Resp W)) (p : Provider Req Resp W)
      → p.id ≡ id
      → pooled id (before ++ (p ∷ after)) ≡ true
  unfolding pooled
  pooled-append id [] after p same = ground (arith, eq_iff p.id id)
  pooled-append id (x ∷ before) after p same = ground (arith, pooled-append id before after p same)

  -- A provider that is registered after another one with its identifier is not pinged: after
  -- `pingAll` it is available exactly if the ping of that other one succeeded.
  pub register-shared :
      (id : String) (q : Provider Req Resp W) (tags : Tags)
      (before after : List (Provider Req Resp W)) (p : Provider Req Resp W)
      (r : ProviderRegistry Req Resp W) (w : W)
      → r.providers ≡ before ++ (p ∷ after)
      → All (λ x. x.id ≢ p.id) after
      → p.id ≡ q.id
      → is_available (ping_all pinger (register id q tags r) w).1.available q.id
        ≡ healthy p (ping_from pinger before (register id q tags r) w).0
  unfolding register
  register-shared id q tags before after p r w pool others same =
      ap (λ k. is_available (ping_all pinger (register id q tags r) w).1.available k) (sym same)
      ∙ ping_all-healthy before after p (register id q tags r) w (kept ∙ pool) others
    where
      in_pool : pooled q.id r.providers ≡ true
      in_pool = ap (pooled q.id) pool ∙ pooled-append q.id before after p same

      kept : (register id q tags r).providers ≡ r.providers
      kept = rw (register, in_pool) refl
