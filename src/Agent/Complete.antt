-- ===== src/Agent/Complete.antt =====
-- pkg/agent/compiler.go: what a call of the search for a cycle leaves if it finds none.
use bunshin_go.Common.{
  String, List, [], ◌∷◌, ◌++◌, Map, Option, none, some, Bool, true, false, ◌≡◌, ◌⊎◌, refl, sym, ap,
  ◌∙◌, arith, All, contains, str_eq, Bool-cases, inl, inr, if◌then◌else◌, insert, lookup-insert,
}
use bunshin_go.Agent.Cycles.{flag, Search, from_first, scan}
use bunshin_go.Agent.Acyclic.{IsGrounded}

from_first-none : (n : String) (l : List String) → from_first n l ≡ none → contains n l ≡ false
unfolding from_first
from_first-none n [] h = refl
from_first-none n (x ∷ xs) h = elim (Bool-cases (str_eq x n)) [
  | inl here ↦ ground arith
  | inr away ↦ let later = from_first-none n xs (ground arith) in ground arith
]

pub flag-insert :
    (k n : String) (b : Bool) (m : Map Bool)
    → flag (insert k b m) n ≡ (if str_eq k n then b else flag m n)
flag-insert k n b m = ground (arith, lookup-insert k n b m)

module _ (edges : Map (List String)) where
  -- Between two calls the marks of the stack are those of the path, and what is visited and off the
  -- path is grounded.
  pub record Fits (s : Search) : Type 0 where
    pub stacked : (n : String) → flag s.rec_stack n ≡ contains n s.path
    pub seen : (n : String) → contains n s.path ≡ true → flag s.visited n ≡ true
    pub finished :
        (n : String) → flag s.visited n ≡ true → contains n s.path ≡ false → IsGrounded edges n

  -- What a call that finds no cycle leaves.
  pub record Passed (s q : Search) : Type 0 where
    pub fits : Fits q
    pub same : q.path ≡ s.path
    pub more : (n : String) → flag s.visited n ≡ true → flag q.visited n ≡ true

  abbrev pub Left : (Search → Type 0) → Option (Bool × Search) → Type 0
  Left P none = Unit
  Left P (some (true, q)) = Unit
  Left P (some (false, q)) = P q

  pub Passed-refl : (s : Search) → Fits s → Passed s s
  Passed-refl s fits = record { fits = fits; same = refl; more = λ n h. h }

  Passed-trans : (s q r : Search) → Passed s q → Passed q r → Passed s r
  Passed-trans s q r a b = record {
    fits = b.fits;
    same = b.same ∙ a.same;
    more = λ n h. b.more n (a.more n h);
  }

  -- A node that a call has visited is grounded if it was not visited before.
  pub Passed-IsGrounded :
      (s q : Search) (n : String)
      → Fits s
      → flag s.visited n ≡ false
      → Passed s q
      → flag q.visited n ≡ true
      → IsGrounded edges n
  Passed-IsGrounded s q n fits new passed now =
      passed.fits.finished n now
        (ap (contains n) passed.same ∙ off (Bool-cases (contains n s.path)))
    where
      off : (contains n s.path ≡ true) ⊎ (contains n s.path ≡ false) → contains n s.path ≡ false
      off (inr away) = away
      off (inl on) = let old = fits.seen n on in cc

  pub scan-Left :
      (visit : String → Search → Option (Bool × Search))
      → ((n : String) (s : Search)
          → Fits s
          → flag s.visited n ≡ false
          → Left (λ q. Passed s q × (flag q.visited n ≡ true)) (visit n s))
      → (ns : List String) (s : Search) → Fits s
      → Left (λ q. Passed s q × All (IsGrounded edges) ns) (scan visit ns s)
  unfolding scan
  scan-Left visit ih [] s fits = (Passed-refl s fits, tt)
  scan-Left visit ih (n ∷ ns) s fits =
      go (flag s.visited n) refl (visit n s) (ih n s fits) (flag s.rec_stack n) refl
        (from_first n s.path) refl (scan-Left visit ih ns s fits) (λ q f. scan-Left visit ih ns q f)
    where
      Goal : Search → Type 0
      Goal q = Passed s q × (IsGrounded edges n × All (IsGrounded edges) ns)

      with_head :
          (o : Option (Bool × Search))
          → IsGrounded edges n
          → Left (λ q. Passed s q × All (IsGrounded edges) ns) o
          → Left Goal o
      with_head none g h = tt
      with_head (some (true, q)) g h = tt
      with_head (some (false, q)) g h = (h.0, (g, h.1))

      after :
          (q : Search) (o : Option (Bool × Search))
          → Passed s q
          → IsGrounded edges n
          → Left (λ r. Passed q r × All (IsGrounded edges) ns) o
          → Left Goal o
      after q none p g h = tt
      after q (some (true, r)) p g h = tt
      after q (some (false, r)) p g h = (Passed-trans s q r p h.0, (g, h.1))

      go :
          (old : Bool)
          → flag s.visited n ≡ old
          → (r : Option (Bool × Search))
          → (flag s.visited n ≡ false → Left (λ q. Passed s q × (flag q.visited n ≡ true)) r)
          → (on_stack : Bool) → flag s.rec_stack n ≡ on_stack
          → (found : Option (List String)) → from_first n s.path ≡ found
          → Left (λ q. Passed s q × All (IsGrounded edges) ns) (scan visit ns s)
          → ((q : Search)
              → Fits q
              → Left (λ r. Passed q r × All (IsGrounded edges) ns) (scan visit ns q))
          → Left Goal (elim old as (λ _. Option (Bool × Search)) [
            | false ↦ elim r as (λ _. Option (Bool × Search)) [
              | none ↦ none
              | some q ↦ elim q.0 as (λ _. Option (Bool × Search)) [
                | true ↦ some (true, q.1)
                | false ↦ scan visit ns q.1
              ]
            ]
            | true ↦ elim on_stack as (λ _. Option (Bool × Search)) [
              | false ↦ scan visit ns s
              | true ↦ elim found as (λ _. Option (Bool × Search)) [
                | none ↦ scan visit ns s
                | some cycle ↦ some (true, record s { path = cycle ++ (n ∷ []) })
              ]
            ]
          ])
      go false new none post on st found at here later = tt
      go false new (some (true, q)) post on st found at here later = tt
      go false new (some (false, q)) post on st found at here later =
          let (passed, now) = post new in
          after q (scan visit ns q) passed (Passed-IsGrounded s q n fits new passed now)
            (later q passed.fits)
      go true old r post false st found at here later =
          with_head (scan visit ns s) (fits.finished n old (sym (fits.stacked n) ∙ st)) here
      go true old r post true st none at here later =
          let away = from_first-none n s.path at in let on = sym (fits.stacked n) ∙ st in absurd cc
      go true old r post true st (some c) at here later = tt
