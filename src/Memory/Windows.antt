-- ===== src/Memory/Windows.antt =====
-- pkg/memory/store.go: the window of a message store is the longest recent run that fits.
use mathlib.Core.Path.{subst}
use bunshin_go.Common.{
  ℕ, suc, ◌+◌, ◌-◌, ◌<◌, ◌≤◌, List, [], ◌∷◌, ◌++◌, ◌≡◌, refl, sym, ap, ◌∙◌, ◌⊎◌, inl, inr, ltb,
  length, Bool-cases, arith,
}
use bunshin_go.Core.Value.{pos}
use bunshin_go.Memory.Threads.{MemoryStore, rev_append, drop, walk, window}

module _ {M : Type 0} where
  rev_append_twice :
      (xs ys zs : List M) → rev_append (rev_append xs ys) zs ≡ rev_append ys (xs ++ zs)
  unfolding rev_append
  rev_append_twice [] ys zs = refl
  rev_append_twice (x ∷ xs) ys zs = rev_append_twice xs (x ∷ ys) zs

  append_nil : (xs : List M) → xs ++ [] ≡ xs
  append_nil [] = refl
  append_nil (x ∷ xs) = ap (◌∷◌ x) (append_nil xs)

  append_assoc : (xs ys zs : List M) → (xs ++ ys) ++ zs ≡ xs ++ (ys ++ zs)
  append_assoc [] ys zs = refl
  append_assoc (x ∷ xs) ys zs = ap (◌∷◌ x) (append_assoc xs ys zs)

  rev_append_split : (xs ys : List M) → rev_append xs ys ≡ rev_append xs [] ++ ys
  unfolding rev_append
  rev_append_split [] ys = refl
  rev_append_split (x ∷ xs) ys =
      rev_append_split xs (x ∷ ys)
      ∙ sym (append_assoc (rev_append xs []) (x ∷ []) ys)
      ∙ ap (λ l. l ++ ys) (sym (rev_append_split xs (x ∷ [])))

  length-rev_append : (xs ys : List M) → length (rev_append xs ys) ≡ length xs + length ys
  unfolding rev_append
  length-rev_append [] ys = omega arith
  length-rev_append (x ∷ xs) ys = omega (arith, length-rev_append xs (x ∷ ys))

  drop-append : (xs ys : List M) → drop (length xs) (xs ++ ys) ≡ ys
  unfolding drop
  drop-append [] ys = refl
  drop-append (x ∷ xs) ys = drop-append xs ys

  unfoldable pub total : (M → ℕ) → List M → ℕ
  total cost [] = 0
  total cost (m ∷ ms) = cost m + total cost ms

  -- What was dropped and what is kept, with a budget of `max` for what is kept: nothing was dropped,
  -- or the last message that was would not have fitted.
  pub record Fits (cost : M → ℕ) (max : ℕ) (all kept : List M) : Type 0 where
    pub dropped : List M
    pub split : all ≡ dropped ++ kept
    pub within : total cost kept ≤ max
    pub longest :
        (dropped ≡ [])
        ⊎ ((older : List M) × (m : M) × (dropped ≡ older ++ (m ∷ []))
            × (max < cost m + total cost kept))

  walk-Fits :
      (cost : M → ℕ) (before kept : List M) (budget max : ℕ)
      → budget + total cost kept ≡ max
      → (later : List M) × (fits : Fits cost max (rev_append before kept) later) × (walk cost before
            budget
            (length before)
          ≡ length fits.dropped)
  unfolding walk rev_append total
  walk-Fits cost [] kept budget max e =
      (kept, record { dropped = []; split = refl; within = omega arith; longest = inl refl }, refl)
  walk-Fits cost (m ∷ before) kept budget max e = elim (Bool-cases (ltb budget (cost m))) [
    | inl over ↦ (
      kept,
      record {
        dropped = rev_append (m ∷ before) [];
        split = rev_append_split (m ∷ before) kept;
        within = omega arith;
        longest = inr (rev_append before [], m, rev_append_split before (m ∷ []), ground arith);
      },
      rw over (ground (arith, length-rev_append before (m ∷ []))),
    )
    | inr fitting ↦
        let (later, fits, at) =
          walk-Fits cost before (m ∷ kept) (budget - cost m) max (ground arith) in
        (later, fits, rw fitting at)
  ]

-- With a positive limit, `Window` returns the longest run of the most recent messages whose token
-- counts add up to no more than the limit, in their order.
pub window-Fits :
    {M : Type 0} (s : MemoryStore M) (n : ℕ)
    → Fits s.token_counter (suc n) s.messages (window (pos (suc n)) s)
unfolding window total rev_append
window-Fits {M} s n =
    let all = s.messages in
    let (later, fits, at) =
      walk-Fits s.token_counter (rev_append all []) [] (suc n) (suc n) (omega arith) in
    let same : rev_append (rev_append all []) [] ≡ all =
      rev_append_twice all [] [] ∙ append_nil all in
    let count : length (rev_append all []) ≡ length all = omega (arith, length-rev_append all []) in
    let start : walk s.token_counter (rev_append all []) (suc n) (length all)
        ≡ length fits.dropped =
      ap (walk s.token_counter (rev_append all []) (suc n)) (sym count) ∙ at in
    let kept : drop (length fits.dropped) all ≡ later =
      ap (drop (length fits.dropped)) (sym same ∙ fits.split) ∙ drop-append fits.dropped later in
    let result : window (pos (suc n)) s ≡ later = ap (λ k. drop k all) start ∙ kept in
    subst (Fits s.token_counter (suc n) all) (sym result)
      (subst (λ l. Fits s.token_counter (suc n) l later) same fits)
