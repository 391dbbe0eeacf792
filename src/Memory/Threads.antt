-- ===== src/Memory/Threads.antt =====
-- pkg/memory/store.go: the in-process message store.
use bunshin_go.Common.{ℕ, zero, suc, ◌-◌, List, [], ◌∷◌, ◌++◌, if◌then◌else◌, ltb, length}
use bunshin_go.Core.Value.{ℤ, pos, negsuc}

-- `MemoryStore`, with its token counter; a token count is not negative.
pub record MemoryStore (M : Type 0) : Type 0 where
  pub messages : List M
  pub token_counter : M → ℕ

module _ {M : Type 0} where
  -- The messages in front of others, last first.
  unfoldable pub rev_append : List M → List M → List M
  rev_append [] ys = ys
  rev_append (x ∷ xs) ys = rev_append xs (x ∷ ys)

  unfoldable pub drop : ℕ → List M → List M
  drop zero xs = xs
  drop (suc n) [] = []
  drop (suc n) (x ∷ xs) = drop n xs

  -- `NewMemoryStore`, with the token counter that its options leave.
  unfoldable pub new_memory_store : (M → ℕ) → MemoryStore M
  new_memory_store counter = record { messages = []; token_counter = counter }

  -- `Append`.
  unfoldable pub append : M → MemoryStore M → MemoryStore M
  append msg s = record s { messages = s.messages ++ (msg ∷ []) }

  -- The loop of `Window`: the messages before the index, last first, the budget and `start`.
  unfoldable pub walk : (M → ℕ) → List M → ℕ → ℕ → ℕ
  walk cost [] budget start = start
  walk cost (m ∷ before) budget start =
      let further = walk cost before (budget - cost m) (length before) in
      if ltb budget (cost m) then start else further

  -- `Window`.
  unfoldable pub window : ℤ → MemoryStore M → List M
  window (negsuc n) s = s.messages
  window (pos zero) s = s.messages
  window (pos (suc n)) s =
      drop (walk s.token_counter (rev_append s.messages []) (suc n) (length s.messages)) s.messages

  -- `Len`.
  unfoldable pub len : MemoryStore M → ℕ
  len s = length s.messages
