-- ===== src/Checkpoint/Stores.antt =====
-- pkg/checkpoint/types.go and pkg/checkpoint/backends.go: the checkpointer and the journal in memory.
use bunshin_go.Common.{
  String, ℕ, List, [], ◌∷◌, ◌++◌, Map, Option, none, some, lookup, insert, remove,
}
use bunshin_go.Core.Errors.{Error, errorf, wrapf, Result, ok, err}
use bunshin_go.Core.Value.{ℤ, Value}
use bunshin_go.Agent.State.{last_of}

-- `Checkpoint`; a time is a number.
pub record Checkpoint : Type 0 where
  pub workflow_id : String
  pub thread_id : String
  pub step_index : ℤ
  pub step_id : String
  pub state : String
  pub version : ℤ
  pub created_at : ℕ

-- `JournalEntry`.
pub record JournalEntry : Type 0 where
  pub workflow_id : String
  pub thread_id : String
  pub step_index : ℤ
  pub step_id : String
  pub inputs : Map Value
  pub outputs : Map Value
  pub err : String
  pub start_time : ℕ
  pub end_time : ℕ

-- `ErrNoCheckpoint`.
abbrev pub err_no_checkpoint : Error
err_no_checkpoint = errorf "no checkpoint found" []

-- `MemoryCheckpointer` and `MemoryJournal`: the pointers of each thread, newest last, to records on a
-- heap that the callers share.
pub record Threads (A : Type 0) : Type 0 where
  pub heap : ℕ → A
  pub held : Map (List ℕ)

-- The read of the map: a missing key has no records.
abbrev pub at_found : Option (List ℕ) → List ℕ
at_found none = []
at_found (some xs) = xs

unfoldable pub at_thread : String → Map (List ℕ) → List ℕ
at_thread t held = at_found (lookup t held)

-- `NewMemoryCheckpointer` and `NewMemoryJournal`, on a heap.
unfoldable pub new_threads : {A : Type 0} → (ℕ → A) → Threads A
new_threads heap = record { heap = heap; held = [] }

-- `data[key] = append(data[key], pointer)`.
unfoldable pub append_at : String → ℕ → Map (List ℕ) → Map (List ℕ)
append_at t pointer held = insert t (at_thread t held ++ (pointer ∷ [])) held

-- `Save`.
unfoldable pub save : ℕ → Threads Checkpoint → Threads Checkpoint × Option Error
save cp s = (record s { held = append_at (s.heap cp).thread_id cp s.held }, none)

-- `Load`, which returns a pointer.
unfoldable pub load : String → Threads Checkpoint → Result ℕ
load thread s = elim (last_of (at_thread thread s.held)) [
  | none ↦ err (wrapf "%w: thread=%q" (thread ∷ []) err_no_checkpoint)
  | some cp ↦ ok cp
]

-- `Delete`.
unfoldable pub delete : String → Threads Checkpoint → Threads Checkpoint × Option Error
delete thread s = (record s { held = remove thread s.held }, none)

-- `History`, a new slice of the pointers.
unfoldable pub history : String → Threads Checkpoint → Result (List ℕ)
history thread s = ok (at_thread thread s.held)

-- `Append` of the journal.
unfoldable pub append : ℕ → Threads JournalEntry → Threads JournalEntry × Option Error
append entry s = (record s { held = append_at (s.heap entry).thread_id entry s.held }, none)

-- `Entries`, a new slice of the pointers.
unfoldable pub entries : String → Threads JournalEntry → Result (List ℕ)
entries thread s = ok (at_thread thread s.held)

-- `Clear`.
unfoldable pub clear : String → Threads JournalEntry → Threads JournalEntry × Option Error
clear thread s = (record s { held = remove thread s.held }, none)
