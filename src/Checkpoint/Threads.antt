-- ===== src/Checkpoint/Threads.antt =====
-- pkg/checkpoint/backends.go: each thread has a log of its own.
use bunshin_go.Common.{
  String, ℕ, ◌==◌, List, [], ◌∷◌, ◌++◌, none, some, Bool, true, false, if◌then◌else◌, str_eq,
  lookup, remove, lookup-insert, lookup-remove, Map, ◌≡◌, refl, ap, ◌∙◌, arith, eq_iff,
}
use bunshin_go.Core.Errors.{wrapf, Result, ok, err}
use bunshin_go.Agent.State.{last_of}
use bunshin_go.Checkpoint.Stores.{
  at_found, Checkpoint, JournalEntry, Threads, new_threads, at_thread, append_at, save, load,
  delete, history, append, entries, clear, err_no_checkpoint,
}

-- What the callers of a store do: they hand over a record, end a thread, or write to a record, which
-- they may have handed over before.
pub data Change (A : Type 0) : Type 0 where
  adds : ℕ → Change A
  ends : String → Change A
  writes : ℕ → A → Change A

abbrev pub written : {A : Type 0} → ℕ → A → (ℕ → A) → ℕ → A
written p x heap q = if p == q then x else heap q

-- The heap after the writes of the callers alone.
unfoldable pub heap_after : {A : Type 0} → List (Change A) → (ℕ → A) → ℕ → A
heap_after [] heap = heap
heap_after (adds p ∷ cs) heap = heap_after cs heap
heap_after (ends t ∷ cs) heap = heap_after cs heap
heap_after (writes p x ∷ cs) heap = heap_after cs (written p x heap)

-- The log of one thread after some changes: the records handed over since its last end, in order, each
-- for the thread that it named at that time.
unfoldable pub log_after :
    {A : Type 0} → (A → String) → String → List (Change A) → (ℕ → A) → List ℕ → List ℕ
log_after thread t [] heap log = log
log_after thread t (adds p ∷ cs) heap log =
    log_after thread t cs heap (if str_eq (thread (heap p)) t then log ++ (p ∷ []) else log)
log_after thread t (ends u ∷ cs) heap log =
    log_after thread t cs heap (if str_eq u t then [] else log)
log_after thread t (writes p x ∷ cs) heap log = log_after thread t cs (written p x heap) log

-- The changes made through the checkpointer, and through the journal.
unfoldable pub checkpointed : List (Change Checkpoint) → Threads Checkpoint → Threads Checkpoint
checkpointed [] s = s
checkpointed (adds cp ∷ cs) s = checkpointed cs (save cp s).0
checkpointed (ends t ∷ cs) s = checkpointed cs (delete t s).0
checkpointed (writes p x ∷ cs) s = checkpointed cs (record s { heap = written p x s.heap })

unfoldable pub journalled : List (Change JournalEntry) → Threads JournalEntry → Threads JournalEntry
journalled [] s = s
journalled (adds e ∷ cs) s = journalled cs (append e s).0
journalled (ends t ∷ cs) s = journalled cs (clear t s).0
journalled (writes p x ∷ cs) s = journalled cs (record s { heap = written p x s.heap })

added :
    (u t : String) (p : ℕ) (held : Map (List ℕ))
    → at_thread t (append_at u p held)
      ≡ (if str_eq u t then at_thread t held ++ (p ∷ []) else at_thread t held)
unfolding at_thread append_at
added u t p held =
    rw (lookup-insert u t (at_thread u held ++ (p ∷ [])) held, at_thread) (go (str_eq u t) refl)
  where
    go :
        (b : Bool)
        → str_eq u t ≡ b
        → at_found (if b then some (at_thread u held ++ (p ∷ [])) else lookup t held)
          ≡ (if b then at_thread t held ++ (p ∷ []) else at_thread t held)
    go true e = ap (λ v. at_thread v held ++ (p ∷ [])) (ground (arith, eq_iff u t))
    go false e = refl

ended :
    (u t : String) (held : Map (List ℕ))
    → at_thread t (remove u held) ≡ (if str_eq u t then [] else at_thread t held)
unfolding at_thread
ended u t held =
    rw (lookup-remove u t held, at_thread)
      (elim (str_eq u t)
        as (λ b.
          at_found (if b then none else lookup t held)
          ≡ (if b then [] else at_found (lookup t held))) [ true ↦ refl | false ↦ refl ])

checkpointed_log :
    (cs : List (Change Checkpoint)) (t : String) (s : Threads Checkpoint)
    → at_thread t (checkpointed cs s).held
      ≡ log_after (λ c. c.thread_id) t cs s.heap (at_thread t s.held)
unfolding checkpointed log_after save delete
checkpointed_log [] t s = refl
checkpointed_log (adds cp ∷ cs) t s =
    checkpointed_log cs t _
    ∙ ap (log_after (λ c. c.thread_id) t cs s.heap) (added (s.heap cp).thread_id t cp s.held)
checkpointed_log (ends u ∷ cs) t s =
    checkpointed_log cs t _ ∙ ap (log_after (λ c. c.thread_id) t cs s.heap) (ended u t s.held)
checkpointed_log (writes p x ∷ cs) t s =
    checkpointed_log cs t (record s { heap = written p x s.heap })

checkpointed_heap :
    (cs : List (Change Checkpoint)) (s : Threads Checkpoint)
    → (checkpointed cs s).heap ≡ heap_after cs s.heap
unfolding checkpointed heap_after save delete
checkpointed_heap [] s = refl
checkpointed_heap (adds cp ∷ cs) s = checkpointed_heap cs _
checkpointed_heap (ends u ∷ cs) s = checkpointed_heap cs _
checkpointed_heap (writes p x ∷ cs) s = checkpointed_heap cs _

journalled_log :
    (cs : List (Change JournalEntry)) (t : String) (s : Threads JournalEntry)
    → at_thread t (journalled cs s).held
      ≡ log_after (λ e. e.thread_id) t cs s.heap (at_thread t s.held)
unfolding journalled log_after append clear
journalled_log [] t s = refl
journalled_log (adds e ∷ cs) t s =
    journalled_log cs t _
    ∙ ap (log_after (λ e. e.thread_id) t cs s.heap) (added (s.heap e).thread_id t e s.held)
journalled_log (ends u ∷ cs) t s =
    journalled_log cs t _ ∙ ap (log_after (λ e. e.thread_id) t cs s.heap) (ended u t s.held)
journalled_log (writes p x ∷ cs) t s = journalled_log cs t (record s { heap = written p x s.heap })

journalled_heap :
    (cs : List (Change JournalEntry)) (s : Threads JournalEntry)
    → (journalled cs s).heap ≡ heap_after cs s.heap
unfolding journalled heap_after append clear
journalled_heap [] s = refl
journalled_heap (adds e ∷ cs) s = journalled_heap cs _
journalled_heap (ends u ∷ cs) s = journalled_heap cs _
journalled_heap (writes p x ∷ cs) s = journalled_heap cs _

-- What `Load` answers from the log of a thread: its last checkpoint, or that there is none.
abbrev pub newest : String → List ℕ → Result ℕ
newest t log = elim (last_of log) [
  | none ↦ err (wrapf "%w: thread=%q" (t ∷ []) err_no_checkpoint)
  | some cp ↦ ok cp
]

-- The stores in memory refine a log for each thread, while the callers write to the records that they
-- share with the stores: after any changes from an empty store, `History` returns the pointers that
-- were saved for the thread since its last `Delete`, in order, whatever the `Version` of the
-- checkpoints, and `Load` the last of them or the error that there is none; `Entries` returns what was
-- appended for the thread since its last `Clear`. A record is in the log of the thread that it named
-- when it was handed over, and what happens to other threads does not show. The pointers lead to what
-- the callers last wrote: no operation changes a record, its `Version` included.
pub stores_refine_logs :
    (cs : List (Change Checkpoint)) (es : List (Change JournalEntry)) (heap : ℕ → Checkpoint)
    (journal : ℕ → JournalEntry) (t : String)
    → (history t (checkpointed cs (new_threads heap))
        ≡ ok (log_after (λ c. c.thread_id) t cs heap []))
      × (load t (checkpointed cs (new_threads heap))
          ≡ newest t (log_after (λ c. c.thread_id) t cs heap []))
      × ((checkpointed cs (new_threads heap)).heap ≡ heap_after cs heap)
      × (entries t (journalled es (new_threads journal))
          ≡ ok (log_after (λ e. e.thread_id) t es journal []))
      × ((journalled es (new_threads journal)).heap ≡ heap_after es journal)
unfolding history load entries at_thread lookup new_threads
stores_refine_logs cs es heap journal t = (
  ap ok (checkpointed_log cs t (new_threads heap)),
  ap (newest t) (checkpointed_log cs t (new_threads heap)),
  checkpointed_heap cs (new_threads heap),
  ap ok (journalled_log es t (new_threads journal)),
  journalled_heap es (new_threads journal),
)
