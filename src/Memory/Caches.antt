-- ===== src/Memory/Caches.antt =====
-- pkg/memory/store.go: what `WindowFor` hands out and what it leaves in the store.
use mathlib.Core.Path.{subst}
use bunshin_go.Common.{
  String, ℕ, zero, suc, ◌-◌, ◌≤◌, length, Map, List, [], ◌∷◌, ◌++◌, Option, none, some, lookup,
  insert, lookup-insert, ◌≡◌, refl, sym, arith, eq_iff, All,
}
use bunshin_go.Core.Errors.{Error, Result, ok, err}
use bunshin_go.Core.Value.{ℤ, pos, negsuc, Value}
use bunshin_go.Llm.Messages.{Message, Request, native_of, cache_native}
use bunshin_go.Memory.Threads.{MemoryStore, window, drop}
use bunshin_go.Memory.Warming.{
  Translator, Warmed, warm, seen_by_store, take_messages, one_more, stopped, request_of, window_for,
}

-- Two messages that differ in their caches at most.
pub record SameMessage (m n : Message) : Type 0 where
  pub role : m.role ≡ n.role
  pub parts : m.parts ≡ n.parts

-- Lists of such messages, one by one.
abbrev pub SameMessages : List Message → List Message → Type 0
SameMessages [] [] = Unit
SameMessages [] (n ∷ ns) = ⊥
SameMessages (m ∷ ms) [] = ⊥
SameMessages (m ∷ ms) (n ∷ ns) = SameMessage m n × SameMessages ms ns

-- A message with a native form for a provider.
abbrev pub IsWarm : String → Message → Type 0
IsWarm id m = (v : Value) × (native_of id m ≡ some v)

same_self : (m : Message) → SameMessage m m
same_self m = record { role = refl; parts = refl }

same_all : (ms : List Message) → SameMessages ms ms
same_all [] = tt
same_all (m ∷ ms) = (same_self m, same_all ms)

cached : (id : String) (v : Value) (m : Message) → SameMessage (cache_native id v m) m
unfolding cache_native
cached id v m = record { role = refl; parts = refl }

insert_found : (k : String) (v : Value) (m : Map Value) → lookup k (insert k v m) ≡ some v
insert_found k v m = ground (arith, lookup-insert k k v m, eq_iff k k)

cached_warm : (id : String) (v : Value) (m : Message) → IsWarm id (cache_native id v m)
unfolding native_of cache_native
cached_warm id v m = (v, insert_found id v _)

seen_same : (id : String) (v : Value) (m : Message) → SameMessage (seen_by_store id v m) m
unfolding cache_native
seen_same id v m =
    elim m.native
      as (λ o.
        SameMessage (elim o as (λ _. Message) [ none ↦ m | some kept ↦ cache_native id v m ]) m) [
          | none ↦ same_self m
          | some kept ↦ cached id v m
        ]

-- What the loop leaves.
pub record WarmedWell (id : String) (ms : List Message) (w : Warmed) : Type 0 where
  pub same_copies : SameMessages w.copies ms
  pub same_seen : SameMessages w.seen ms
  pub all_warm : w.error ≡ none → All (IsWarm id) w.copies

warm-WarmedWell : (p : Translator) (ms : List Message) → WarmedWell p.id ms (warm p ms)
unfolding warm
warm-WarmedWell p [] = record { same_copies = tt; same_seen = tt; all_warm = λ h. tt }
warm-WarmedWell p (m ∷ ms) =
    go (native_of p.id m) refl (p.native_messages (m ∷ [])) (warm-WarmedWell p ms)
  where
    go :
        (o : Option Value)
        → native_of p.id m ≡ o
        → (r : Result Value) → WarmedWell p.id ms (warm p ms)
        → WarmedWell p.id (m ∷ ms) (elim o as (λ _. Warmed) [
          | some v ↦ one_more m m (warm p ms)
          | none ↦ elim r as (λ _. Warmed) [
            | err e ↦ stopped e (m ∷ ms)
            | ok v ↦ one_more (cache_native p.id v m) (seen_by_store p.id v m) (warm p ms)
          ]
        ])
    go (some v) at r w = record {
      same_copies = (same_self m, w.same_copies);
      same_seen = (same_self m, w.same_seen);
      all_warm = λ h. ((v, at), w.all_warm h);
    }
    go none at (err e) w = record {
      same_copies = same_all (m ∷ ms);
      same_seen = same_all (m ∷ ms);
      all_warm = λ h. absurd cc;
    }
    go none at (ok v) w = record {
      same_copies = (cached p.id v m, w.same_copies);
      same_seen = (seen_same p.id v m, w.same_seen);
      all_warm = λ h. (cached_warm p.id v m, w.all_warm h);
    }

drop_at_most : (j : ℕ) (ms : List Message) → length (drop j ms) ≤ length ms
unfolding drop
drop_at_most zero ms = omega arith
drop_at_most (suc j) [] = omega arith
drop_at_most (suc j) (m ∷ ms) = omega (arith, drop_at_most j ms)

-- The messages in front of a suffix, and others like it, are like the whole.
rejoined :
    (j : ℕ) (ms seen : List Message)
    → SameMessages seen (drop j ms)
    → SameMessages (take_messages (length ms - length (drop j ms)) ms ++ seen) ms
unfolding drop take_messages
rejoined zero ms seen h =
    let nothing : length ms - length ms ≡ 0 = omega arith in
    subst (λ k. SameMessages (take_messages k ms ++ seen) ms) (sym nothing) h
rejoined (suc j) [] seen h = h
rejoined (suc j) (m ∷ ms) seen h =
    let more : suc (length ms) - length (drop j ms) ≡ suc (length ms - length (drop j ms)) =
      omega (arith, drop_at_most j ms) in
    subst (λ k. SameMessages (take_messages k (m ∷ ms) ++ seen) (m ∷ ms)) (sym more)
      (same_self m, rejoined j ms seen h)

rejoined_window :
    (limit : ℤ) (s : MemoryStore Message) (seen : List Message)
    → SameMessages seen (window limit s)
    → SameMessages
        (take_messages (length s.messages - length (window limit s)) s.messages ++ seen)
        s.messages
unfolding window drop
rejoined_window (negsuc n) s seen h = rejoined 0 s.messages seen h
rejoined_window (pos zero) s seen h = rejoined 0 s.messages seen h
rejoined_window (pos (suc n)) s seen h = rejoined _ s.messages seen h

ok-inj : {A : Type 0} {a b : A} → ok a ≡ ok b → a ≡ b
ok-inj h = cc

-- The result of `WindowFor` from what the loop leaves.
answered :
    (id : String) (ms : List Message) (w : Warmed) (req : Request) (o : Option Error)
    → WarmedWell id ms w
    → w.error ≡ o
    → (elim o as (λ _. Result Request) [ some e ↦ err e | none ↦ ok (request_of w.copies) ])
      ≡ ok req
    → SameMessages req.messages ms × All (IsWarm id) req.messages
answered id ms w req (some e) well clean h = absurd cc
answered id ms w req none well clean h =
    subst (λ (r : Request). SameMessages r.messages ms × All (IsWarm id) r.messages) (ok-inj h)
      (well.same_copies, well.all_warm clean)

-- `WindowFor` changes no role and no part of a message: the store keeps its messages up to their
-- caches, even when the call fails, and a request that it returns has the messages of `Window` up to
-- their caches, each with a native form for the provider.
pub window_for-WarmedWell :
    (p : Translator) (limit : ℤ) (s : MemoryStore Message)
    → SameMessages (window_for p limit s).0.messages s.messages
      × ((req : Request)
          → (window_for p limit s).1 ≡ ok req
          → SameMessages req.messages (window limit s) × All (IsWarm p.id) req.messages)
unfolding window_for
window_for-WarmedWell p limit s =
    let well = warm-WarmedWell p (window limit s) in
    (
      rejoined_window limit s (warm p (window limit s)).seen well.same_seen,
      λ req h. answered p.id (window limit s) (warm p (window limit s)) req _ well refl h,
    )
