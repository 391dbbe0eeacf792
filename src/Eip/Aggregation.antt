-- ===== src/Eip/Aggregation.antt =====
-- The aggregator over a sequence of items, and the operators of the filter.
use bunshin_go.Common.{
  String, ℕ, zero, suc, ◌+◌, List, [], ◌∷◌, ◌++◌, Map, some, ◌≡◌, refl, ◌≢◌, ◌∙◌, false,
  if◌then◌else◌, lookup, insert, lookup-insert, eq_iff, arith, length, length-append, ap, sym,
}
use mathlib.Core.Path.{subst, ap₂}
use native.Mathlib.Nat.{zero-add}
use mathlib.Core.List.{append-nil, append_assoc}
use bunshin_go.Core.Errors.{Result, ok}
use bunshin_go.Core.Value.{pos, Value, slice, to_list, of_list, Runtime}
use bunshin_go.Core.State.{State, get_key, get_meta}
use bunshin_go.Graph.{Routed, end_node}
use bunshin_go.Eip.Values.{Data, to_int, write_data}
use bunshin_go.Eip.Routers.{answer, collected, is_complete, aggregator}

to_list-of_list : (xs : List Value) → to_list (of_list xs) ≡ xs
to_list-of_list [] = refl
to_list-of_list (x ∷ xs) = ap (◌∷◌ x) (to_list-of_list xs)

abbrev pub replicate {ℓ} : {A : Type ℓ} → ℕ → A → List A
replicate zero a = []
replicate (suc n) a = a ∷ replicate n a

module _ (rt : Runtime) (item_key output_key count_key next : String) where
  -- One item: it is put under the item key, and the aggregator is called.
  abbrev collect : Value → State Data → Routed Data
  collect x s =
      (aggregator {W = Unit {0}} rt item_key output_key count_key next (write_data item_key x s)
        tt).1

  -- The state after a sequence of items, with the aggregator's answers.
  unfoldable pub feed : List Value → State Data → State Data × List (Result String)
  feed [] s = (s, [])
  feed (x ∷ xs) s = let r = collect x s in let rest = feed xs r.seen in (rest.0, r.next ∷ rest.1)

  -- The state can take items: `Data` is there, the output holds `acc`, and `n` are expected.
  pub record Holds (acc : List Value) (n : ℕ) (s : State Data) : Type 0 where
    pub fields : Map Value
    pub present : s.payload ≡ some fields
    pub output : collected output_key (lookup output_key fields) ≡ ok acc
    pub expected : to_int rt (get_meta s count_key) ≡ pos n

  -- A call on a state that holds an item.
  aggregator_item :
      (x : Value) (acc : List Value) (n : ℕ) (s : State Data)
      → get_key s.payload item_key ≡ some x
      → collected output_key (get_key s.payload output_key) ≡ ok acc
      → to_int rt (get_meta s count_key) ≡ pos n
      → aggregator {W = Unit {0}} rt item_key output_key count_key next s tt
        ≡ answer
            (write_data output_key (slice (of_list (acc ++ (x ∷ [])))) s)
            tt
            (ok (if is_complete (pos n) (acc ++ (x ∷ [])) then next else end_node))
  unfolding aggregator
  aggregator_item x acc n s found old count =
      rw (found, aggregator) (rw (old, aggregator) (rw count))

  write_data_present :
      (k : String) (v : Value) (s : State Data) (m : Map Value)
      → s.payload ≡ some m
      → write_data k v s ≡ record s { payload = some (insert k v m) }
  unfolding write_data
  write_data_present k v s m present = rw (present, write_data)

  module _ (apart : item_key ≢ output_key) where
    collect-Holds :
        (x : Value) (acc : List Value) (n : ℕ) (s : State Data)
        → Holds acc n s
        → Holds (acc ++ (x ∷ [])) n (collect x s).seen
          × ((collect x s).next
              ≡ ok (if is_complete (pos n) (acc ++ (x ∷ [])) then next else end_node))
    unfolding collected get_meta
    collect-Holds x acc n s h =
        let m = insert item_key x h.fields in
        let s' : State Data = record s { payload = some m } in
        let sent = write_data_present item_key x s h.fields h.present in
        let acc' = slice (of_list (acc ++ (x ∷ []))) in
        let out =
          aggregator_item x acc n s'
            (ground (arith, lookup-insert item_key item_key x h.fields, eq_iff item_key item_key))
            (ground (
              arith,
              h.output,
              lookup-insert item_key output_key x h.fields,
              eq_iff item_key output_key,
            ))
            h.expected in
        let stored = write_data_present output_key acc' s' m refl in
        let answered : Result String =
          ok (if is_complete (pos n) (acc ++ (x ∷ [])) then next else end_node) in
        let after : State Data = record s { payload = some (insert output_key acc' m) } in
        let all : collect x s ≡ record { seen = after; next = answered } =
          ap (λ y. (aggregator rt item_key output_key count_key next y tt).1) sent
          ∙ ap (λ z. z.1) out
          ∙ ap (λ (q : State Data). record { seen = q; next = answered }) stored in
        let found : collected output_key (lookup output_key (insert output_key acc' m))
            ≡ ok (acc ++ (x ∷ [])) =
          rw lookup-insert (
            rw ((eq_iff output_key output_key).1 refl)
              (ap ok (to_list-of_list (acc ++ (x ∷ []))))) in
        subst (λ (r : Routed Data). Holds (acc ++ (x ∷ [])) n r.seen × (r.next ≡ answered))
          (sym all)
          (
            record {
              fields = insert output_key acc' m;
              present = refl;
              output = found;
              expected = h.expected;
            },
            refl,
          )

    -- Items fed one after another are collected in order behind what was there.
    feed-Holds :
        (xs acc : List Value) (n : ℕ) (s : State Data)
        → Holds acc n s
        → Holds (acc ++ xs) n (feed xs s).0
    unfolding feed
    feed-Holds [] acc n s h = rw append-nil h
    feed-Holds (x ∷ xs) acc n s h =
        let ih =
          feed-Holds xs (acc ++ (x ∷ [])) n (collect x s).seen (collect-Holds x acc n s h).0 in
        rw append_assoc at ih

    feed_answers :
        (xs acc : List Value) (k : ℕ) (s : State Data)
        → Holds acc (suc (length acc + k)) s
        → length xs ≡ suc k
        → (feed xs s).1 ≡ replicate k (ok end_node) ++ (ok next ∷ [])
    unfolding feed is_complete
    feed_answers [] acc k s h count = absurd (omega arith)
    feed_answers (x ∷ []) acc zero s h count =
        let (_, answered) = collect-Holds x acc _ s h in
        rw answered (ground (arith, length-append acc (x ∷ [])))
    feed_answers (x ∷ y ∷ xs) acc zero s h count = absurd (omega arith)
    feed_answers (x ∷ xs) acc (suc k) s h count =
        let (held, answered) = collect-Holds x acc _ s h in
        let grown : suc (length acc + suc k) ≡ suc (length (acc ++ (x ∷ [])) + k) =
          omega (arith, length-append acc (x ∷ [])) in
        let ih =
          feed_answers xs (acc ++ (x ∷ [])) k (collect x s).seen
            (subst (λ n. Holds (acc ++ (x ∷ [])) n (collect x s).seen) grown held) (omega arith) in
        let early : is_complete (pos (suc (length acc + suc k))) (acc ++ (x ∷ [])) ≡ false =
          ground (arith, length-append acc (x ∷ [])) in
        ap₂ ◌∷◌ (answered ∙ ap (λ b. ok (if b then next else end_node)) early) ih

-- With `n + 1` items expected and an output that holds none, feeding `n + 1` items collects them in
-- order, and the aggregator answers `END` to each but the last, and the next node to the last.
pub aggregator_collects :
    (rt : Runtime) (item_key output_key count_key next : String) (xs : List Value) (n : ℕ)
    (s : State Data)
    → item_key ≢ output_key
    → Holds rt item_key output_key count_key next [] (suc n) s
    → length xs ≡ suc n
    → (collected output_key
          (get_key (feed rt item_key output_key count_key next xs s).0.payload output_key)
        ≡ ok xs)
      × ((feed rt item_key output_key count_key next xs s).1
          ≡ replicate n (ok end_node) ++ (ok next ∷ []))
aggregator_collects rt item_key output_key count_key next xs n s apart h count =
    let held = feed-Holds rt item_key output_key count_key next apart xs [] (suc n) s h in
    (
      rw held.present held.output,
      feed_answers rt item_key output_key count_key next apart xs [] n s
          (subst (λ k. Holds rt item_key output_key count_key next [] (suc k) s) (sym (zero-add n))
            h)
          count,
    )
