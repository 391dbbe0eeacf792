-- ===== src/Vector/Indexing.antt =====
-- pkg/vector/indexer.go: what a second call of `Index` leaves of the first.
use bunshin_go.Common.{
  String, ℕ, ◌+◌, ◌≤◌, List, [], ◌∷◌, Map, Option, some, lookup, insert, lookup-insert, Bool, true,
  false, if◌then◌else◌, str_eq, length, ◌≡◌, refl, sym, ap, ◌∙◌, arith,
}
use bunshin_go.Core.Errors.{ok}
use bunshin_go.Core.Value.{Value}
use bunshin_go.Vector.Stores.{Document, VectorStore, Arithmetic, upsert, docs_from, doc_id, index}

-- The last document with an identifier.
abbrev latest :
    {V : Type 0} → String → List (Document V) → Option (Document V) → Option (Document V)
latest id [] before = before
latest id (d ∷ ds) before = latest id ds (if str_eq d.id id then some d else before)

lookup-upsert :
    {V : Type 0} (id : String) (ds : List (Document V)) (s : VectorStore V)
    → lookup id (upsert ds s) ≡ latest id ds (lookup id s)
unfolding upsert
lookup-upsert id [] s = refl
lookup-upsert id (d ∷ ds) s =
    lookup-upsert id ds (insert d.id d s) ∙ ap (latest id ds) (lookup-insert d.id id d s)

-- The identifiers of the first documents are those of the others, as far as they go.
abbrev Under : {V : Type 0} → List (Document V) → List (Document V) → Type 0
Under [] bs = Unit
Under (a ∷ xs') [] = ⊥
Under (a ∷ xs') (b ∷ bs) = (a.id ≡ b.id) × Under xs' bs

latest-Under :
    {V : Type 0} (id : String) (xs ys : List (Document V)) (before : Option (Document V))
    → Under xs ys
    → latest id ys (latest id xs before) ≡ latest id ys before
latest-Under id [] ys before h = refl
latest-Under id (x ∷ xs) [] before h = elim h [ ]
latest-Under {V} id (x ∷ xs) (y ∷ ys) before (same, h) =
    ap
      (λ k.
        latest id ys (
          if str_eq y.id id then some y else latest id xs (if str_eq k id then some x else before)))
      same
    ∙ go (str_eq y.id id) (latest-Under id xs ys before h)
  where
    go :
        (b : Bool)
        → latest id ys (latest id xs before) ≡ latest id ys before
        → latest id ys (if b then some y else latest id xs (if b then some x else before))
          ≡ latest id ys (if b then some y else before)
    go true later = refl
    go false later = later

module _ {S G : Type 0} (arithmetic : Arithmetic S G) where
  abbrev document : Map Value → ℕ → String → List S → Document (List S)
  document metadata i text v = record {
    id = doc_id arithmetic i;
    content = text;
    vector = v;
    metadata = metadata;
  }

  docs_step :
      (metadata : Map Value) (i : ℕ) (t : String) (texts : List String) (v : List S)
      (vectors : List (List S)) (ds : List (Document (List S)))
      → docs_from arithmetic metadata (i + 1) texts vectors ≡ some ds
      → docs_from arithmetic metadata i (t ∷ texts) (v ∷ vectors)
        ≡ some (document metadata i t v ∷ ds)
  unfolding docs_from
  docs_step metadata i t texts v vectors ds found = rw (found, docs_from) refl

  -- As many vectors as texts give documents.
  numbered :
      (metadata : Map Value) (i : ℕ) (texts : List String) (vectors : List (List S))
      → length vectors ≡ length texts
      → (ds : List (Document (List S))) × (docs_from arithmetic metadata i texts vectors ≡ some ds)
  unfolding docs_from
  numbered metadata i [] vectors h = ([], refl)
  numbered metadata i (t ∷ texts) [] h = absurd omega (arith, h)
  numbered metadata i (t ∷ texts) (v ∷ vectors) h =
      let (ds, found) = numbered metadata (i + 1) texts vectors (omega (arith, h)) in
      (document metadata i t v ∷ ds, docs_step metadata i t texts v vectors ds found)

  -- Texts that are at least as many are numbered over the first ones.
  numbered-Under :
      (metadata other : Map Value) (i : ℕ) (texts more : List String)
      (vectors others : List (List S))
      → length vectors ≡ length texts
      → length others ≡ length more
      → length texts ≤ length more
      → (ds es : List (Document (List S))) × (docs_from arithmetic metadata i texts vectors
          ≡ some ds)
        × (docs_from arithmetic other i more others ≡ some es)
        × Under ds es
  unfolding docs_from
  numbered-Under metadata other i [] more vectors others h k le =
      let (es, found) = numbered other i more others k in ([], es, refl, found, tt)
  numbered-Under metadata other i (t ∷ texts) [] vectors others h k le = absurd omega (arith, le)
  numbered-Under metadata other i (t ∷ texts) (u ∷ more) [] others h k le = absurd omega (arith, h)
  numbered-Under metadata other i (t ∷ texts) (u ∷ more) (v ∷ vectors) [] h k le =
      absurd omega (arith, k)
  numbered-Under metadata other i (t ∷ texts) (u ∷ more) (v ∷ vectors) (x ∷ others) h k le =
      let (ds, es, found, later, under) =
        numbered-Under metadata other (i + 1) texts more vectors others (omega (arith, h))
          (omega (arith, k)) (omega (arith, le)) in
      (
        document metadata i t v ∷ ds,
        document other i u x ∷ es,
        docs_step metadata i t texts v vectors ds found,
        docs_step other i u more x others es later,
        (refl, under),
      )

  index_eq :
      (texts : List String) (metadata : Map Value) (vectors : List (List S))
      (ds : List (Document (List S))) (s : VectorStore (List S))
      → docs_from arithmetic metadata 0 texts vectors ≡ some ds
      → (index arithmetic texts metadata (ok vectors) s).0 ≡ upsert ds s
  unfolding index
  index_eq texts metadata vectors ds s found = rw (found, index) refl

  -- `Index` numbers its documents from 0 in every call: after a second call with at least as many
  -- texts, each with its vector, every identifier is read as if the first call had not been made, so
  -- that none of its documents is left.
  pub index_overwrites :
      (texts more : List String) (metadata other : Map Value) (vectors others : List (List S))
      (s : VectorStore (List S)) (id : String)
      → length vectors ≡ length texts
      → length others ≡ length more
      → length texts ≤ length more
      → lookup id
          (index arithmetic more other
            (ok others)
            (index arithmetic texts metadata (ok vectors) s).0).0
        ≡ lookup id (index arithmetic more other (ok others) s).0
  index_overwrites texts more metadata other vectors others s id h k le =
      let (ds, es, found, later, under) =
        numbered-Under metadata other 0 texts more vectors others h k le in
      ap (λ st. lookup id (index arithmetic more other (ok others) st).0)
        (index_eq texts metadata vectors ds s found)
      ∙ ap (lookup id) (index_eq more other others es (upsert ds s) later)
      ∙ lookup-upsert id es (upsert ds s)
      ∙ ap (latest id es) (lookup-upsert id ds s)
      ∙ latest-Under id ds es (lookup id s) under
      ∙ sym (lookup-upsert id es s)
      ∙ sym (ap (lookup id) (index_eq more other others es s later))
