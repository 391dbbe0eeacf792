-- ===== src/Vector/Stores.antt =====
-- pkg/vector/types.go, pkg/vector/memory.go and pkg/vector/indexer.go: documents with their vectors.
use Prim.Native.String.{◌++◌ as str_append}
use bunshin_go.Common.{
  String, ℕ, zero, suc, ◌+◌, List, [], ◌∷◌, Map, Option, none, some, lookup, insert, remove, Bool,
  true, false, if◌then◌else◌, ltb, length, ◌==◌, ◌||◌, not,
}
use bunshin_go.Core.Errors.{wrapf, Result, ok, err}
use bunshin_go.Core.Attempt.{Attempt, returns, fails, panics}
use bunshin_go.Core.Value.{ℤ, pos, negsuc, Value, null}

-- `Document`, over the vectors.
pub record Document (V : Type 0) : Type 0 where
  pub id : String
  pub content : String
  pub vector : V
  pub metadata : Map Value

-- `SearchResult`, over the scores.
pub record SearchResult (V S : Type 0) : Type 0 where
  pub document : Document V
  pub score : S

-- `MemoryVectorStore`.
abbrev pub VectorStore : Type 0 → Type 0
VectorStore V = Map (Document V)

-- What Go's arithmetic and packages do, with float32 as `S` and float64 as `G`: the product of two
-- float32 as float64, the sum, product and quotient of float64, `math.Sqrt`, the test for 0, the
-- narrowing, `sort.Slice` by falling scores, `==` of two values, which is `none` where it panics, and
-- the decimal of a number.
pub record Arithmetic (S G : Type 0) : Type 0 where
  pub zero_single : S
  pub zero_double : G
  pub wide_product : S → S → G
  pub plus : G → G → G
  pub times : G → G → G
  pub over : G → G → G
  pub sqrt : G → G
  pub is_zero : G → Bool
  pub narrow : G → S
  pub sort : List (SearchResult (List S) S) → List (SearchResult (List S) S)
  pub equal : Value → Value → Option Bool
  pub decimal : ℕ → String

-- The read of a map of values: nil for a missing key.
abbrev pub value_at : String → Map Value → Value
value_at k m = elim (lookup k m) [ none ↦ null | some v ↦ v ]

module _ {V : Type 0} where
  -- `Upsert`.
  unfoldable pub upsert : List (Document V) → VectorStore V → VectorStore V
  upsert [] s = s
  upsert (d ∷ ds) s = upsert ds (insert d.id d s)

  -- `Delete`.
  unfoldable pub delete : List String → VectorStore V → VectorStore V
  delete [] s = s
  delete (id ∷ ids) s = delete ids (remove id s)

module _ {S G : Type 0} (arithmetic : Arithmetic S G) where
  -- The loop of `cosine`, with the sums `dot`, `magA` and `magB`; the vectors are of one length.
  unfoldable pub sums : List S → List S → G × G × G → G × G × G
  sums [] bs acc = acc
  sums (a ∷ xs) [] acc = acc
  sums (a ∷ xs) (b ∷ bs) (dot, mag_a, mag_b) = sums xs bs (
    arithmetic.plus dot (arithmetic.wide_product a b),
    arithmetic.plus mag_a (arithmetic.wide_product a a),
    arithmetic.plus mag_b (arithmetic.wide_product b b),
  )

  -- `cosine`.
  unfoldable pub cosine : List S → List S → S
  cosine xs bs =
      let (dot, mag_a, mag_b) =
        sums xs bs (arithmetic.zero_double, arithmetic.zero_double, arithmetic.zero_double) in
      if not (length xs == length bs) || (length xs == 0)
      then arithmetic.zero_single
      else if arithmetic.is_zero mag_a || arithmetic.is_zero mag_b
      then arithmetic.zero_single
      else arithmetic.narrow
          (arithmetic.over dot (arithmetic.times (arithmetic.sqrt mag_a) (arithmetic.sqrt mag_b)))

  -- `metadataMatches`; `none` is a panic.
  unfoldable pub metadata_matches : Map Value → Map Value → Option Bool
  metadata_matches meta [] = some true
  metadata_matches meta ((k, v) ∷ filter) = elim (arithmetic.equal (value_at k meta) v) [
    | none ↦ none
    | some false ↦ some false
    | some true ↦ metadata_matches meta filter
  ]

  -- The loop of `Search` over the documents.
  unfoldable pub candidates :
      List S → Map Value → VectorStore (List S) → Option (List (SearchResult (List S) S))
  candidates query filter [] = some []
  candidates query filter ((k, d) ∷ docs) = elim (metadata_matches d.metadata filter) [
    | none ↦ none
    | some false ↦ candidates query filter docs
    | some true ↦ elim (candidates query filter docs) [
      | none ↦ none
      | some rest ↦ some (record { document = d; score = cosine query d.vector } ∷ rest)
    ]
  ]

  unfoldable pub first_results : ℕ → List (SearchResult (List S) S) → List (SearchResult (List S) S)
  first_results n [] = []
  first_results zero (c ∷ cs) = []
  first_results (suc n) (c ∷ cs) = c ∷ first_results n cs

  -- The cut of `Search`; a slice to a negative index panics.
  unfoldable pub cut : ℤ → List (SearchResult (List S) S) → Attempt (List (SearchResult (List S) S))
  cut (negsuc n) cs = panics
  cut (pos n) cs = returns (if ltb n (length cs) then first_results n cs else cs)

  -- `Search`.
  unfoldable pub search :
      List S → ℤ → Map Value → VectorStore (List S) → Attempt (List (SearchResult (List S) S))
  search query top_k filter s = elim (candidates query filter s) [
    | none ↦ panics
    | some found ↦ cut top_k (arithmetic.sort found)
  ]

  -- The identifier of a document by its position.
  abbrev pub doc_id : ℕ → String
  doc_id i = str_append "doc-" (arithmetic.decimal i)

  -- The loop of `Index` from a position; `none` is a text without a vector, an index out of range.
  unfoldable pub docs_from :
      Map Value → ℕ → List String → List (List S) → Option (List (Document (List S)))
  docs_from metadata i [] vectors = some []
  docs_from metadata i (text ∷ texts) [] = none
  docs_from metadata i (text ∷ texts) (v ∷ vectors) =
      elim (docs_from metadata (i + 1) texts vectors) [
        | none ↦ none
        | some ds ↦
            some (record { id = doc_id i; content = text; vector = v; metadata = metadata } ∷ ds)
      ]

  -- `Index`, with the answer of the embedder for the texts.
  unfoldable pub index :
      List String
      → Map Value
      → Result (List (List S))
      → VectorStore (List S)
      → VectorStore (List S) × Attempt (Unit {0})
  index texts metadata (err e) s = (s, fails (wrapf "embed: %w" [] e))
  index texts metadata (ok vectors) s = elim (docs_from metadata 0 texts vectors) [
    | none ↦ (s, panics)
    | some docs ↦ (upsert docs s, returns tt)
  ]
