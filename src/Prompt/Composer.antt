-- ===== src/Prompt/Composer.antt =====
-- pkg/prompt/composer.go: a template assembled from the fragments of a backend.
use Prim.Native.String.{◌++◌ as str_append}
use bunshin_go.Common.{
  String, ℕ, ◌+◌, ◌==◌, get_elem?, List, [], ◌∷◌, Map, Option, none, some, insert, Bool, true,
  false, ◌||◌, if◌then◌else◌, str_eq,
}
use bunshin_go.Core.Errors.{Error, wrapf, Result, ok, err}
use bunshin_go.Core.Attempt.{Attempt, returns, fails, panics}
use bunshin_go.Core.Value.{Value}
use bunshin_go.Prompt.Fragments.{Fragment, FragmentRef, PromptTemplate, validate}

-- `TemplateEngine`, with the calls of the composer, and `strings.TrimSpace`.
pub record TemplateEngine : Type 0 where
  pub render : String → Map Value → Result String
  pub render_lenient : String → Map Value → Result String
  pub trim_space : String → String

-- `pendingFetch`, without the index.
pub record PendingFetch : Type 0 where
  pub ref : FragmentRef
  pub merged : Map Value

-- `fragWork`.
pub record FragWork : Type 0 where
  pub frag : Fragment
  pub merged : Map Value
  pub ref_slug : String

-- The loop that copies a map into another.
unfoldable pub overlaid : Map Value → Map Value → Map Value
overlaid base [] = base
overlaid base ((k, v) ∷ m) = overlaid (insert k v base) m

abbrev pub separator_of : PromptTemplate → String
separator_of t = if str_eq t.separator "" then "\n\n" else t.separator

-- `strings.Join`.
unfoldable pub join : String → List String → String
join sep [] = ""
join sep (part ∷ []) = part
join sep (part ∷ next ∷ parts) = str_append part (str_append sep (join sep (next ∷ parts)))

module _ (engine : TemplateEngine) where
  -- Whether the result of a condition lets the fragment pass.
  abbrev pub holds : String → Bool
  holds result =
      if str_eq (engine.trim_space result) "" || str_eq (engine.trim_space result) "false"
      then false
      else true

  -- The test of phase 1 for one reference.
  unfoldable pub qualifies : FragmentRef → Map Value → Result Bool
  qualifies ref vars =
      if str_eq ref.condition "" then ok true else elim (engine.render_lenient ref.condition vars) [
        | err e ↦ err (wrapf "fragment %q condition: %w" (ref.slug ∷ []) e)
        | ok result ↦ ok (holds result)
      ]

  abbrev pub pending_of : FragmentRef → Map Value → PendingFetch
  pending_of ref vars = record { ref = ref; merged = overlaid (overlaid [] vars) ref.overrides }

  -- Phase 1: the loop over the references.
  unfoldable pub select : List FragmentRef → Map Value → Result (List PendingFetch)
  select [] vars = ok []
  select (ref ∷ refs) vars = elim (qualifies ref vars) [
    | err e ↦ err e
    | ok false ↦ select refs vars
    | ok true ↦ elim (select refs vars) [
      | err e ↦ err e
      | ok pending ↦ ok (pending_of ref vars ∷ pending)
    ]
  ]

  -- Phase 3: the loop over the fragments.
  unfoldable pub render_all : List FragWork → Result (List String)
  render_all [] = ok []
  render_all (w ∷ ws) = elim (engine.render w.frag.content w.merged) [
    | err e ↦ err (wrapf "fragment %q render: %w" (w.ref_slug ∷ []) e)
    | ok text ↦ elim (render_all ws) [ err e ↦ err e | ok texts ↦ ok (text ∷ texts) ]
  ]

-- One goroutine of phase 2; the backend answers from its state at the time.
unfoldable pub fetch : (String → Result Fragment) → PendingFetch → Result FragWork
fetch get p = elim (get p.ref.slug) [
  | err e ↦ err (wrapf "fragment %q: %w" (p.ref.slug ∷ []) e)
  | ok frag ↦ elim (validate frag p.merged) [
    | some e ↦ err e
    | none ↦ ok (record { frag = frag; merged = p.merged; ref_slug = p.ref.slug })
  ]
]

-- What phase 2 leaves: the slots of `work`, and the first error that the group has recorded.
pub record Fetched : Type 0 where
  pub work : ℕ → Option FragWork
  pub error : Option Error

abbrev pub nothing_fetched : Fetched
nothing_fetched = record { work = λ i. none; error = none }

-- The group keeps the error that came first.
abbrev pub first_error : Option Error → Error → Option Error
first_error none e = some e
first_error (some f) e = some f

-- What the end of a goroutine does.
unfoldable pub ended : ℕ → Result FragWork → Fetched → Fetched
ended i (err e) s = record s { error = first_error s.error e }
ended i (ok w) s = record s { work = λ j. if i == j then some w else s.work j }

-- The goroutine with an index, of as many as there are pending fetches.
unfoldable pub finish_one : (String → Result Fragment) → List PendingFetch → ℕ → Fetched → Fetched
finish_one get ps i s = elim (get_elem? ps i) [ none ↦ s | some p ↦ ended i (fetch get p) s ]

-- Phase 2, for the order in which the goroutines end.
unfoldable pub finish_all :
    (String → Result Fragment) → List PendingFetch → List ℕ → Fetched → Fetched
finish_all get ps [] s = s
finish_all get ps (i ∷ order) s = finish_all get ps order (finish_one get ps i s)

-- The slots in order; `none` is a slot that was never written, whose fragment is a nil pointer.
unfoldable pub collect : List PendingFetch → ℕ → (ℕ → Option FragWork) → Option (List FragWork)
collect [] i work = some []
collect (p ∷ ps) i work = elim (work i) [
  | none ↦ none
  | some w ↦ elim (collect ps (i + 1) work) [ none ↦ none | some ws ↦ some (w ∷ ws) ]
]

-- Phase 3 and the end of `Render`.
unfoldable pub joined : TemplateEngine → String → Option (List FragWork) → Attempt String
joined engine sep none = panics
joined engine sep (some ws) = elim (render_all engine ws) [
  | err e ↦ fails e
  | ok texts ↦ returns (join sep texts)
]

-- `Render` from the end of phase 1 on, for the order in which the goroutines of phase 2 end.
unfoldable pub render_pending :
    TemplateEngine
    → (String → Result Fragment)
    → List ℕ
    → String
    → List PendingFetch
    → Attempt String
render_pending engine get order sep [] = returns ""
render_pending engine get order sep (p ∷ ps) =
    let fetched = finish_all get (p ∷ ps) order nothing_fetched in
    elim fetched.error [
      | some e ↦ fails e
      | none ↦ joined engine sep (collect (p ∷ ps) 0 fetched.work)
    ]

-- `Render`.
unfoldable pub render :
    TemplateEngine
    → (String → Result Fragment)
    → List ℕ
    → PromptTemplate
    → Map Value
    → Attempt String
render engine get order t vars = elim (select engine t.fragments vars) [
  | err e ↦ fails e
  | ok pending ↦ render_pending engine get order (separator_of t) pending
]
