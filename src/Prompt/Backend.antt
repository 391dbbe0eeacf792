-- ===== src/Prompt/Backend.antt =====
-- pkg/prompt/backends.go: fragments in memory. A `*Fragment` is an address of a heap, so that an
-- update of a fragment shows in each index that holds it.
use bunshin_go.Common.{
  String, ℕ, List, [], ◌∷◌, ◌++◌, Map, Option, none, some, lookup, insert, remove, if◌then◌else◌,
  str_eq, ◌==◌, ltb, length, map, not,
}
use bunshin_go.Core.Errors.{Error, errorf, Result, ok, err}
use bunshin_go.Prompt.Fragments.{Fragment, has_all_tags}

abbrev pub Heap : Type 0
Heap = ℕ → Fragment

abbrev pub write : ℕ → Fragment → Heap → Heap
write a f h b = if a == b then f else h b

-- `MemoryBackend`. A watcher is the buffer of its channel.
pub record MemoryBackend : Type 0 where
  pub heap : Heap
  pub by_slug : Map (Map ℕ)
  pub by_uuid : Map ℕ
  pub by_version : Map (Map (Map ℕ))
  pub watchers : Map (Map (List (List ℕ)))

-- The inner map of a key, empty when it is nil.
abbrev pub bucket {ℓ} : {V : Type ℓ} → String → Map (Map V) → Map V
bucket k m = elim (lookup k m) [ none ↦ [] | some b ↦ b ]

-- `m[k][j] = v`, with the inner map made when it is nil.
abbrev pub insert_in {ℓ} : {V : Type ℓ} → String → String → V → Map (Map V) → Map (Map V)
insert_in k j v m = insert k (insert j v (bucket k m)) m

-- A send that does not block, on a channel of capacity 4.
abbrev pub notify : ℕ → List ℕ → List ℕ
notify a queue = if ltb (length queue) 4 then queue ++ (a ∷ []) else queue

-- The sends to the watchers of a slug.
unfoldable pub notify_all :
    String → String → ℕ → Map (Map (List (List ℕ))) → Map (Map (List (List ℕ)))
notify_all t slug a watchers = elim (lookup t watchers) [
  | none ↦ watchers
  | some tm ↦ elim (lookup slug tm) [
    | none ↦ watchers
    | some queues ↦ insert t (insert slug (map (notify a) queues) tm) watchers
  ]
]

-- The fragment with an identifier.
abbrev pub identified : String → Fragment → Fragment
identified fresh f = if str_eq f.id "" then record f { id = fresh } else f

-- `Put` of the fragment at an address, which it updates; `fresh` is what `uuid.New` gives.
unfoldable pub put : String → String → ℕ → MemoryBackend → MemoryBackend × Option Error
put fresh t a b =
    if str_eq (b.heap a).slug ""
    then (b, some (errorf "memory backend: Put: fragment Slug must not be empty" []))
    else let f = identified fresh (b.heap a) in
      (
        record {
          heap = write a f b.heap;
          by_slug = insert_in t f.slug a b.by_slug;
          by_uuid = insert f.id a b.by_uuid;
          by_version =
              if not (str_eq f.version "")
              then insert t (insert_in f.slug f.version a (bucket t b.by_version)) b.by_version
              else b.by_version;
          watchers = notify_all t f.slug a b.watchers;
        },
        none,
      )

abbrev pub slug_missing : String → String → Error
slug_missing slug t = errorf "fragment slug=%q tenant=%q: not found" (slug ∷ t ∷ [])

abbrev pub id_missing : String → Error
id_missing id = errorf "fragment id=%q: not found" (id ∷ [])

-- `Get`.
unfoldable pub get : String → String → MemoryBackend → Result ℕ
get t slug b = elim (lookup t b.by_slug) [
  | none ↦ err (slug_missing slug t)
  | some tm ↦ elim (lookup slug tm) [ none ↦ err (slug_missing slug t) | some a ↦ ok a ]
]

-- `GetByID`.
unfoldable pub get_by_id : String → MemoryBackend → Result ℕ
get_by_id id b = elim (lookup id b.by_uuid) [ none ↦ err (id_missing id) | some a ↦ ok a ]

-- `GetVersion`.
unfoldable pub get_version : String → String → String → MemoryBackend → Result ℕ
get_version t slug version b = elim (lookup t b.by_version) [
  | none ↦ err (slug_missing slug t)
  | some tm ↦ elim (lookup slug tm) [
    | none ↦ err (slug_missing slug t)
    | some sv ↦ elim (lookup version sv) [
      | none ↦
          err (errorf "fragment slug=%q tenant=%q version=%q: not found" (slug ∷ t ∷ version ∷ []))
      | some a ↦ ok a
    ]
  ]
]

-- The loop of `List`.
unfoldable pub with_tags : Heap → List String → Map ℕ → List ℕ
with_tags heap tags [] = []
with_tags heap tags ((slug, a) ∷ m) =
    let rest = with_tags heap tags m in if has_all_tags (heap a).tags tags then a ∷ rest else rest

-- `List`.
unfoldable pub list : String → List String → MemoryBackend → List ℕ
list t tags b = with_tags b.heap tags (bucket t b.by_slug)

-- `ListVersions`, over `sort.Slice` with the order of the versions.
unfoldable pub list_versions :
    ((ℕ → String) → List ℕ → List ℕ) → String → String → MemoryBackend → Result (List ℕ)
list_versions sort_down t slug b = elim (lookup t b.by_version) [
  | none ↦ err (slug_missing slug t)
  | some tm ↦ elim (lookup slug tm) [
    | none ↦ err (slug_missing slug t)
    | some sv ↦ ok (sort_down (λ a. (b.heap a).version) (map (λ e. e.1) sv))
  ]
]

-- The move of the versions of a slug.
unfoldable pub move_versions : String → String → String → Map (Map (Map ℕ)) → Map (Map (Map ℕ))
move_versions t old new by_version = elim (lookup t by_version) [
  | none ↦ by_version
  | some bv ↦ elim (lookup old bv) [
    | none ↦ by_version
    | some versions ↦ insert t (remove old (insert new versions bv)) by_version
  ]
]

-- `Rename`.
unfoldable pub rename : String → String → String → MemoryBackend → MemoryBackend × Option Error
rename t id new b = elim (lookup id b.by_uuid) [
  | none ↦ (b, some (id_missing id))
  | some a ↦ elim (lookup t b.by_slug) [
    | none ↦ (b, some (errorf "fragment id=%q tenant=%q: not found" (id ∷ t ∷ [])))
    | some tm ↦
        let old = (b.heap a).slug in
        (
          record b {
            heap = write a (record (b.heap a) { slug = new }) b.heap;
            by_slug = insert t (insert new a (remove old tm)) b.by_slug;
            by_version = move_versions t old new b.by_version;
          },
          none,
        )
  ]
]

-- `Delete`.
unfoldable pub delete : String → String → MemoryBackend → MemoryBackend × Option Error
delete t slug b = elim (lookup t b.by_slug) [
  | none ↦ (b, some (slug_missing slug t))
  | some tm ↦ elim (lookup slug tm) [
    | none ↦ (b, some (slug_missing slug t))
    | some a ↦ (
      record b {
        by_slug = insert t (remove slug tm) b.by_slug;
        by_uuid = remove ((b.heap a).id) b.by_uuid;
        by_version = elim (lookup t b.by_version) [
          | none ↦ b.by_version
          | some bv ↦ insert t (remove slug bv) b.by_version
        ];
      },
      none,
    )
  ]
]

abbrev pub channels : Option (List (List ℕ)) → List (List ℕ)
channels none = []
channels (some queues) = queues

-- The part of `Watch` that registers the channel.
unfoldable pub watch : String → String → MemoryBackend → MemoryBackend
watch t slug b = record b {
  watchers =
      insert_in t slug (channels (lookup slug (bucket t b.watchers)) ++ ([] ∷ [])) b.watchers;
}
