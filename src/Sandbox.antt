-- ===== src/Sandbox.antt =====
-- pkg/sandbox/types.go: the registry of sandboxes, and pkg/tools/code_exec.go: the tool that runs code
-- in one of them.
use Prim.Native.Nat.{◌%◌}
use bunshin_go.Common.{
  String, zero, suc, ◌-◌, ◌*◌, List, [], ◌∷◌, Map, Option, none, some, lookup, insert, Bool, true,
  false, if◌then◌else◌, str_eq,
}
use bunshin_go.Core.Errors.{errorf, wrapf, Result, ok, err}
use bunshin_go.Core.Value.{ℤ, pos, negsuc, Value, string}
use bunshin_go.Middleware.Retry.{wrap_int}

-- `RunRequest`, with the fields that are set here; a timeout is in nanoseconds.
pub record RunRequest : Type 0 where
  pub language : String
  pub code : String
  pub timeout : ℤ

-- `RunResult`, with the fields that are read here.
pub record RunResult : Type 0 where
  pub stdout : String
  pub stderr : String
  pub exit_code : ℤ

-- `Sandbox`, with the call that is made here.
abbrev pub Sandbox : Type 0 → Type 0
Sandbox W = RunRequest → W → W × Result RunResult

-- `sandboxEntry`.
pub record SandboxEntry (W : Type 0) : Type 0 where
  pub sandbox : Sandbox W
  pub tags : Map String

-- The value of a tag, "" for a missing one.
abbrev pub tag_value : String → Map String → String
tag_value k tags = elim (lookup k tags) [ none ↦ "" | some v ↦ v ]

-- The inner loop of `sandboxTagsMatch`.
unfoldable pub filter_holds : Map String → Map String → Bool
filter_holds tags [] = true
filter_holds tags ((k, v) ∷ filter) =
    let rest = filter_holds tags filter in if str_eq (tag_value k tags) v then rest else false

-- `sandboxTagsMatch`.
unfoldable pub sandbox_tags_match : Map String → List (Map String) → Bool
sandbox_tags_match tags [] = true
sandbox_tags_match tags (filter ∷ filters) =
    let rest = sandbox_tags_match tags filters in if filter_holds tags filter then rest else false

module _ {W : Type 0} where
  -- `Register` of the registry of sandboxes.
  unfoldable pub register :
      String → Sandbox W → Map String → Map (SandboxEntry W) → Map (SandboxEntry W)
  register name s tags r = insert name (record { sandbox = s; tags = tags }) r

  -- `Select` of the registry.
  unfoldable pub select_sandboxes : List (Map String) → Map (SandboxEntry W) → List (Sandbox W)
  select_sandboxes filters [] = []
  select_sandboxes filters ((name, e) ∷ r) =
      let rest = select_sandboxes filters r in
      if sandbox_tags_match e.tags filters then e.sandbox ∷ rest else rest

  -- `Get` of the registry.
  unfoldable pub get_sandbox : String → Map (SandboxEntry W) → Option (Sandbox W)
  get_sandbox name r = elim (lookup name r) [ none ↦ none | some e ↦ some e.sandbox ]

-- `CodeExecInput`.
pub record CodeExecInput : Type 0 where
  pub language : String
  pub code : String
  pub timeout : ℤ

-- `CodeExecOutput`.
pub record CodeExecOutput : Type 0 where
  pub stdout : String
  pub stderr : String
  pub exit_code : ℤ

-- A number of seconds as a duration, an int64 that wraps.
unfoldable pub seconds : ℤ → ℤ
seconds (pos n) = wrap_int ((n * 1000000000) % 18446744073709551616)
seconds (negsuc n) =
    wrap_int
      ((18446744073709551616 - (suc n * 1000000000) % 18446744073709551616) % 18446744073709551616)

-- The default of the timeout, 30 seconds.
unfoldable pub or_default : ℤ → ℤ
or_default (pos zero) = pos 30000000000
or_default (pos (suc n)) = pos (suc n)
or_default (negsuc n) = pos 30000000000

-- The input of a tool: bytes, or a value.
pub data ToolInput (Bytes : Type 0) : Type 0 where
  bytes : Bytes → ToolInput Bytes
  any_value : Value → ToolInput Bytes

-- `jsonBytes`, with the bytes of a text and the JSON encoder.
unfoldable pub json_bytes :
    {Bytes : Type 0} → (String → Bytes) → (Value → Result Bytes) → ToolInput Bytes → Result Bytes
json_bytes text_bytes marshal (bytes b) = ok b
json_bytes text_bytes marshal (any_value (string s)) = ok (text_bytes s)
json_bytes text_bytes marshal (any_value v) = marshal v

-- The part of `Invoke` from the choice of a sandbox on; the first one matching is taken.
unfoldable pub run_code :
    {W : Type 0} → List (Sandbox W) → CodeExecInput → W → W × Result CodeExecOutput
run_code [] req w = (w, err (errorf "code_exec: no sandbox registered matching filters" []))
run_code (sandbox ∷ rest) req w =
    let (w', out) =
      sandbox
        (record {
          language = req.language;
          code = req.code;
          timeout = or_default (seconds req.timeout);
        })
        w in
    (
      w',
      elim out [
        | err e ↦ err (wrapf "code_exec: run: %w" [] e)
        | ok r ↦ ok (record { stdout = r.stdout; stderr = r.stderr; exit_code = r.exit_code })
      ],
    )

module _ {Bytes W : Type 0} (text_bytes : String → Bytes) (marshal : Value → Result Bytes)
    (unmarshal : Bytes → Result CodeExecInput) where
  -- `Invoke` of `CodeExecTool`.
  unfoldable pub exec_code :
      Map (SandboxEntry W) → List (Map String) → ToolInput Bytes → W → W × Result CodeExecOutput
  exec_code registry filters input w = elim (json_bytes text_bytes marshal input) [
    | err e ↦ (w, err (wrapf "code_exec: marshal input: %w" [] e))
    | ok raw ↦ elim (unmarshal raw) [
      | err e ↦ (w, err (wrapf "code_exec: decode input: %w" [] e))
      | ok req ↦ run_code (select_sandboxes filters registry) req w
    ]
  ]
