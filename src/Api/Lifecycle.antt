-- ===== src/Api/Lifecycle.antt =====
-- pkg/api/handlers.go over pkg/workflow/store/memory/memory.go: a workflow that is created, activated
-- and deleted through the interface.
use bunshin_go.Common.{Option, none, some}
use bunshin_go.Core.Errors.{Result, ok}
use bunshin_go.Core.Attempt.{Attempt, panics, calls}
use bunshin_go.Workflow.Spec.{Spec}
use bunshin_go.Store.Workflows.{workflows}
use bunshin_go.Store.Versioned.{
  Store, create, get, get_version, list, list_versions, activate, delete,
}
use bunshin_go.Api.Workflows.{WorkflowStore}

-- What `Get` of the model of the store stands for; a nil pointer panics.
abbrev pub read : {A : Type 0} → Option (Result A) → Attempt A
read none = panics
read (some r) = calls r

-- The in-memory store behind `workflow.Store`.
abbrev pub memory_store : WorkflowStore (Store Spec)
memory_store = record {
  create = λ t spec s. create workflows t (some spec) s;
  get = λ t name s. read (get workflows t name s);
  get_version = λ t name version s. get_version workflows t name version s;
  list = λ t s. ok (list workflows t s);
  list_versions = λ t name s. list_versions workflows t name s;
  activate = λ t name version s. activate workflows t name version s;
  delete = λ t name s. delete workflows t name s;
}
