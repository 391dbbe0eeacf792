-- ===== src/Store/Workflows.antt =====
-- pkg/workflow/store/memory/memory.go: the in-memory store at workflow definitions.
use bunshin_go.Common.{[], refl}
use bunshin_go.Core.Errors.{Error, errorf}
use bunshin_go.Store.Versioned.{Versioned}
use bunshin_go.Workflow.Spec.{Spec}

-- `ErrNotFound` and `ErrVersionConflict` of pkg/workflow/spec.go.
abbrev pub err_not_found : Error
err_not_found = errorf "workflow: not found" []

abbrev pub err_version_conflict : Error
err_version_conflict = errorf "workflow: version not found" []

abbrev pub workflows : Versioned Spec
workflows = record {
  name = λ s. s.name;
  version = λ s. s.version;
  status = λ s. s.status;
  set_status = λ status s. record s { status = status };
  status-set_status = λ status s. refl;
  version-set_status = λ status s. refl;
  name-set_status = λ status s. refl;
  not_found = err_not_found;
  version_conflict = err_version_conflict;
  about_name = "workflow %q: %w";
  about_version = "workflow %q version %q: %w";
  about_active = "workflow %q: no active version: %w";
}
