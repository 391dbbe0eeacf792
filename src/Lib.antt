-- ===== src/Lib.antt =====
-- Bunshin: a Go library that composes language-model calls, tools and custom code into graphs, and
-- keeps the definitions of workflows, skills and agents in versioned stores. A YAML workflow
-- definition is parsed (pkg/workflow/spec.go), stored and activated (pkg/workflow/store/memory),
-- compiled (pkg/workflow/compiler.go) with routers from the registry of pkg/workflow/registry.go and
-- pkg/graph/router/eip/eip.go into a graph (pkg/graph), and run by `Graph.Invoke`. An agent definition
-- is compiled (pkg/agent/compiler.go) with prompts, tools, skills, other agents and a model provider
-- from their registries into a graph of two nodes, a call of the model and the execution of its tools.
--
-- Common and its children hold the shared helpers: tests, lists over the native numbers, and Go maps
-- with string keys as association lists.
-- Core: pkg/core/errors.go (Core/Errors), code that may panic (Core/Attempt), the dynamic values that
--   `State.Data` and `State.Meta` hold (Core/Value), and pkg/core/state.go (Core/State). A Go map that
--   may be nil is an `Option` of a map.
-- Graph: `Graph.New`, `AddNode`, `SetEntry`, `Invoke` and the routers of pkg/graph/routers.go
--   (Graph/Defs); executions as derivations (Graph/Runs), which the loop is compared with
--   (Graph/Refinement). A runnable or router is a function of the state and of a world `W`, which
--   stands for the context, closures and services; it returns the world it leaves. Maps are shared in
--   Go, so a router and a failed runnable also say how the caller sees the state afterwards.
-- Chain: `New` and `Invoke` of pkg/chain/chain.go, over the runnables of a graph.
-- Eip: the helpers (Eip/Values) and the six factories with their closures (Eip/Routers) of
--   pkg/graph/router/eip/eip.go; whole runs of the list routers (Eip/Walks) and of the aggregator
--   (Eip/Aggregation).
-- Workflow: pkg/workflow/spec.go (Workflow/Spec, Workflow/Parsing), pkg/workflow/registry.go
--   (Workflow/Registry), pkg/workflow/compiler.go (Workflow/Compiler), and the graph that it makes
--   (Workflow/Assembly, Workflow/Compiled).
-- Store: the in-memory store of pkg/workflow/store/memory/memory.go over the kind of spec it keeps, an
--   interface that a kind fills (Store/Entries, Store/Versioned); its invariant (Store/Invariant,
--   Store/Preservation) and what its calls return after one another (Store/Reaches,
--   Store/Activation, Store/Creation); the kinds of pkg/workflow (Store/Workflows) and pkg/skill
--   (Store/Skills, with pkg/skill/spec.go); pkg/agent/spec.go and pkg/agent/store/memory.go
--   (Store/Agents, Store/Listing), a store of its own.
-- Middleware: pkg/middleware/types.go and `Chain` of pkg/middleware/middleware.go
--   (Middleware/Runnables), pkg/middleware/budget.go (Middleware/Budget, Middleware/Limits, and its
--   atomic operations in Middleware/Consuming), the middlewares of pkg/middleware/auth.go
--   with the principal of pkg/auth/types.go (Middleware/Auth), and `WithRetry`, `WithLogging` and `WithMetadata` of middleware.go
--   (Middleware/Retry) with the attempts that a retry makes (Middleware/Retrying). A runnable has an
--   `Invoke` and a `Stream`; channels are opaque.
-- Llm: `FallbackProvider` of pkg/llm/fallback.go with `IsAvailable` of pkg/llm/registry.go
--   (Llm/Fallback), and which provider answers (Llm/Trying); pkg/llm/message.go and
--   pkg/llm/request.go (Llm/Messages); the registry of pkg/llm/registry.go (Llm/Registry), its
--   selection by tags (Llm/Selection) and its pings (Llm/Health). The exchange over HTTP that the
--   vendors share in form (Llm/Http), pkg/llm/openai.go (Llm/Openai), anthropic.go (Llm/Anthropic),
--   google.go (Llm/Google) and azure_openai.go (Llm/Azure), each with its file of types; when they
--   return a response (Llm/Exchange), what they send (Llm/Wires), what they stream (Llm/Streams) and
--   what they make of tools (Llm/Vendors). A stream is the list of the chunks that its goroutine
--   sends when it is read to the end.
-- Agent: pkg/agent/types.go and interfaces.go (Agent/State, Agent/Compile), and pkg/agent/compiler.go:
--   tool calls and nested agents (Agent/Calls, Agent/Delegation), the two nodes and the router
--   (Agent/Nodes, Agent/Responses), the graph and its runs (Agent/Loop, Agent/Turns, Agent/Limit), the
--   search for a cycle (Agent/Cycles, Agent/Paths, Agent/Depth, Agent/Acyclic, Agent/Complete,
--   Agent/Exact), the topological sort (Agent/Kahn, Agent/Sorting, Agent/Counting, Agent/Draining,
--   Agent/Acceptance, Agent/Verdict), the reachable agents (Agent/Resolve, Agent/Reached, Agent/Deps,
--   Agent/Invariant, Agent/Resolved), the tools, skills and provider of a definition (Agent/Linking),
--   `Compile` (Agent/Compile, Agent/Compiled), and agents over the vendors (Agent/Vendors). The
--   variable `step` of the router stands in front of the world. The registries are those of one
--   tenant.
-- Tools: the registry of pkg/tools/registry.go.
-- Prompt: pkg/prompt/types.go (Prompt/Fragments), the in-memory backend of pkg/prompt/backends.go on a
--   heap of fragments (Prompt/Backend, Prompt/Reading), and pkg/prompt/cache.go over a backend and a
--   client of Redis (Prompt/Cache, Prompt/Stale). `Render` of pkg/prompt/composer.go, for the order in
--   which its goroutines end (Prompt/Composer), what they leave (Prompt/Slots), and what the
--   order decides (Prompt/Orders).
-- Memory: the in-process message store of pkg/memory/store.go (Memory/Threads, Memory/Windows), its
--   `WindowFor`, count of tokens and registry of threads (Memory/Warming, Memory/Caches).
-- Checkpoint: pkg/checkpoint/types.go and pkg/checkpoint/backends.go on a heap of the records that
--   callers share with the stores (Checkpoint/Stores), while they write to them (Checkpoint/Threads).
--   A pointer is not nil.
-- Api: the handlers of pkg/api/handlers.go over the interfaces of the stores: their answers
--   (Api/Replies), workflows (Api/Workflows), prompts (Api/Prompts), runs and threads (Api/Runs), and
--   the handlers of workflows over the in-memory store (Api/Lifecycle).
-- Vector: pkg/vector/types.go, memory.go and indexer.go (Vector/Stores), and calls of `Index` after one
--   another (Vector/Indexing).
-- Sandbox: the registry of pkg/sandbox/types.go and the tool of pkg/tools/code_exec.go.
-- Eval: pkg/eval/types.go, evaluators.go, runner.go and backends.go (Eval/Runner), and reports in the
--   order in which the runs end (Eval/Schedules).
-- Tests: runs at concrete inputs.
--
-- Fuel: the loop of `Graph.Invoke`, since a graph may run for ever; some fuel is enough exactly for the
-- graphs that have an execution, and more fuel gives the same result. For an agent with a limit of
-- `max` turns 2 * max + 2 is enough. The chosen nodes of a router are followed for a number of calls
-- that is one more than the nodes on its list. The search for a cycle is on fuel for its depth, for
-- which the number of agents is enough; the sort of agents takes one more than the agents and the
-- counted in-degrees; the search for the reachable agents ends when their names are finitely many,
-- within one more than these names and the allowlist.
--
-- Assumed: the YAML decoder, the JSON encoder, the content hash, `fmt.Sprintf`, `strings.EqualFold`,
-- text templates, the conversion of floats, `sort.Slice`, Redis, HTTP clients, timers, random numbers,
-- model providers and tools are parameters; an error of their own is an opaque value. An error keeps
-- its format, its arguments and what it wraps, not its text. A nil slice and an empty one are the
-- same. Each call of a store is one step, for its mutex; the versioned stores copy specs at their
-- boundary, so a caller shares nothing with them, while the prompt backend shares its fragments, and the
-- checkpointer its checkpoints, on a heap. A provider, a tool or a template leaves the state it is given alone. `append` is taken to copy.
-- An int is unbounded here, except in the requests and responses of models and in the delays of
-- retries and tools, which keep their 64 bits; positions and counts come nowhere near 2^63. Token
-- counts and budgets are not negative.
--
-- Not modelled: channels as such, deadlines and the recovery from panics, the stores on files, git,
-- object stores and SQL, the routes and servers of HTTP, telemetry, what a sandbox runs, and the
-- command line, which are input and output.
pub mod Common
pub mod Core
pub mod Graph
pub mod Chain
pub mod Store
pub mod Workflow
pub mod Vector
pub mod Eip
pub mod Llm
pub mod Agent
pub mod Api
pub mod Checkpoint
pub mod Tools
pub mod Sandbox
pub mod Eval
pub mod Prompt
pub mod Memory
pub mod Middleware
pub mod Tests
