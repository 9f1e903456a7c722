-- ===== src/Lib.antt =====
-- Verification of SyncHub for Agents: synchronization of the files of coding agents between
-- machines through a git repository.
--
-- The program collects the files of each agent (a provider) as resources, gives every file a
-- path in the repository, compares the files of this machine with those of the repository and with
-- the last common state, and carries out the resulting actions. Conflicts become bundles that the
-- user resolves in a batch. A scheduler runs this as a cycle. The modules follow these parts:
--
--   Base       bytes, strings, association lists, sorting and results, which the parts share. A Go
--              string is the list of its bytes (Base/Text); `strings.Split`, `path.Clean` and
--              `path.Join` are in Base/Strings with their laws in Base/Strings/Laws.
--   State      the snapshots of internal/state/state.go.
--   Sync       internal/syncengine: reconcile.go in Sync/Reconcile and ApplyFirstSyncStrategy of
--              planning.go in Sync/FirstSync; resources.go and the rest of planning.go in
--              Sync/Planning, which selects the paths of a pass. Each path has one optional value on
--              each of the three sides; an `ActionType` acts on the pair of local and remote value.
--   Resource   internal/resource: model.go in Resource/Model, spec.go in Resource/Spec,
--              identifier.go in Resource/Identifier and namespace.go in Resource/Namespace.
--              `strings.ToLower` is a parameter of the ownership test.
--   Scheduler  internal/scheduler/scheduler.go. Scheduler.antt holds the struct and the critical
--              sections; Scheduler/System makes the callers and the `Run` goroutine a system whose
--              events are the steps between critical sections, in any order.
--   Conflict   internal/conflict: store.go and resolution.go. Conflict/Effect is a small language
--              of programs over the files in which each operation takes its answer from a script:
--              it works, fails, or is the last one before the process stops. Conflict/Effect/Failing
--              and Conflict/Effect/Beside have the rules for programs whose operations may fail, at
--              most once, without limit, or only before a first error. Conflict/Transaction
--              holds ApplyPendingBatch and RecoverTransactions in it, Conflict/Queue QueueBatch,
--              VisibleConflicts and ResolutionStatus, and Conflict/Bundles Create, Resolve and
--              ResolveVariant.
--   Merge      internal/portablemerge/merge.go: documents in Merge/Document, `Structured`,
--              `StructuredDocument` and `Binary` in Merge/Structured. The parser and the printer of
--              documents are parameters.
--   Install    internal/installplan: model.go in Install, the commands of claude.go, copilot.go and
--              discovery.go with the checks of executor.go in Install/Operations, store.go in
--              Install/Store, `Execute` in Install/Executor, and manager.go in Install/Manager.
--   Engine     internal/syncengine/engine.go: one pass as a program over the calls that it makes.
--              What a call answers may depend on all calls before it, through the functions of the
--              record `Environment`, which stands for git, the collector, the stores, the merges and
--              the file system. Engine/Resolve holds loadRemote and the waiting batch, Engine/Apply
--              the loop over the actions and mergeResource, Engine/Pass what is computed without a
--              call, and Engine/Cycle syncOnce with its retries. Engine/Only and Engine/Protocol are
--              what the proofs say of the calls of a program: their kind, and their order.
--   Screening  internal/secret/secret.go in Screening/Secret, internal/resource/filter.go in
--              Screening/Filter, and ValidateRemoteResources with ConflictScanner of resources.go in
--              Screening/Remote: which files may be used at all. Documents are those of
--              Merge/Document. `doublestar.Match`, `json.Unmarshal` and the projector of
--              configurations are parameters.
--   Examples   runs at concrete data.
--
-- Numbers are natural numbers. Go's `time.Time` and `time.Duration` are counts of nanoseconds; a
-- duration may be negative. The loops go over lists; only `mergeMaps`, which calls itself for objects
-- within objects, takes fuel, and starts with one more than the depth of the local document. The
-- passes of the engine go by the number of attempts that are left. A file
-- that is replaced by a rename is written by one operation, since `writeAtomic` leaves the old or the
-- new content, and the removal of a bundle's directory is one operation too. The scanner of contents and the hash
-- of a bundle are parameters. Contents of metadata files are the values that their JSON encodes, so
-- a file that does not parse is not a case of its own.
--
-- The engine: an error is a text, an issue's message is its code, the labels of the news are left
-- out, and the calls of the other components are answered by the environment, the merges, the
-- validation of the remote and the specs that ProtectRemoteSpecs changes among them. These specs are
-- used from there on, also by the passes after a rejected push.
--
-- Not modelled: input and output, git, the network, the user interface and the command line, which
-- are calls of other programs; and, not yet, the writing of single files (resource_apply.go), the
-- collector, MirrorFromRepo, the inventories of installed plugins,
-- the base contents and the portable configuration. The locks of the conflict store are not modelled:
-- its operations run one at a time.
pub mod Base
pub mod Conflict
pub mod Engine
pub mod Examples
pub mod Install
pub mod Merge
pub mod Resource
pub mod Scheduler
pub mod Screening
pub mod State
pub mod Sync
