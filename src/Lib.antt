-- ===== src/Lib.antt =====
-- nix-ci-worker builds the hosts of a Nix flake on a pool of CI runners and keeps the results as a
-- binary cache in a container registry. This library models the program's logic in antt, translated
-- from its Go source, and proves what makes the parts correct.
--
-- The parts and their files:
--
-- * Plan models worker/planner.go. Plan/Types has Plan and Derivation; Plan/Build has NewPlan, Static,
--   Complete, Missing and BuildInputs, with the theorems in its children; Plan/Batches has
--   Plan.Batches, where `add_derivations` is the loop that fills `counts`, `consumers` and `ready`,
--   `release` and `visit_ready` the loop over `ready`, and `cut_batches` the last loop.
-- * Pool/Message models the control messages of worker/pool.go, poolFresh and validFeatures;
--   Pool/Records models poolBus.read, which keeps the newest authentic record of a mailbox.
-- * Builder models servePoolBuilder of worker/builder.go, the loop of a helper: `turn` is what it does
--   from its head to its `select`, made of a function for each part; `receive_result` is the branch
--   of a result.
-- * Scheduler models BuildPool.schedule of worker/scheduler.go, which assigns the missing builds of a
--   plan to four runners. Scheduler/Job has poolCompatible and what is computed before the loop,
--   Scheduler/Dependencies has poolDependencies, Scheduler/Loop a turn's parts (the propagation of
--   failures, the test of a runner, the choice of a task, the assignment), and Scheduler/Steps whole
--   turns, the events that the `select` receives and the relation `Step` of all that can happen.
--   Scheduler/Invariant proves an invariant for every step; Scheduler/Safety, Doom, Progress and
--   Finish take the theorems from it, and Scheduler/Later compares a state with those it leads to.
-- * Snapshot models worker/snapshot.go and worker/snapshot_index.go: Snapshot/Files the locations of
--   records, Snapshot/Paths the store paths, Snapshot/Narinfo NarinfoFields and NarinfoKey,
--   Snapshot/Index newSnapshotIndex and snapshotIndex.extend, Snapshot/Index/Select selectPaths, of
--   which a round is one path taken from `pending`, and Snapshot/Records the snapshot's maps with ValidateRecords,
--   RequireClosed, Contains, Merge and matchingNarinfos.
-- * Catalog models worker/catalog.go, the form in which a snapshot is published: Catalog itself has the
--   records, Catalog/Partition partitionCatalog, Catalog/View the check of a node (catalogView.node),
--   Catalog/Lookup openCatalog, lookup, loadAll and addCatalogRecords, and Catalog/Publish
--   publishCatalog with its uploads, and reuseCatalogs. Catalog/Published says when a tree is stored,
--   Catalog/Answers what a lookup in it finds, and Catalog/Publish/Complete what is uploaded.
-- * Publication/Packer models narPacker of worker/publication.go: add, flush, waitUpload and the
--   goroutine of an upload are functions, and `Step` what parallel calls of them can do.
-- * Live models worker/live.go: valid_run_id, the tags, results, and livePublisher with flush, publish
--   and update, which uses Merge and RequireClosed of Snapshot/Records.
-- * Download models packDownloads of worker/download.go: the steps of parallel reads are the parts
--   of `read` that hold its mutex, and Download/Records what it does with the bytes of a pack. Its
--   other children prove the invariant and the theorems in Download/Safe.
-- * Base has what the parts share; Tests runs the models on small inputs and applies the theorems
--   there.
--
-- How the source is read: a Go map is an association list in the order of one iteration, or a
-- function where only reads and writes at a key matter, with Go's zero value at a missing key; a map
-- to `bool` that holds only `true` is the list of its members. Strings are lists of bytes. An error is
-- its message. Sizes that have passed a validation are natural numbers, others integers; times are
-- nanoseconds since a common origin. Regular expressions are recognizers written out, and
-- strings.Fields splits at the white space of ASCII. Sequence numbers are reduced modulo 2^64.
--
-- Loops: the loop over `ready` runs on as many rounds as there are derivations and one more, the
-- propagation of failures on as many passes as there are tasks and one more, the search for
-- dependencies to a depth of the number of derivations and one more, the eviction of packs on as many
-- rounds as there are packs and one more, the cutting of batches on one round for each build, and
-- the selection of paths on one round for each root and each reference of the index. The theorems on these loops prove that this is enough.
--
-- The assigner: a helper's status is read once for each runner in a turn, and the clock with it. The
-- events of the goroutines are steps that can happen in any order, a goroutine's release before its
-- result. The decoder of the attributes in a derivation's `__json` is a parameter. That the values
-- before the loop (the tasks, their order, their dependencies) belong together is the hypothesis
-- `IsJob` of the theorems on the loop.
--
-- Downloads: the clock of packDownloads, which counts reads, does not wrap. Of the errors that
-- errors.Join joins, the first is kept.
--
-- The helper and the mailboxes: a turn of the helper reads the clock once, and what bus.read and
-- bus.write do is an input of the turn. Decryption, the HMAC and the decoders of JSON and hexadecimal
-- digits are the record `Codec`.
--
-- Catalogs: SHA-256, the decryption and decompression of a blob and the decoders and encoders of
-- JSON are the records `Reading` and `Encoding`, and the upload of a text a function that
-- publishCatalog is given. The nodes of a level are read and uploaded one after another, where the
-- source takes eight at a time. partitionCatalog recurs on 64 less its depth. A lookup and a load go
-- through 66 levels at most; a node deeper than 64 digits is refused, and the theorem on lookups
-- shows that the bound is enough.
--
-- Publications: what the storage answers is an input of a step of the packer, or the record `Outside`
-- of the publisher. The counters of the packer, which are only printed, are left out. Attempts are
-- natural numbers; the source refuses those below 1.
--
-- Not modelled: the registry client, HTTP, encryption, the nix commands, files and processes; and for
-- now the decoding of derivations, and the text of records
-- with the choice of those that are complete.
pub mod Base
pub mod Plan
pub mod Pool
pub mod Builder
pub mod Download
pub mod Scheduler
pub mod Snapshot
pub mod Catalog
pub mod Publication
pub mod Live
pub mod Tests
