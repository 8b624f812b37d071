-- ===== src/Lib.antt =====
-- Verification library of file-system-spike, a file service with a cache and a NAS behind it.
--
-- The parts, the code that each is about, and the modules:
--
-- Base: the names that all modules share. Tests has the Boolean tests, the conditional and the result
--   type of methods that throw; Lists has lengths and predicates; Dict has JavaScript's maps as
--   association lists in insertion order; Int has the integers of a counter that may go below 0; Text
--   has code points and the white space of `trim`.
-- Upload: the multipart upload. Session and Part are the entities of
--   src/domain/upload-session/entities; Session/Parts is about the list of completed parts, Session/Life
--   about the states. Queue is src/business/file/upload-queue.service.ts: Queue has its state and the
--   operations that need no session (enqueue, removeTicket, cancelQueue, checkCapacity), Queue/Handlers
--   those that use the sessions (tryInitiateOrEnqueue, getQueueStatus, promoteNext,
--   handleQueueMaintenance). Queue/Invariant and Queue/Runs are about its reachable states,
--   Queue/Capacity about the limits where the handlers run one after the other, Queue/Overlap about two
--   admissions that overlap, Queue/Admission about the count for one user, Queue/Promotion and
--   Queue/Starvation about promoteNext. The queue sees the sessions through the interface SessionStore;
--   Multipart is `initiate` of src/business/file/multipart-upload.service.ts with the statistics of
--   src/infra/database/repositories/upload-session.repository.ts, and Multipart/Store fills the
--   interface with them. PartUpload is `uploadPart` and `uploadPartStream` of the same service, each as
--   two steps, PartUpload/Overlap is about uploads that overlap. Complete is `complete`, in two steps as
--   well, the checks and the transaction, and Complete/Once is about its checks and two calls at a time;
--   Abort is `abort` with its background deletion and `getStatus`. Complete/Effects is about the rows
--   that a completion leaves, PartUpload/Kept, Abort/Kept and Complete/Calls about what each call writes
--   to a session whose merge has begun, and Complete/Later about calls after a commit.
-- SyncEvent: Entity, FileFactory and FolderFactory are
--   src/domain/sync-event/entities/sync-event.entity.ts; Lifecycle is
--   src/business/worker/shared/sync-event-lifecycle.helper.ts; Retries is about the retries of an event.
-- Share: PublicShare is src/domain/external-share/entities/public-share.entity.ts, TokenStore
--   src/infra/cache/in-memory-token-store.ts, and Access
--   src/business/external-share/external-share-access.service.ts, which uses both. Access/Rules is about
--   who gets at the content, Access/Tokens about the tokens that serve once.
-- Requests: ShareRequest and FileAction are the entities of src/domain/share-request and
--   src/domain/file-action-request, each with a child about any sequence of calls.
-- Files: Item, File and Folder are src/domain/file/entities/file.entity.ts and
--   src/domain/folder/entities/folder.entity.ts; Life is about their states. StorageObject is
--   src/domain/storage/file/entity/file-storage-object.entity.ts, with its keys and leases in
--   StorageObject/Keys; RangeParser is src/common/utils/range-parser.ts, RangeParser/Bounds about what
--   it gives. NameCheck is `existsByNameInFolder` of src/infra/database/repositories/file.repository.ts.
--   CacheEviction is `runEviction` of src/business/admin/cache-management.service.ts with its queries in
--   src/infra/database/repositories/file-storage-object.repository.ts; CacheEviction/Ends and
--   CacheEviction/Leased are about its loop and about the rows that are leased. Paths is
--   src/common/utils/path.util.ts, Paths/Parts about what it takes out of a path. Manage is
--   src/business/file/file-manage.service.ts: Manage/Checks has its tables and the checks that the
--   operations share, with the helpers on names in Manage/Names, Manage/Plans what `rename`, `move` and
--   `delete` check and are to write, and Manage the writes, inside the transaction and outside of it.
--   Manage/Checked is about what the checks have seen, Manage/Operations joins the three operations,
--   Manage/Unique is about what the check of names keeps apart, Manage/Busy about two operations on one
--   file, Manage/Deletion about what a deletion leaves behind, and Manage/WayBack about the path by
--   which the trash finds the folder. NasMoves is file-move.handler.ts and file-trash.handler.ts of
--   src/business/worker/handlers, which carry the moves out on the NAS, and NasMoves/Twice is about a
--   job that is run again.
-- Trash: Store has src/domain/trash/entities/trash-metadata.entity.ts and the tables that the trash
--   works on; Restore, Status, Preview and Purge are `executeRestore`, `getRestoreStatus`,
--   `previewRestore`, and `purge` with `emptyTrash`, of src/business/trash/trash.service.ts. Their
--   children are about the counts of a restore, what a preview foretells, the status after a restore,
--   and what a purge leaves behind. They use the entities of Files and SyncEvent.
-- Audit: BufferedWriter is src/business/audit/buffered-writer.ts, an object that pushes, ticks and
--   answers of the storage change in any order; BufferedWriter/Accounting counts its items.
-- Jobs: LocalQueue has the files of src/infra/queue/local/local-file-queue.adapter.ts,
--   LocalQueue/Worker its recovery, delayed jobs and polls; LocalQueue/Crash and LocalQueue/Attempts are
--   about them.
-- Concurrency: Semaphore is src/common/utils/semaphore.ts, Semaphore/Protocol its callers. FileLocks
--   is src/infra/storage/file-lock.manager.ts as a relation between managers, of which every call,
--   grant, time limit, release and sweep is a step: FileLocks/Table is about its map,
--   FileLocks/Exclusion about who holds a lock, FileLocks/Several about calls that take the locks of
--   several keys. MemoryLock is src/infra/queue/local/in-memory-lock.adapter.ts: MemoryLock/Timers has
--   any sequence of its calls and the timers, MemoryLock/Ownership is about who holds a lock.
-- Examples: runs at concrete inputs.
--
-- How the code is translated. A class is a record of its fields, a method a function from the old
-- record to the new one; a method that throws gives `ok` or `err`, and a theorem over any calls lets a
-- call that throws leave the object as it was. Times are milliseconds, and `new Date()` and
-- `Date.now()` are the argument `now`, read once in a call. `undefined` and `null` are `none`. A
-- number is a natural number of any size; the counters that can go below 0, of the semaphore and of
-- the file locks, are integers. An id that `uuidv4` or `generateJobId` gives is an argument. The loops
-- are recursions on lists; the loop of promoteNext has as fuel the length of the waiting order at its
-- start.
--
-- What is outside the code, or is not modelled. A service that awaits runs to its end before the next
-- one: what other requests do between two of its awaits is left out, but for the uploads of parts and
-- their completion, the file locks, the audit writer, and for crashes of the job queue, whose every
-- file operation is an effect of its own and is taken to succeed. In the upload queue the decision of
-- tryInitiateOrEnqueue and what follows it are two definitions, and a handler is the two of them with
-- nobody in between; the promotions have nobody in between either. Of rename, move and delete every
-- save, the commit and addJob may fail. The folder services, the decoding of file names, the download
-- of a file, the processor of a job, the hash function and the answers of the job queue and of the NAS
-- are arguments. RwLockPackage is the package of read and write locks: what it grants, and that a
-- writer has its lock object alone. JavaScript's `toLowerCase`, by which extensions are compared, is
-- an argument, and so is whether a save succeeds and a transaction commits. TextOrder is the order by
-- which JavaScript sorts texts. Answers says for which files the database and the cache storage throw
-- during an eviction. The turn of a candidate takes the rows as others have left them; the whole loop
-- is modelled with nobody else writing the rows. The loop takes fuel, and one round more than there
-- are rows that may be evicted is enough. A day in the expiry of the trash has 24 hours, without the
-- changes of the clock. Logs for operators are left out. The parts of a poll run one after the other,
-- and a processor does not change its job. Not modelled: `withLock` of the memory lock, the list of
-- the trash, the statistics of the cache directory, the upload of small files and the download of
-- files, the services of folders and of share requests, and the other handlers of the workers. The
-- database, the NAS, Redis and the HTTP layer are input and output through libraries.
pub mod Base
pub mod Concurrency
pub mod SyncEvent
pub mod Upload
pub mod Share
pub mod Requests
pub mod Files
pub mod Jobs
pub mod Trash
pub mod Audit
pub mod Examples
