-- ===== src/Lib.antt =====
-- A verification library of DriveS3, a gateway that serves the S3 protocol over Google Drive.
-- Every path below is under apps/server/src.
--
-- The program. An S3 request is authenticated (auth/), then each data-plane handler
-- (s3/operations/) resolves its bucket and asks who may do what (s3/authorize.ts,
-- services/authorization-service.ts), which weighs the bucket's policy (s3/policy.ts), the
-- ownership, the roles and the ACLs (s3/acl.ts). Object Lock (s3/object-lock.ts) guards versions
-- against deletion. Multipart uploads are rows and parts in SQLite (db/repositories/) that a
-- completion assembles under a lock of the upload (util/upload-lock.ts). Every write is staged in
-- a table before bytes go to Drive, and a transaction makes the staged object current; what is
-- replaced becomes a version or is queued for deletion, and a job at start-up settles the writes
-- that a crash cut off. Reads may ask for a
-- byte range (s3/range.ts) or be conditional (s3/conditions.ts). Traffic to Drive passes
-- semaphores (util/semaphore.ts), callers are limited by token buckets
-- (security/rate-limit.ts), and the calls are counted (drive/quota-meter.ts).
--
-- Which file models which part, a child module standing in the directory of its parent:
--   Base           names of the libraries, Boolean tests, lists, JavaScript's Map, strings
--   S3Error        the error codes of s3/errors.ts, and results
--   ObjectLock     s3/object-lock.ts; putObjectRetention and putObjectLegalHold of
--                  s3/operations/lock.ts as steps on the lock of one version
--   Policy         s3/policy.ts: Json, Regexp (the expressions that wildcardMatch builds, as the
--                  runtime takes them), Statement (the types), Parse, Wildcard, Cidr, Evaluate
--   Acl            s3/acl.ts
--   Authorization  services/authorization-service.ts (Actions, Access, Buckets) and
--                  authorizeBucket of s3/authorize.ts (Buckets)
--   Multipart      s3/operations/multipart-complete.ts: validateRequestedParts (Parts) and the
--                  handler completeLocked (Complete); the statements of
--                  db/repositories/multipart-uploads.ts (Uploads) and multipart-parts.ts (Table);
--                  jobs/multipart-expiry.ts and abortMultipartUpload of
--                  s3/operations/multipart.ts (Retire); World is what the handlers share
--   Range          s3/range.ts
--   Conditions     s3/conditions.ts, quoteEtag of s3/etag.ts
--   RateLimit      security/rate-limit.ts
--   Retry          withDriveRetry of drive/retry.ts
--   QuotaMeter     drive/quota-meter.ts: Ring (the slots), Meter (record and window)
--   Semaphore      util/semaphore.ts, its asynchronous calls as events of a step function
--   Store          the tables behind an object: Rows (their columns), Table (SQL statements on lists
--                  of rows), Staging, Objects, Versions and Cleanup (db/repositories/
--                  object-staging.ts, objects.ts, object-versions.ts, pending-cleanup.ts), Commit
--                  and Removal (the transactions of objects.ts), Recovery (jobs/staging-recovery.ts),
--                  Deletion and Promotion (delete of services/object-service.ts;
--                  deleteObjectVersion and promoteNewestVersion of s3/operations/objects.ts),
--                  Tracked (whether the tables still know a Drive file)
--                  Drive (what is asked of Google Drive, as a parameter with its laws), Drain
--                  (jobs/orphan-cleanup.ts, assertUnder of util/multipart-path.ts)
--   Put            upload of services/object-service.ts; Store/Deletion/Service its delete, and
--                  Store/Disk drainDriveFileNow
--   Schedule       backup/schedule-time.ts
--   Chunked        s3/aws-chunked.ts, over a runtime (text of bytes, hashes) that is a parameter:
--                  Reader (readLine, ensure), the decoder itself in the parent
--   Upload         uploadResumable of drive/upload-streaming.ts, over a reader, a cipher and a Drive
--                  that are parameters
--   UploadLock     util/upload-lock.ts, likewise, over all keys at once
--
-- How code becomes definitions. A thrown S3Error is the `err` of a Result. A string that the
-- code takes apart is a list of UTF-16 units, another is a native string or that list as well;
-- null and undefined are `none`. Sets and maps keep the order of insertion. What a caller awaits
-- is an event: an acquire, an abort or a release, in any order. Numbers are natural numbers.
-- Loops are recursion on the list that they walk; the loop of the retries has as much fuel as
-- attempts are allowed and that of an upload as much as there are bytes in its buffer, which is
-- shown to be enough; the decoder of a chunked body has one unit for each turn of `pull`, and one
-- more than there are chunks is shown to be enough. The nine days that a schedule looks ahead are
-- shown to be enough. A function of the runtime
-- (trim, toLowerCase, Number, JSON.parse, Date.parse, Buffer.byteLength) and a table that a
-- service only reads are fields of a record or arguments, and stay arbitrary. A table is the list
-- of its rows; a statement whose condition names a unique key acts on the first row that it picks.
-- Random ids and the clock are arguments. Of Drive the laws of Store/Drive are assumed: a deletion
-- touches one file, a file deleted is not there, and an uploadResumable or uploadMultipart that
-- returns adds no file but the one that it answers with. An upload that throws may have left a file, which no table knows, and a 404 may be
-- said of a file that the account does not see: the theorems name both where they matter.
--
-- What is not modelled. HTTP, XML printing and the regular expressions that find tags in XML;
-- the calls of Drive and Google; cryptography and request signatures; the other tables and
-- jobs; configuration and the dashboard. Of the object store, the paged listings, the cascades of
-- foreign keys but the one from an object to its encryption, and that the deletion
-- of one version deletes the file that it queues from Drive at once; of uploads, the hashes, the abort signal and
-- uploadMultipart; of chunked
-- bodies, cancel and the wiping of the key. Of Object Lock, the default retention of a bucket; of
-- the token buckets, the rounding of floating-point numbers: time is in whole ticks
-- and tokens in the parts that one tick adds; of the retries, likewise, and the callback onRetry; of the quota
-- meter, the rows per user; of conditional requests and schedules, dates before 1970; of the
-- multipart tables, the rows that go when their bucket or user is deleted; of the handlers and
-- jobs, the audit rows, failures of SQLite itself, and what other requests write while one waits
-- for Drive or for the disk.
mod Base
pub mod S3Error
pub mod ObjectLock
pub mod Semaphore
pub mod Store
pub mod Schedule
pub mod Chunked
pub mod Upload
pub mod UploadLock
pub mod Policy
pub mod Acl
pub mod Authorization
pub mod Multipart
pub mod Put
pub mod Range
pub mod Conditions
pub mod RateLimit
pub mod Retry
pub mod QuotaMeter
