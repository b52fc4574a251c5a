-- ===== src/Lib.antt =====
-- storage-testbench: an emulator of Google Cloud Storage, with REST and gRPC servers over one in-memory
-- index, faults that tests inject, and a file backend.
--
-- The parts. `Database` (testbench/database.py) keeps buckets, objects by name and generation, the live
-- generation of each name, soft deleted generations, uploads, rewrites, folders and retry tests. The
-- servers turn requests into calls of its methods, with preconditions that testbench/common.py builds;
-- methods raise the errors of testbench/error.py, and tell a `Store` (testbench/store.py) what has
-- changed. The file backend names what it writes by testbench/pathing.py, and media are the buffers of
-- testbench/media.py. Retry tests queue instructions, which the helpers of testbench/common.py take when
-- bytes of an upload arrive.
--
-- The files.
--   Base: texts as code points, Python's dictionaries as association lists with one entry a key (in
--     insertion order), Boolean tests, integers, slices of lists.
--   Errors: the codes of testbench/error.py. An action returns or raises, and leaves a state either way,
--     as methods that raise do not roll back what they have written.
--   Database: State (the fields of `Database` and the notifications it has sent), Access (the shared
--     helpers), Buckets, Objects, Deletion, Folders, RetryTests, Listing and
--     ListBuckets (the methods, under the names of the source), WellFormed (the invariant, method by method), Requests (calls as data, and
--     sequences of them), Outcomes (what reads answer behind writes), Mirror (a store that only
--     listens). Key has the keys of the index. A notification is data that is kept in the state, the
--     latest first: it never raises there, and so the methods are those of a database whose store returns.
--   Preconditions: the predicates of the JSON, XML and gRPC transports, and what they mean.
--   Pathing, Media: testbench/pathing.py, testbench/media.py.
--   Instructions: the instructions of retry tests (testbench/common.py).
--   Blobs: the creation of objects (Create is `Object.init` of gcs/object.py), with Checksums
--     (testbench/common.py) and Keys (testbench/csek.py).
--   Uploads: the faults in uploads (testbench/common.py); Write is `WriteObject`, with gcs/upload.py and
--     testbench/grpc_server.py, and Resumable is `resumable_upload_chunk` of testbench/rest_server.py.
--   Rewrites: gcs/rewrite.py, `RewriteObject` and `objects_rewrite` of the servers.
--   Downloads: Read is `ReadObject` of testbench/grpc_server.py, Rest is `rest_media` of gcs/object.py.
--   FileStore: the file backend. Disk is testbench/containment.py over the file system, Methods has the
--     notifications of testbench/filestore.py, with testbench/sidecar.py, and Rebuild its scan at the
--     start. Effects, Outcomes, SoftDeletion and Internal say what each call does to the files, Places
--     where the live object of a name lies, Shown when files show the live objects, and Mirrored,
--     ScanFile, Scan and Restart put them together.
--   Projects: HMAC keys (gcs/project.py, testbench/servers/projects_rest_server.py).
--   Acl: access controls (testbench/acl.py), with the predefined ones and what they open to everyone.
--   Tests: concrete inputs.
--
-- Choices. A method is one step: the locks of the source make it so. A REST call and a gRPC call
-- differ in `Context`. Times are seconds, and arguments of the methods. Callbacks of updates, the
-- validator of bucket names, the glob match, SHA-256, CRC-32C and MD5 are arguments;
-- `insert_retry_test` takes the test of a description, which Instructions gives as `is_failure`.
-- Base64 and gunzip are arguments too, in the record `Codecs` and beside it, and so are the time
-- and the generation of a new object, in `Clock`. The metadata that no part reads are one field,
-- `details`. An upload and a rewrite are kept in the database by value: a handler that changes
-- them in place writes them back, whether it returns or raises. The loops of `chunks` and of the
-- faulty streams run on fuel, a unit for each byte of the range. The decimal digits of a number
-- are computed on fuel above the number. A client that calls a handler again and again is bounded
-- by the number of its calls. The file system is a dictionary of paths, one for each bucket,
-- without symbolic links and with names that differ by any character. A write of a file may fail
-- at any of its calls, as the record `Process` says; the other calls on files and directories
-- fail by the tests that are written out, and not by input and output. A JSON envelope is kept as
-- what it is made of. The token of a name that has no natural path is an argument.
--
-- Not modelled: a notification that raises within a method of `Database` (testbench/store.py),
-- where the source leaves the index changed and raises: FileStore has what the methods of the
-- file backend raise, and stops at the first that does; routing, the conversion between JSON and
-- messages, updates of the metadata of buckets and objects, access control in requests,
-- BidiReadObject and BidiWriteObject, staging files of uploads, generated code, and the texts of
-- messages.
pub mod Base
pub mod Errors
pub mod Database
pub mod Preconditions
pub mod Pathing
pub mod Media
pub mod Uploads
pub mod Blobs
pub mod Rewrites
pub mod Downloads
pub mod Instructions
pub mod Tests
pub mod FileStore
pub mod Projects
pub mod Acl
