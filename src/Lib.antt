-- ===== src/Lib.antt =====
-- AntChainTrustSDK: a model of the parts of the SDK that keep its data straight, and what is proved
-- of them. The SDK connects a device to a cloud service. Its public API turns each call into a job,
-- takes the job from a fixed pool and passes it through a queue to the one service thread, which
-- runs it; the components that the operations use include JSON texts, a key-value store, MQTT and
-- TLS.
--
-- Files, and the code they are about:
--   Prelude, Prelude/Lists, Prelude/Tests: shared names, lists over the native numbers, Boolean
--     tests, and finite tables that are checked by running them.
--   Errno: include/actrust_errno.h, the error word.
--   Json/*: source/components/json/source/core_json/json.c.
--     Chars: the characters, hexadecimal digits and the UTF-8 encoder.
--     Escape, Unescape: actrust_json_escape_string, actrust_json_unescape_string. A round of the
--       second one's loop is unescape_step.
--     Builder: json_builder_write and the actrust_json_builder_* functions; Builder/Invariant says
--       what a builder holds and what a call appends, Builder/Texts what each call appends.
--     View: actrust_json_init, _query, _get_string and _get_int, with coreJSON's functions
--       as arguments.
--     Spec: what escaped text is, without buffers. EscapeLaws, Decoder, RoundTrip, Utf8: proofs.
--   Job/*: source/core/source/core_job.c and source/core/include/core/core_job.h.
--     Pool: the actrust_job_pool_* and actrust_job_* functions. A job is its index in the pool.
--       Pool/Invariant, Pool/Calls, Pool/Laws: its invariant, sequences of calls, and proofs.
--     Queue: the actrust_job_queue_* functions. Queue/Refine relates the ring to a list of jobs,
--       Queue/Threads runs many threads on it, one lock-held section at a time, and Queue/Stranded
--       follows a consumer that enters after a close.
--   Kv/*: source/components/kv/source/kv.c and, for the storage under it,
--     source/adapter/platform/linux/storage.c.
--     Codec: words, the checksum, records, superblocks and journals. Disk: storage calls, and the
--       functions that read and write one part of a region. Recover: the kv_*_is_valid functions and
--       kv_recover. Prepare: kv_prepare_storage. Store: kv_find_record, kv_transaction and
--       actrust_kv_set, actrust_kv_get, actrust_kv_del and actrust_kv_exists.
--     Words, RoundTrip, Region, Parts, Valid: what is read behind a write. Selected, Sound: what
--       recovery finds. Runs, Change, Crash: sequences of storage calls, and every point
--       at which one stops.
--     Lookup, Entry, Steps, SetLocked, SetGet, Others, Delete: the searches over the records, a set
--       followed by a get of the same key or of another, and a deletion.
--   Encoding/*: source/common/source/encoding.c. Hex is the encoder, Laws what is read back.
--   Ntp/*: source/components/ntp/source/ntp.c. Time: deadlines, corrected time, timestamps. Client:
--     the client, ntp_operation_acquire and _release, actrust_ntp_init and _deinit, the getters.
--     Sync: actrust_ntp_sync and the calls it makes of the network. Clock, Sync/Laws: proofs. Users
--     interleaves the users of a client with its deinitialization.
--   Core/*: source/core/source/core_ops.c, what the service thread runs. Context: the core's context.
--     Background: core_downlink_start, core_downlink_stop, core_ntp_start and core_ntp_stop. Ops: the
--     operations core_ops_init, core_ops_deinit, core_ops_connect and core_ops_disconnect with the
--     labels and helpers of each; the results of calls of other components are arguments. Handshake:
--     the registration's state, core_downlink_dispatch and its handlers. Register: core_ops_register
--     and the functions that it is made of, with lists of the messages that are handled between their
--     sections under the lock. Submit: core_submit_job and core_post_job of
--     source/core/source/core_api.c, and Filled and Submitted its proof. Tidy, Init, Shutdown, Kept, Life: what
--     the state says of what is held, and proofs. Answers, Registered, Agreed, Answered: what a
--     registration has gone through, and proofs.
--   Queue/*: source/components/queue/source/queue.c. Sections: the state, and what its functions do
--     under a lock. Wait: queue_wait_resource. Calls: actrust_queue_create, _push, _pop and _size.
--     Close: actrust_queue_close and _destroy. Refine relates the ring to a list of items; Threads,
--     Quiet, Shut and Leaks interleave tasks that push, pop and close.
--   Core/Tests, Core/Runs, Encoding/Tests, Json/Tests, Queue/Tests, Job/Tests, Ntp/Tests and Kv/Tests
--     hold runs at concrete inputs.
--
-- State is passed explicitly: an operation takes a record and returns its error code with the record
-- it leaves. Where the code calls an adapter (a mutex, a semaphore, the allocator) and acts on the
-- result, that result is an argument, so a theorem that takes any such argument covers every failure
-- of the adapter. A lock that fails makes the operation return with nothing changed. The checks for a
-- null argument of the job functions are left out: a reference to a pool or a queue is not null here.
-- In the JSON functions and in those on keys a null pointer is `none`.
--
-- The storage is a function from offsets to bytes with a list of replies, one for each call to come;
-- behind the last all calls succeed. A reply that is an error says how many bytes the call has stored
-- all the same. A power cut is a call that fails, together with all those after it: what the store
-- does next is to recover on a storage whose calls succeed. The theorem about interrupted changes asks
-- that a call that fails has stored nothing; a call that stores a part of a journal or of a superblock
-- is left to the checksum, of which nothing is assumed or proved. The adapter's check of a range is
-- left out: the store stays inside its region.
--
-- Bounds. Numbers are natural numbers and unsigned words wrap by an explicit remainder: uint16_t in
-- the queue, uint32_t in code points, size_t (64 bits) in the buffer checks. Theorems about buffers
-- ask that a buffer is at most max_object bytes, so that no index overflows. A C string is the list of
-- its bytes before the NUL. The decoder's loop runs on fuel, one unit for each byte of the input; this
-- is enough, since a round takes a byte at least. The maximum length of a value and the number of
-- records are parameters of the store, in a record Config; the length of a key is the 32 that the code
-- insists on. A store's generation is a 64-bit word; the theorem about changes asks that it has a
-- successor. Its loops run over the records, whose number is fixed. Offsets in a region, which the code
-- computes in uint32_t, do not wrap: the constants of a build are taken to make a region smaller than
-- 2^32 bytes.
--
-- Not modelled: actrust_json_get_bool and actrust_json_builder_add_int; the other adapters, the
-- cryptographic, TLS, MQTT and cloud components and the log, which mostly wrap other libraries; the
-- core's actrust_init and actrust_deinit and its service loop, its send operation and the texts of its
-- registration; and the registry of the key-value store's namespaces with the functions that open and
-- close one.
pub mod Prelude
pub mod Errno
pub mod Json
pub mod Encoding
pub mod Ntp
pub mod Queue
pub mod Job
pub mod Core
pub mod Kv
