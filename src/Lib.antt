-- ===== src/Lib.antt =====
-- Downpour's core: the interval map that owns a download's byte space and the allocator over it, the
-- journal that makes progress durable with the writer, the recovery and the compaction above it, the
-- completion that verifies a file before it gives it a name, that name, the range headers and digests
-- of a transfer, and the policies of retrying and re-probing.
--
-- Intervals.antt models crates/downpour-intervals/src/lib.rs. An IntervalMap is a record of
-- total_length and intervals, as in the source; a method with `&mut self` returns its result beside
-- the map that it leaves. grant, split_in_progress, complete (complete_range here) and abandon are
-- the public operations; validate_range, range_matches, replace_range, normalise, push_merged and
-- invariants_hold are the private ones. Its children prove: Partition (the canonical partition and
-- the state of each byte), Merge, Match and Replace (the private operations), Position and Members
-- (stored intervals seen from bytes), Assign, Split and Abandon (the public operations), Unique (the
-- canonical form), Reach and Lifecycle (sequences of calls).
--
-- Allocator.antt models crates/downpour-engine/src/lib.rs: SegmentAllocator with allocate,
-- complete_durable and abandon, on the interval map. Its children: MaxBy and Preferred (the choice of
-- an interval), Decide (allocate on every branch), Safety (what an allocation promises), Requests
-- (sequences of requests).
--
-- ContentRange.antt models crates/downpour-types/src/content_range.rs: header_value, requested_len,
-- len, is_consistent_with, Display (display) and FromStr (parse, in one function per stage). Its
-- children: Consistent, Valid (what the parser accepts), RoundTrip (what it reads back). Text.antt
-- gives the parts of Rust's `str` and integer formatting that it stands on: a text is its list of
-- code points, and Text/Split and Text/Decimal hold the lemmas.
--
-- Filename.antt models crates/downpour-types/src/filename.rs: sanitise and clean, whose steps are
-- trimmed_base, fit_budget and finish_name. A byte offset at a character boundary is a split of the
-- list. Its child Header has resolve with Content-Disposition and the URL; the percent_encoding and url
-- crates are arguments, and String::from_utf8 is scan_utf8. Shape has what trimming and truncation
-- leave, Safe what a name is, Stable a name that is sanitised again.
--
-- Remote.antt models crates/downpour-types/src/remote.rs: RangeProof::from_observed_response, Validator,
-- ContentDigest::parse (parse_digest) and RemoteObject. Its children: Proof (what a range proof is
-- evidence of), Digest (which member of a digest header is kept). Reprobe.antt models
-- crates/downpour-http/src/probe.rs, when that evidence must be established again; the url crate's Url
-- is a type parameter.
--
-- Journal.antt holds the records of crates/downpour-storage/src/journal/format.rs, and Journal/State
-- models crates/downpour-storage/src/journal/state.rs: effective_state, its loop (apply, apply_all),
-- the stable sort by offset and the check of adjacent blocks. Its children: Blocks (bounds and
-- order), Survivors (which blocks are kept), Seal. The field truncate is called last_truncate here
-- and sealed is called seal.
--
-- Journal/Format models the bytes of crates/downpour-storage/src/journal/format.rs: encode_header and
-- decode_header (FileHeader::encode, FileHeader::decode), encode_record and decode_prefix
-- (FramedRecord::encode, FramedRecord::decode_prefix). The checksum of the crc crate is an argument.
-- Its children: Reads (fields found where they were written), Header, Payload, Record.
--
-- Journal/Replay models crates/downpour-storage/src/journal/replay.rs: replay_bytes, its loop
-- (replay_loop, one round in replay_round) and recover_journal, which answers beside the outcome the
-- file that it leaves. The loop has fuel, one round more than there are bytes. A reader is a string
-- of bytes; I/O errors are not modelled. Its children: Frame (a round at a written frame), Written
-- (a whole journal), Torn (a journal cut inside its last frame), Fuel (the fuel is enough).
--
-- Retry.antt models crates/downpour-http/src/retry.rs: TransientKind, RetryPolicy (decide, backoff,
-- parse_retry_after) and RetryState, whose map is a function here. The clock and the httpdate crate
-- are arguments. Its children: Decide (the policy), Origins (the counters).
--
-- PartFile.antt models crates/downpour-storage/src/part_file.rs on Linux: create, create_growable,
-- open_existing (reopen behind the opening of the path), extend_to, write_all_at, sync_data and the
-- platform's prepare. The system's calls are an argument, a record of functions. Its child Extent has
-- what reopening does to the length.
--
-- Writer.antt models crates/downpour-storage/src/writer.rs: DurableWriter with try_new, stage, flush and
-- flush_if_due, over the traits DurableData and DurableJournal, which are records of functions here.
-- flush is written in one function per step, flush_checked, flush_batch, append_batch, sync_journal
-- and commit. Writer/Batch has the types and what is computed on a batch. Writer/Files has the two
-- implementations of the traits, a part file and a JournalFile. The other children: Laws (what the
-- writer relies on in its storage), Complete, Apart, Honest, Commit, Flush and Stage (the claim of a
-- complete byte through each step), Reach (a download's events), Branches (flush on every branch),
-- Ready and Accumulate (a batch that can be completed); Files/Positional and Files/Appended derive the
-- laws from those of the system's files, and Files/Program has the whole writer. The field data is
-- called file here, and poisoned is_poisoned.
--
-- Metadata.antt has the records of crates/downpour-storage/src/metadata.rs that recovery reads and
-- writes, DownloadErrorKind::new (new_error_kind) and validate_intervals; the store is an interface,
-- MetadataStore. Recovery.antt models crates/downpour-storage/src/recovery.rs, merge_adjacent, the
-- loop over the merged ranges (rebuild) and compare_checkpoint, and Recovery/Reconcile has
-- reconcile_download, one function per stage, with fail and persist. The world that it changes is the
-- store, the part file and the journal's bytes. The field state is called
-- download_state here, and sealed seal. Its children: Merge (the merged ranges), Rebuild (the interval
-- map from ranges), Kept (from the fold's blocks to the map), Answers and Sound (every successful
-- reconciliation).
--
-- Compaction.antt models encode_replacement of crates/downpour-storage/src/journal/compaction.rs, the
-- journal that a compaction writes from a folded state and the merged blocks. Its children: Records and
-- Length (the fold of the replacement's records), Replacement (the folded state), Journaled (its bytes
-- replayed); and Replace, which models replace_atomically_with_hook. The verification and the merging of
-- the blocks are not modelled.
--
-- Completion.antt models crates/downpour-storage/src/completion.rs: verify_and_rename, in verify (the
-- checks in front of the seal) and seal_and_rename, on a journal of the writer's trait. The calls of
-- std::fs, the hash functions and base64 are arguments; opening a file answers what its reads answer in
-- turn. Its children: Coverage (the map's bytes), Digests (the comparison and the hashing loop), Seal
-- (what the checks accept), Named (every branch), Download (the writer's events and then the
-- completion). Bits.antt has when `|` and `^` of numbers are zero.
--
-- Tests holds runs on concrete inputs.
--
-- A u64 is a natural number; where the source uses checked arithmetic the test is written out, and
-- where it adds or subtracts plainly the theorems' hypotheses (total_length at most u64::MAX) rule
-- out wrap-around; the sum of the re-probe policy's window panics on overflow, which is an answer
-- `none`. A loop is a recursion over a list, but for the replay, and show_u64 prints twenty
-- digits at most, which every u64 fits in.
--
-- Not modelled: Display and Error texts, accessors that return a field, and the async, network and
-- file-system crates; the HTTP client (crates/downpour-http/src/h1h2.rs), the workers and the download
-- loop of crates/downpour-engine, which are tasks of the tokio runtime around the allocator and the
-- writer; the SQL and the CBOR of the metadata store; crates/downpour-ipc, whose messages are serde's;
-- the daemon and the command line; the harness under tests.
pub mod Prelude
pub mod Intervals
pub mod Allocator
pub mod Bits
pub mod Text
pub mod ContentRange
pub mod Filename
pub mod Remote
pub mod Journal
pub mod Reprobe
pub mod Retry
pub mod PartFile
pub mod Writer
pub mod Metadata
pub mod Recovery
pub mod Compaction
pub mod Completion
pub mod Tests
