-- ===== src/Lib.antt =====
-- A model of two tools of the demo infrastructure, the audit analysis
-- demo/infra/shared/audit/analyze-audit.py and the packet analysis
-- demo/infra/shared/pcap/analyze-pcap.py, with the theorems that their numbers mean what they are
-- said to mean.
--
-- The audit analysis. The consumers under test write one audit line for each thing that happens to
-- a Kafka record: published ("P"), processed ("C"), failed ("F"), dropped ("D"), handed off ("H"),
-- retried ("R"). `AuditStats` matches the lines by topic, partition and offset, in one pass, and counts
-- first outcomes, duplicates, conflicts, replays, handoffs, and what stays unmatched. With each
-- first outcome it feeds the order checks (`ProcessingOrderStats`, or the `ExactKeyOrderSpool`
-- through a callback), the fairness and freshness of message keys and the latency rules. A record
-- that is matched is closed: without a TTL it becomes a byte of outcome flags in a
-- `ClosedOffsetStore`, with one it is kept until the watermark passes it by the TTL.
--
-- `AuditAccumulator` gives each record to the `AuditStats` of its topic,
-- `MultiWindowAuditAccumulator` to one accumulator for all and one for each window of publication
-- times that has the record's publication, and `aggregate_stats` adds the topics up.
--
-- The packet analysis. The rows that tshark prints for a capture make connections and Kafka
-- messages; a response takes its API from the request with its correlation. The connections of a
-- role are selected. The record sets of Produce requests and Fetch responses are parsed out of the
-- raw messages, the record batches in them are searched for, decompressed, and their bytes accounted
-- for; the totals are kept in all and for each topic, and the captured bytes attributed to topics.
--
-- The files, each with the part of demo/infra/shared/audit/analyze-audit.py that it models:
--   Audit/Record     RecordKey, AuditRecord, the types of parse_record
--   Audit/Flags      PUBLISHED_FLAG and the other flags, as bits of a byte
--   Audit/Offsets    ClosedOffsetStore.get, set, clear
--   Audit/Order      ProcessingOrderStats: add_partition_order, add_key_order, evict_before
--   Audit/Spool      ExactKeyOrderSpool: new_scope, bind, add, finish, _reduce
--   Audit/Age        OnlineAgeStats.add
--   Audit/Latency    LatencySlaRule, LatencySlaStats and the status of its summary
--   Audit/Freshness  FreshnessGapStats.add_processed, add_dropped
--   Audit/Fairness   KeyOutcomeStats, KeyFairnessStats
--   Audit/Stats      RecordState, ClosedRecordState, AuditStats and __post_init__
--     Stats/Open     _state, _add_terminal_unique, the branches of _add_terminal for an open record,
--                    _close_if_complete
--     Stats/Closed   _add_terminal_to_closed, _add_terminal_to_compact_closed, the branches of
--                    _add_handoff for a closed record
--     Stats/Evict    _evict_open_record, _evict_expired
--     Stats/Run      _add_published, _add_terminal, _add_handoff, add, finish
--   Audit/Parse      parse_record: the split of a line and its columns
--   Audit/Log        add_line, and the loop over the lines of a file
--   Audit/Accumulator  AuditAccumulator: add, finish, contains_key, state_for, _new_topic_stats
--   Audit/Windows    MeasurementWindow, MultiWindowAuditAccumulator
--   Audit/Aggregate  aggregate_stats
-- and of demo/infra/shared/pcap/analyze-pcap.py:
--   Pcap/Result      the exceptions of the readers
--   Pcap/Bytes       slices and struct.unpack_from
--   Pcap/Varint      signed_varint, unsigned_varint
--   Pcap/Fields      signed_short, signed_int, skip_tagged_fields, message_limit, kafka_string,
--                    kafka_bytes, compact_count, compact_string, compact_bytes
--   Pcap/Messages    parse_produce_request_v9, parse_fetch_response_v17
--   Pcap/Records     record_sizes
--   Pcap/Compression NativeCompression.snappy and decompress
--   Pcap/Batches     find_record_batches
--   Pcap/Capture     the first loops of analyze_capture: connections, messages, correlation
--     Capture/Roles  connection_role and the selection of connections
--   Pcap/Network     the network counters of analyze_capture
--   Pcap/Totals      add_numbers and add_batch
--   Pcap/Topics      the record sets, exchanges, buckets and API counts of analyze_capture
--   Pcap/Allocation  the captured wire bytes of each topic
-- Proofs stand in modules named for what they prove: Late (what a late event is, over a whole
-- history), Order/Exact, Spool/Exact and Spool/Sharding, Stats/Frame (what a step leaves alone),
-- Stats/Balance, Stats/Still and Stats/Reconcile with its children (published records against
-- terminal ones), Stats/Tally (every record counted once), Evict/Stale (closed records that are seen
-- again), Fairness/Conserved (the sums over message keys), Age/Bounds, Parse/Columns
-- and Parse/Line (lines read back), Log/Written (whole logs), Accumulator/Routed and
-- Accumulator/Finished, Windows/Published, Aggregate/Sums;
-- of the packet analysis Varint/RoundTrip, Fields/Within and Messages/Within (positions within the
-- data), Records/Account, Compression/Ends, Batches/Sound, Roles/Selected, Network/Conserved,
-- Totals/Split, Totals/Sum, Topics/Bounded, Topics/Counted.
-- Prelude and Dict have the shared helpers: Python's integers over the native numbers, equality of
-- dictionary keys, association lists, sums of counters. Audit/Tests and Pcap/Tests have small inputs.
--
-- How it is modelled. A method that changes an object is a function on a record of its fields; an
-- object that it found in a dictionary is stored back under its key. A method that can raise
-- (`finish` of the statistics and of the spool, `add` of the spool, `parse_record` and `add_line`)
-- returns an Option. A dictionary is an association list, which keeps the order of insertion as Python's does. A deque is a list. A
-- `while` over a deque is recursion on the list, and a `for` over shards is recursion on their
-- number, so no fuel is needed. Python's integers have no bound; the fields of the spool's header,
-- which have, are tested as `struct.pack` tests them. The times, offsets and partitions may be
-- negative. The readers of the packet analysis return a value or an exception. Its `while` loops are
-- recursion on fuel, the number of the bytes: each round of record_sizes and of find_record_batches
-- takes a byte at least and each round of the Snappy framing five, so that the fuel is enough, and
-- the result `stuck`, which stands for its end, does not come up. The words of `struct` have 16 and
-- 32 bits in two's complement; the varints are read into integers without a bound, as in Python.
--
-- Parameters, for code that is not in the repository: the decompression libraries, each of which
-- may fail; the decoding of UTF-8, which may fail; the base64 text of a UUID; the rounding of a
-- share through floating point numbers; `int` of a text.
--
-- Not modelled: the ValueError of a page of the closed-offset store at flags above 255, which no
-- caller writes; the effect of the accumulators on the shared key-order spool, its struct.error
-- included; the summaries with their percentiles and Gini coefficients, the binary packing of the
-- spool's files and their directory, Python's `hash` (a parameter), the floating point averages,
-- deviations and percentages of the summaries, the opening and decoding of files and the printing,
-- the command line; of the packet analysis the calls of tshark and the text of its columns, the
-- calls of the libraries through ctypes, the percentages, and the merge of captures into roles. The
-- other tools of the repository, among them the experiment planning in
-- demo/infra/shared/experiment_orchestration and the reports in demo/infra/shared/experiment_report,
-- and the consumer library in ckc-core, are not modelled either.
pub mod Prelude
pub mod Dict
pub mod Audit
pub mod Pcap
