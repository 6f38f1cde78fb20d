-- ===== src/Lib.antt =====
-- libsigma, a matcher of Sigma rules: the rule engine of src/sigma_match.c with the string search of
-- src/sigma_simd.h, and the correlation engine of src/classify_corr.c behind it. A compiled database holds tables of fields, values, predicates, selections,
-- condition tokens and rules. For an event, given by a callback from field names to values, the
-- engine resolves the fields, tests predicates, combines them to selections and conditions, and
-- reports the rules that match. The correlation engine takes the rules that matched an event, finds the
-- correlations that watch one of them, keeps a group of state for each combination of field values, and
-- reports the correlations that fire.
--
-- The parts, from the bottom:
-- - Base: list, option and integer helpers that the other modules share.
-- - Text: `sg_lower`, `sg_eq`, `sg_contains`, `sg_starts`, `sg_ends` (src/sigma_match.c). A C string with
--   its length is a list of bytes. Text/Occurs has what they decide.
-- - Simd: `sigma_memmem_ci` in its SSE4.2, NEON and portable builds (src/sigma_simd.h). The intrinsics
--   are read as the set of positions that their comparisons give. The loop over blocks runs on fuel:
--   one more than the sixteen-byte blocks of the text, since a round takes a block or ends the loop.
-- - Numeric: `sg_to_i64`, with its 64-bit accumulation and saturation (src/sigma_match.c).
-- - Cidr: `prefix_match` and `ip_in_cidr` (src/sigma_match.c). A read past an array is `none`.
-- - Db: the tables of src/sigma_match.h as records and lists. Db/Valid says which references the
--   matcher relies on.
-- - Load: the checks of `sigma_db_load_buffer` (src/sigma_format.c) on the references inside an artifact,
--   from the tables that its header points to, and the pattern table of `sigma_db_finalize`
--   (src/sigma_match.c). Load/Checks, Load/Buckets and Load/Index have what each loop establishes, and
--   Load/Refs the references of the prefilter's tables.
-- - Layout: the offsets and the header of `sigma_db_serialize`, `sect_ok` and the header checks of
--   `sigma_db_load_buffer` (src/sigma_format.c, src/sigma_format.h); the bytes themselves are not modelled.
-- - Match: `resolve_field` with its memo, and `pred_match` on every operator. Match/Holds says what a
--   predicate says of an event with no memo; Match/Memo relates the two.
-- - Rules: `sel_match`, the cells of the condition's stack with `rpn_force`, and `rule_match`. The
--   stack keeps its bound of 64 cells. Rules/Holds evaluates every selection eagerly; Rules/Select,
--   Rules/Lazy and Rules/Expr relate it to the code, Rules/Groups to the conjunction of groups.
-- - Eval: `struct sigma_eval`, `sigma_eval_create`, `bump_eval_gen`, `eval_one_rule`, `eval_linear`. A
--   NULL `out` is a `max_hits` of zero.
-- - Corr: the correlation engine (src/classify_corr.c, src/classify_corr.h). Corr/Table is the hash table
--   with its list in the order of use that the file has twice, for groups and for distinct values: the
--   chains hold hashes and keys, the list holds the contents, and removal, growth, eviction and expiry act on
--   both (Table/Chains to Table/Map relate them). Corr/Group is `group_t` and `dset_observe`; Corr/Ring the
--   rings of times and values with the counting and aggregating types; Corr/Beacon the beaconing types;
--   Corr/Temporal, Corr/Cond and Corr/Watermark the temporal ones; Corr/Index `rule_valid` and the index of
--   base rules; Corr/Engine the correlations' groups, `corr_engine_new` and the sweep; Corr/Event and
--   Corr/Dispatch `corr_on_event_apply`; Corr/Contribution `corr_on_contribution`; Corr/Owner the routing
--   key. Arrays of a fixed size (the rules seen, the hits of an event, the pending items, the percentile's
--   buffer) are lists with the size as a bound of each write. Sums and products of `uint32_t` keep their wrap:
--   the theorems take caps of at most three quarters of 2^30 nodes and 2^31 events a group, up to which no
--   size or index wraps (Table/Size, Ring/Window). `ev_prune` runs on the length of the ring, which its condition bounds it by. One worker at a
--   time is modelled, so the locks are left out.
-- - Tests: a small database and event, with runs and with instances of the theorems.
--
-- The state that operations change is passed on explicitly: the memo inside a rule, the scratch and
-- the hits written so far in a scan. An outer `none` is a fault, a read that leaves a table, an array
-- or the string pool, so a result `some` says that the C code stays inside its arrays.
--
-- Parameters, since their code is not here: the field callback, a function of the name for the time of
-- an event; `inet_pton`, assumed to write four or sixteen bytes; `pcre2_match` under the fixed limits,
-- a function of the pattern and the text; whether PCRE2 gives its scratch block;
-- whether `pcre2_compile` takes a pattern; what `double` arithmetic computes (Corr/Float), with NaN and the
-- order of the other values where a theorem needs it; `strtod` behind `sg_to_f64`; and the callback that
-- lets a correlation take an event.
--
-- Not modelled: allocation failure and the freeing of memory; the Teddy matcher (src/sigma_teddy.h),
-- the literal prefilter and bucket routing of `sigma_eval_run`; the bytes of an artifact's tables
-- and its checksum (src/sigma_format.c); the mutexes of the correlation engine, its copy of the counters
-- and its freeing; event time and the wire formats (src/event_time.c, src/corr_format.c,
-- src/contrib_wire.c); the command line tool, tests and benchmarks.
pub mod Base
pub mod Text
pub mod Simd
pub mod Numeric
pub mod Cidr
pub mod Db
pub mod Match
pub mod Rules
pub mod Eval
pub mod Load
pub mod Layout
pub mod Corr
pub mod Tests
