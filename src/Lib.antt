-- ===== src/Lib.antt =====
-- Verification of the SHINKEN Sentinel driver.
--
-- The driver filters network traffic. A classify callback acquires the current snapshot of the rule
-- set (rules/rule_store.c), evaluates the packet's tuple against it (rules/rule_engine.c,
-- rules/rule_match.c, packet/packet_helpers.c) and releases it. A control request changes the rule
-- set: it publishes a new snapshot and retires an old one, which is freed once its readers are gone.
-- The control device (control/ioctl.c) reads requests from a
-- queue on a thread of its own, and the filter engine's objects are installed and torn down by
-- wfp/wfp_manager.c. Readers are counted by a rundown counter (runtime/rundown.c), and everything stops or is blocked by
-- the terminal state machine (runtime/runtime.c).
--
-- Files:
--   Prelude      lists, tests and bits shared by the other modules
--   Status       the NTSTATUS values
--   Packet.Addr  SkPkAddrMatch of packet/packet_helpers.c
--   Packet.Classify  packet/classify.c: the tuple (Tuple), the verdict and the callbacks of the layers
--   Packet.Flow  packet/flow_context.c: the table of flow contexts as interleaved steps
--   Rules.Types, Rules.Match, Rules.Hash   rules/rule_types.h and rules/rule_match.c
--   Rules.Validate, Rules.Order            SkRuleValidate, SkRulePrecedes and SkSortRules
--   Rules.Rate, Rules.Engine               rules/rule_engine.c
--   Rules.Store  rules/rule_store.c: the heap and the sections under g_PublishLock (Store), its
--                invariant (Safe), what each section does (Sections), their interleavings (Steps), what
--                the store shows (View), the writer API and the queries (Api), and SkRuleStoreShutdown
--                with SkRuleStoreInit (Shutdown)
--   Packet.Injection  packet/injection.c: the injection handles and the packet pools
--   Runtime      runtime/runtime.c (State, Objects, Injection), runtime/rundown.c (Rundown) and
--                runtime/lifecycle.c (Lifecycle), where the components' operations are arguments
--   Telemetry.Queue  telemetry/event_queue.c: posts, the drain, and the producer gate against a stop
--   Telemetry.Ring   telemetry/event_queue.c: shTelemetrySink and SkTelemetryFlush
--   Control      control/ioctl.c: the bytes of a request (Wire), the command handlers (Commands), the checks
--                and the dispatch (Dispatch), the device with its handles (Device), and the consumer
--                thread as interleaved steps (Consumer)
--   Wfp          wfp/wfp_objects.c (Objects) and wfp/wfp_manager.c (Manager)
--   Tests        the theorems at concrete inputs
--
-- Conventions: an unsigned integer is a native number, and wrap-around is written out (u64 is
-- `% 2 ^ 64`); the LONG of a rundown counter is its 32-bit pattern. A snapshot is a cell of a heap
-- from addresses to contents, and a section that reads or frees a freed cell has no result. A call that
-- holds the store lock gets as arguments whether the pool has memory. Time is a parameter. The
-- loops of the source are recursions on a list or on the number of rounds left, so none needs more fuel
-- than the source has rounds: SkRetireDrain has 51, ShRundownDrain one more than its retries, as do the
-- calls that are made again on a busy object.
--
-- Not modelled: SkPkFormatAddr, the record posts and the thread of telemetry, driver entry and the
-- operating system's calls. The tables of layers and identifiers of wfp/ are constants without a
-- model.
pub mod Prelude
pub mod Packet
pub mod Rules
pub mod Runtime
pub mod Status
pub mod Tests
pub mod Telemetry
pub mod Control
pub mod Wfp
