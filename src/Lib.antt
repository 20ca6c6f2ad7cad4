-- ===== src/Lib.antt =====
-- The economizer module of aimee and the bus that it is reached over: a library of definitions
-- translated from the Go sources, and the theorems on them.
--
-- The economizer shortens the requests of an agent before they are sent to a model provider. A
-- request passes the gateway, which takes a snapshot of its messages, has them reduced, and installs
-- the reduction if a decision and the structural check allow it; the provider's answer can undo it.
-- The structural check repairs transcripts. Beside it stand the strict JSON compaction, the planner
-- that authorizes a transform of a call only if its cost is proven lower, the single-use capability of a
-- reduction, the plan of a task, the token budgets, the page table of evicted coordinates and the
-- inventory of an episode. The stages are reached by frames and module messages on the bus.
--
-- Parts and files:
--   * Prelude: shared names, Boolean tests, lists over native numbers, byte strings, signed integers,
--     int64, bits and masks.
--   * Json: server-go/modules/economizer/jsonval.go and the tree and printer of cjson.go. Objects are lists of
--     fields, numbers are the bit patterns of float64. A change in place is a function to the new tree.
--   * Repair: repair.go. IdSet and Collect gather the ids of calls and results, Orphans places and
--     drops the messages of each wire shape, History is MessageHistoryRepair. Scan and Pairing state
--     independently of them which ids a transcript calls and answers.
--   * JsonCompact: json_compact.go. Lexical and Parser are the validator over the bytes that are left,
--     Copy the copy pass as a fold over the flags inString and escaped, Compact is JSONCompact. Literals
--     states by the grammar of string literals, without the flags, what the copy pass may take.
--   * Gateway: gateway.go (Decision) and gateway_wire.go (Wire, After). The state is the body of the
--     request, its MutateCtx and a log of the calls made to the session store and to the counters.
--     Answers follows one request through any sequence of statuses and stream error frames.
--   * Proof: proof.go, from Money and Validate to Cost and Evaluate.
--   * Fold: fold.go and register.go. Excerpt and Skeleton write the folded messages, Digest is the
--     guard of the frozen prefix, View is FoldView, Compress is CompressView. The coordinate closet
--     (closet.go), the spelling of a number and CompactBody (compact.go) are interfaces.
--   * Provenance, TaskRail, Budget, Recall, Episode: provenance.go, rail.go, budget.go, recall.go and
--     episode.go.
--   * Bus: server-go/bus/wire.go (Frame), module_protocol.go (Message), ring.go (Ring), region.go
--     (Region), client.go (Client), module_caller.go with replyModuleResult of module_runtime.go
--     (Caller), and the loop of module_runtime.go (Runtime), whose jobs end as steps of their own. A
--     ring is its two uint64 cursors and its slots; its producer and its consumer take turns in any
--     order, as steps of a relation. What a Go slice expression does out of range in Poll is a result of
--     its own. The bus below a module call is an interface, and what a caller meets while it waits is a
--     list.
--
-- Conventions: a Go string or []byte is a list of byte values; an unsigned field is a number, its width
-- a predicate where it matters; an int is an int64, an integer that wraps around. A nil receiver or
-- context, which the methods test for, is not modelled. A missing pointer is `none`.
--
-- Fuel: the string loop of JSONCompact runs on the bytes left, each round of which takes at least one
-- byte; values recurse on the depth, which the source bounds by 64 itself, and the loops of arrays and
-- objects on the bytes left; `%d` has one round more than its number, and the pieces of a body one more
-- than its length. All other loops are structural.
--
-- Outside the model: encoding/json behind ParseJSON, SHA-256, the session store, the counters and the
-- reducer are arguments. The closet, the compaction of bodies, the condensation, the request planners,
-- the sockets, goroutines and mappings of the bus and the C client are not modelled.
pub mod Prelude
pub mod Json
pub mod Repair
pub mod JsonCompact
pub mod Gateway
pub mod Proof
pub mod Provenance
pub mod TaskRail
pub mod Budget
pub mod Bus
pub mod Recall
pub mod Episode
pub mod Fold
