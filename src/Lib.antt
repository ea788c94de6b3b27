-- ===== src/Lib.antt =====
-- A verification library of modbusreg: the registry of Modbus profiles, whose core discovers SunSpec
-- model chains over replayed reads, keeps an attempt ledger with terminal sequences and audit
-- tombstones, and codes the records of vendor protocols.
--
-- The parts and their files:
-- - Base: lists, maps, Boolean tests and results with an error (the `(value, error)` of Go), strings
--   as lists of bytes, decimal digits.
-- - View: `LogicalViewRecord` of observation.go, one logical read with its transport provenance. The
--   chain reads it; function codes and transports, which the Modbus runtime defines, are numbers.
-- - SunSpec: the types of sunspec_core_types.go.
--   SunSpec/Plan: `NewSunSpecChainPlan` of sunspec_chain_plan.go. The nonce that the process-wide
--     counter hands out is an argument.
--   SunSpec/Chain: the state of `SunSpecChain` of sunspec_chain.go, its constructor, `fail`,
--     `validateSourceIdentity`, `accept` and `queue`; SunSpec/Chain/Steps: `signature`, `header`,
--     `payload` and `admitReplay`. A method takes the chain and gives the chain and its result, so
--     what an error path leaves behind is visible. A Go map is an association list, and a Go panic
--     on a short word list is an error of its own. The builder of structural candidates
--     (`sunSpecV2DERTripLVStructuralCandidate`) is an argument: the chain stores what it returns and
--     never reads it.
--     Phase states the phases of a discovery, Good, HeaderSteps, PayloadSteps and SignatureSteps
--     take one method each through them, Admission the whole call, and Runs any sequence of calls.
--   SunSpec/SourceRange: both constructors of a source range of sunspec_nested_layout.go, with
--     their arithmetic on uint32 and uint16 written out. Words reads spans as the words they name,
--     Slice is about the selection, Wrap about the sum that wraps around. SunSpec/FactPath: the
--     constructor of a fact path.
--   SunSpec/NestedLayout: the templates of sunspec_nested_layout_builder.go and their validation;
--     Build the layout of an occurrence, whose walk counts entries first and materialises them then.
--     Twin relates the two walks, Walks takes each part of a walk through that, and Placement has the
--     theorems. A group holds its children in a list type of their own, and a Go map of counts is an
--     association list to which the latest count is added in front.
--   SunSpec/Value: `decodeSunSpecValue` of sunspec_value.go, with integers and floats as their bits.
--     An index out of range, which panics in Go, is `none`. Datum and Text have the theorems.
-- - Ledger: the enums and audit records of runtime_ledger.go.
--   Ledger/Limits: `LedgerLimits` of limits.go and its validation. A Go int that is not positive
--     stands as 0.
--   Ledger/Tombstone: the validation and the JSON form of the tombstones, and the check of the two
--     largest; Ledger/Tombstone/Size its purpose.
--   Ledger/Sequence: the reservation of terminal sequences, on the two fields it uses.
--   Ledger/Attempt: the critical sections of `Claim`, `Seal`, `Admit`, `Publish`, `Cancel`,
--     `persistTerminalOutcome` and `finalizeTerminalAttempt` on `runtimeAttemptState`. The sections
--     of concurrent callers interleave as the steps of a relation; what the Modbus runtime and the
--     committer return is an argument of a step. Lifecycle has the relation and its invariant,
--     Progress what no step undoes, Tombstones `terminalTombstones`. Calls adds the callers: which are
--     between the two sections of `Claim`, and how often a capability was invoked; Calls/Held and
--     Calls/Moves relate them to the entries, and Calls/Once draws the conclusions.
--   Ledger/Restart: `validateLedgerRestartState` and `CoversTerminalWatermark`. The bounded encoder
--     `marshalBounded` of serialization.go is an argument. History has the theorems on one state, Covers
--     that on two.
-- - Budget: `preflightAggregate` and `consumeAggregateValue` of limits.go, on a tree with the kinds of
--   values that they tell apart; Budget/Cost says what each is charged.
-- - Tesla: the HSC and FC100 records of the Tesla profile. Bytes are numbers, and `modbus.MaxPDUSize`,
--   the constructor of Modbus requests and the SHA-256 digest are arguments.
--   Tesla/Varint: the decoders and the encoder of protobuf integers; Tesla/Field: one length-delimited
--     field, read by `decodeExactLengthDelimitedField` and written by `BuildTeslaFC100OperationRequest`.
--   Tesla/Envelope: the envelopes, responses, exchanges and syntactic requests of tesla_hsc.go,
--     tesla_hsc_request.go and tesla_hsc_native.go.
--   Tesla/Operation: the requests and response sequences of tesla_fc100_operation.go.
--   Tesla/Wire: the key scanner of tesla_fc100_tedapi.go. Message has protobuf messages as nested
--     fields, Rounds the rounds of the loop on each.
--   Tesla/Matrix: the request forms of tesla_fc100_request_matrix.go.
--   Tesla/Profile: `TeslaHSCProfile` of tesla_hsc.go and the gates in front of its requests.
--   Tesla/Replay: the five redacted replays, their sequences and `DecodeQualifiedFunction`; Agreement
--     compares them with Tesla/Operation. The five decoders have one body, with the message, the family
--     and the tag as arguments.
--   Tesla/Codec: the profile as a codec of the registry.
-- - Registry: `NewQualifiedFunctionRegistry` and `Dispatch` of qualified_function_registry.go, over any
--   codecs. The exchange with the device is an argument; what a dispatch has sent is part of its result.
--
-- Loops are structural recursion over the list that the Go code ranges over, so no fuel is needed,
-- except for the digits of a uint64, of which there are 20 at most, and the scan of protobuf keys, whose
-- rounds are the bytes of the message, since each round reads one at least.
--
-- Not modelled: locks, contexts and waiting callers (a critical section runs as one step), the text of
-- error messages, JSON decoding, the commit of the restart state, the vendor adapters for Huawei,
-- Growatt, Fronius and Outback, the catalogue and the geometry of single SunSpec models, the Gen3
-- and legacy records of Tesla, and the tools and fixtures.
pub mod Base
pub mod View
pub mod SunSpec
pub mod Ledger
pub mod Budget
pub mod Tesla
pub mod Registry
