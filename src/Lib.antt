-- ===== src/Lib.antt =====
-- go-temporal-ai-sdk: streaming previews and durable records of model calls, and the stores behind
-- them.
--
-- A model call streams its answer. The relay (updates/relay.go) turns the parts of the answer into
-- preview events, and hands them to a connector, which stores previews and publishes events to
-- subscribers. A workflow writes records, which supersede previews, through the same connector, and
-- ends the stream. The connectors keep all of it in a DynamoDB table.
--
-- Prelude holds what the parts share: tests on numbers, integers, dictionaries, texts.
-- Updates models updates/types.go (Types, Validation: ValidateEvent and its helpers),
--   updates/errors.go (Errors), updates/records.go (Records) and updates/connector.go (Connector: the
--   interfaces as records of actions on a world, CompositeConnector and NoopConnector;
--   Connector/Order is about the composite).
-- Relay models updates/relay.go: Part (StreamPart, Options), Classify (classifyPart, chunkFromPart,
--   mergeScope, sanitize), State (Relay, previewState, snapshotDue, handleError), Preview (the names
--   that ensurePreview makes), Accept (Accept, ensurePreview, checkpoint), Complete (Succeed, Fail,
--   Cancel, Receipts). Rules says how a property of the relay's state passes through Accept and
--   complete, and Failure, Freshness, Validity, Envelopes and Delivery apply it; Publishing is about the
--   chunks that Accept publishes.
-- Redis models connectors/redis-dynamodb: Options and Resolver (options.go, resolver.go), Ulid
--   (ulid.go), and the methods of connector.go as programs over the calls they make: Prog (the
--   language), Item (the items of the table), Preview, Records, Events, Connector. A program goes on
--   with any answer to a call, so that other clients may act between two calls. Table lets any number
--   of programs work on one table, with what DynamoDB documents of its conditions as hypotheses; Guard,
--   Writes and Methods say how a property of every write carries over to the table, and Kinds, Growth
--   and Sequences apply it. A write goes to the key that the method computes: a resolver whose replay
--   attributes replace the key attributes of an item is left out.
-- Activities models activities/nonstream_relay.go, and InvokeTool: Act (a program calls the rule and
--   the function of a tool and the store of artifacts, and goes on with any reply), Tool (tool.go) and
--   Artifacts (artifacts.go). What go-ai validates, the JSON of a value and SHA-256 are parameters.
-- Agents models temporalai: Types and Values (the data of agent.go, approval.go, subagent.go and of
--   activities/types.go and wire.go), Flow (the language: a workflow calls activities, the clock,
--   signals and the subagents, and goes on with any reply; two coroutines interleave by calls of the
--   dispatcher), Records (workflow.go and the identifiers and scopes of agent.go), Approval
--   (approval.go), Definitions (which tools there are and where they run), Tools (one tool call),
--   Execution (the calls of a step, one after the other or in parallel), Stream (what is made of a
--   model's answer), Progress (reports to the parent and records of messages) and Agent (RunAgent).
--   Monitor says what a program does by what it calls, and Runs turns that into statements of runs in
--   a world that answers every call. Recording and Validity apply them to the records of a run, Consent
--   to approvals, Order and Pairing to the results of tools, and Waiting to how runs end
--   (Run) and to what the timeout of an approval measures (Timeout).
--   Subagents models the manager of subagent.go: its table, what each coroutine does to it between two
--   waits, and steps of the coroutines in any order (Sequence); Calls and Routes are about execute,
--   Names about sanitizeSubagentID.
-- Tests holds runs of the definitions and uses of the theorems at concrete inputs.
--
-- A Go error is an option, with `none` for nil, or a result. A method of the relay takes the relay and
-- the world of the connector and the clock, and returns both; a mutex is held for the whole method, so
-- methods do not interleave. Go's int and int64 are integers without wrap-around, but the bytes and the
-- 32-bit buffer of Ulid wrap as in the source. A loop over a map runs over its sorted keys where the
-- source sorts them. Loops are structural; the loops on fuel are that of `%d`, with one more round than
-- the number, and the inner loop of encodeULID, where at most 12 bits wait and a round takes 5.
--
-- Not modelled: JSON (DecodeEvent), the AWS, Redis and Temporal clients, which are calls with any
-- answer, connectors/appsync-dynamodb, and the rest of activities (model calls and the conversion of
-- messages). The loop of an agent takes any answer of the manager of subagents to a tool call.
-- Of a workflow's signals as many are taken as the rounds that the definitions of Agents are given; the
-- loop of RunAgent has as many rounds as it allows steps.
pub mod Prelude
pub mod Updates
pub mod Relay
pub mod Redis
pub mod Activities
pub mod Agents
mod Tests
