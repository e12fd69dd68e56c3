-- ===== src/Lib.antt =====
-- A model of Solana-Agent's governed execution: commands are planned in a journal, judged by a policy
-- or by an operator's approval, run by an executor, and recorded as events.
--
-- The parts, and the files that model them:
-- Contracts: the records and the statuses of solana_agent/contracts. `may_transition` is the test of
--   `require_command_transition`, `may_step` that of `require_mission_step_transition`. A record has
--   the source's fields; a time is a number of whole seconds, where the source has its ISO text.
--   Moves says, column by column, what a change of status leaves in a row.
-- Json, Env: JSON values as Python's `dict` and `list` hold them, and what the program takes from
--   Python's library: `sha256`, `json.dumps`, `str(exc)`, the regular expressions of redaction.py and
--   `pathlib`. They are fields of a record `Env` that every definition using one takes as an argument;
--   no theorem assumes more of them than that they are functions.
-- Exec: methods over the database. An action takes the store (the tables, the readings of the clock,
--   the fresh identifiers, the requests that executors had) to a result or an exception and the store
--   after it. `transaction` rolls the tables back where its body raises, `catch` is `try`/`except`.
--   Exec/Preserves, Exec/Silent, Exec/Yields and Exec/Inversion reason about actions.
-- Storage: `JournalRepository` of solana_agent/storage/repositories.py, a file for each table, with
--   the PRIMARY KEY, UNIQUE, CHECK and REFERENCES constraints of solana_agent/storage/database.py that
--   the model's values can break. A row is written at the front of its list. `append_event` is
--   `_append_event`. Storage/Journaled is the invariant of the journal.
-- Authority: solana_agent/authority. Redaction is `redact_mapping` and `redact_text`; Rules is
--   `DEFAULT_RULES`; Keys the base58 and hash tests; Inputs and Policy `PolicyEngine.evaluate` with its
--   guards in the order of the source; Approvals is `ApprovalService`.
-- Execution: solana_agent/execution. Executor has the request and what an executor can answer, Journal
--   `CommandJournal.plan`, `validate` and `cancel`, Journal/Run the call and the record of its answer,
--   Governed `execute`, Governed/Approved `execute_approved` and `recover_orphaned_commands`.
-- Gateway: the request journal in front of an external backend (gateway). Protocol is `GatewayRequest`
--   and the response envelopes, Journal `GatewayJournal`, Service `ExternalExecutionGateway.handle`. The
--   backend is a parameter, whose answer may depend on all the requests that it had. `die_reserved` and
--   `die_dispatched` are a process that ends between two of the journal's transactions.
-- Gateway/Solana: the backend of gateway/solana_prepare.py and gateway/solana_execute.py. Its state is a
--   `World`: the two tables, the readings of the clock, and the requests that the RPC received, from
--   which Sent reads what it was asked to send. A method returns, raises, or the process dies in it, at
--   a point of gateway/chaos.py. Library holds what the code takes from solders, rfc8785, base64 and `datetime`,
--   and the tests of inputs; Rpc is `JsonRpcClient`; Preparations and Attempts are the two stores;
--   Payload, Chain and Prepare are `prepare`; Validate and Execute are `authorize_and_execute`; Inspect
--   and Refresh are `status`, `recover` and `evidence`. Runs has sequences of commands, each by a
--   process with settings of its own. A row of JSON text holds the value, and an RPC answer has no
--   float, which the code would refuse in a snapshot.
-- Missions/Graph: solana_agent/missions/graph.py. `Progress` is the state of the loop of
--   `topological_steps`; Counts and Visits count texts in lists, Order has the loop's invariant,
--   Sorted the steps that it returns. Missions/Definitions has the dicts and hashes of
--   solana_agent/contracts/mission.py.
-- Tests: a machine, a journal and a policy on which the theorems are applied.
--
-- How they interact: `CommandJournal` takes a policy and the lifetime of approvals, writes through the
-- repository, and hands the executor a request built from the row that the repository returned.
--
-- Bounds: the loop of `topological_steps` takes as fuel the number of the steps, and puts one step into
-- the result in each turn, so the fuel is enough. Every other loop of the modelled code runs over a
-- list. Lamports, exit codes and time limits are Python integers, so nothing wraps around; the error
-- that SQLite gives for an integer of more than 64 bits is not modelled.
--
-- Not modelled: the migrations and the methods that only list rows; `detected_paths`, which no
-- caller reads; the mission engine, its templates and its loader (solana_agent/missions); the numbers
-- of JSON that are not integers; the gateway's command line; the runtime, the adapters and the command
-- line, which are I/O. One process is modelled: another one's rows can appear between two calls but
-- not inside one.
pub mod Prelude
pub mod Json
pub mod Contracts
pub mod Exec
pub mod Execution
pub mod Storage
pub mod Env
pub mod Authority
pub mod Gateway
pub mod Missions
pub mod Tests
