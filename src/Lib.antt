-- ===== src/Lib.antt =====
-- Work assistant: the Host side of a chat assistant that runs an Agent with Tools
-- (backend/src/work_assistant). An HTTP API (api.py) lets the service (service.py) start a Run; the
-- service asks the policy kernel (execution_policy.py) for a `RunExecution`, drives an Agent runtime
-- (agent_runtime.py) with it, appends its events through the repository (repository.py), and
-- records an outcome and the usage of the Run (usage.py). What an Agent may do is declared in
-- agent_definition.py, and which Tools there are in capabilities.py.
--
-- The files, by the part of the program:
--   Prelude     lists, dicts, texts, and code that may raise; `Exec E S A` is `S → Result E A × S`,
--               with the state beside an error too, since what was written before a raise stays
--   Agents      backend/src/work_assistant/agent_definition.py: the two patterns as automata
--               (Pattern), the definitions with their validators (Definition)
--   Capabilities  backend/src/work_assistant/capabilities.py: dicts of JSON values (Values), Tools
--               and their outcomes (Tools), `ToolRegistry` (Registry), the decision of a policy
--               (Decision)
--   Usage       backend/src/work_assistant/usage.py: metrics and their aggregation (Metric),
--               `RunUsage` (Run), `RunUsageLedger` (Ledger, with Finish for its ends), its snapshot
--               (Snapshot)
--   Policy      backend/src/work_assistant/execution_policy.py: the violations, `RunExecution`
--               (State) and its methods by what they are about (Reserve, Steps, Calls, Events,
--               Results), the outcome evidence (Evidence); Runs has its histories. The plan
--               evidence (Plan), `AgentPolicyKernel` (Kernel), `execute_tool_call` (Execute) and the
--               methods that hand on to the usage ledger (Metering),
--               with the layer versions of backend/src/work_assistant/context_builder.py
--   Schemas     backend/src/work_assistant/schemas.py: strict payloads of texts (Fields) and the payloads
--               of the public events (Payload)
--   Repository  backend/src/work_assistant/repository.py over the tables of
--               backend/src/work_assistant/models.py (Records): the checks of access, with
--               backend/src/work_assistant/authorization.py (Access), what is read off a row (Views),
--               creation (Creation), start and events of a Run (Events), model attempts (Attempts),
--               the three ends (Transitions), recovery at the start of the process (Recovery), and
--               the queries (Reads). Lives has the abstract machine of a Run, the effect of each
--               method on the tables, and the histories of a repository
--               (Lives/Histories, Lives/Refinement), with what recovery leaves (Lives/Orphans);
--               Creation/Replays is about repeated requests, and Views/Metering compares the usage
--               that is added up from the rows with the snapshot of the ledger, but for the durations,
--               which the two measure by different clocks
--   Identity    backend/src/work_assistant/identity.py: the validators of a Principal, authentication
--               and the choice of a provider, with the mode of identity of
--               backend/src/work_assistant/settings.py (Identity/Trusted proves what they let through)
-- A method is a function with the name of the source, and its state goes in and out:
-- `reserve_tool_calls c now calls s` is the result and the state after it, of the execution `s` that
-- was built with `c`.
-- The other files of a directory prove things of these; the Tests run one Run and one ledger.
--
-- How the source is read:
--   a reading of the clock is an argument, in whole microseconds, and milliseconds are an integer
--   division; `uuid4` is an argument too, and new where a history says so; bounds `ge=0` are the
--   type of natural numbers; a pydantic model is built by the function that runs its validators;
--   a dict is a list of pairs in order of insertion, and a set a list without repetition; a JSON
--   value that is no text is a number, equal numbers for equal values.
--   A durable writer of the ledger is a function that answers whether it returns or raises, and
--   `journal` lists the calls that returned. In a history the answers may change from
--   one step to the next, so that a row may fail and be written later. `begin_attempt`, a finish and a
--   settlement are split where they await, so that other methods come between; `begun` holds the
--   starts that wait for the start writer.
--   A transaction of the repository is one step that commits or leaves the tables as they were:
--   it holds the lock of the row that it changes. A history may also insert a first Run in any state,
--   since the lookup before it locks nothing where the thread is not there. Constraints of the tables
--   are checks that raise `integrity_error`; foreign keys and the widths of columns are not modelled.
--   Recursion is on the list that the source loops over; there is no fuel.
--
-- What is a parameter: SHA-256 and the JSON encoding behind fingerprints, a Tool's schema, summary
-- and output parser, the decision of a capability policy, the handler of a Tool call and the
-- emission of its events, an external identity provider, and the Unicode category of a character.
-- What is not modelled: the texts of the context layers, the Agent runtime, the service, the API, the
-- cleaning of the texts of requests, the settings but for the mode of identity, and the frontend. Error
-- messages are named by constructors, except where the source shows them to a caller.
pub mod Prelude
pub mod Usage
pub mod Agents
pub mod Capabilities
pub mod Policy
pub mod Schemas
pub mod Repository
pub mod Identity
