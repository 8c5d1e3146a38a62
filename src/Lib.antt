-- ===== src/Lib.antt =====
-- A model of the runtime under api-python/platform_runtime: the durable task engine with its
-- plans, inbox and schedules, the agent loop that plans through it, the tools' registry, the model
-- calls with their retries, and the usage budget that pays for them; and of two rules of the
-- application over it, the trust ladder and the daily limits.
--
-- Parts and files. The engine and the budget keep their state in tables of one SQLite file, change
-- it in transactions (`Engine.tx`, `BEGIN IMMEDIATE`) and write an audit row with most changes.
-- * api-python/platform_runtime/usage_budget.py. `Ledger` has the rows of its four tables, the
-- conditions of its queries and its checks of arguments; `Host` what a transaction reads of the
-- world; `Budget` the sweep of old calls and the settlement of a row; `Budget.Admit` `configure`,
-- `summary` and `reserve`; `Budget.Calls` `dispatch`, `uncertain` (`mark_uncertain`), `cancel`,
-- `release`, `settle` and `reconcile`; `Budget.Requests` histories of these calls. The other
-- modules below `Budget` are proofs, named for what they prove.
-- * api-python/platform_runtime/engine.py. `Engine` has the rows of p_tasks, p_steps, p_approvals,
-- p_devices, p_freeze and p_audit, the roll-up of a task's status (`_refresh`) and the authority
-- checks; `Engine.Submit` `_create_task`; `Engine.Claim` `claim` and `finish`; `Engine.Operate`
-- `approve`, `cancel`, `reconcile`, `freeze` and `device` (`enroll`); `Engine.Histories` histories
-- of these operations. The other modules below `Engine` are proofs.
-- * Plans, of the same file. `Plans` has `_preauthorized`, `_validated`, `_origin` and
-- `_operator_origin`; `Plans.Submission` `_submit` and `operator_reply`; `Plans.Dispatch`
-- `dispatch_allowed` and `tick`, whose handler is an argument, a function of the
-- step and of the tables to its outcome and the tables after it, as are the other transactions that
-- may come between the tick's own; `Plans.Schedules` `schedule` and
-- `run_schedules`. The rest below `Plans` is proofs.
-- * api-python/platform_runtime/tools.py. `Tools` has `validate_schema` over decoded JSON values,
-- and the registry: `add`, `get` and `register_once`. Below it are proofs.
-- * api-python/platform_runtime/agent_loop.py. `Agent` has the rows of p_agent_runs and
-- p_agent_turns, `_stop`, `_observations` and the engine's `require_task_parent`; `Agent.Runs`
-- `create` and `cancel`; `Agent.Reserve` `_reserve`; `Agent.Commit` `_decision`, `_commit` and
-- `_repair`; `Agent.Planning` `_planner_dispatch_allowed`, `plan` and `reserve_next`, with the
-- planner as an argument; `Agent.Machine` the moves of a run's row as a relation; `Agent.History`
-- histories of these transactions and the engine's. The rest below `Agent` is proofs.
-- * The inbox of api-python/platform_runtime/engine.py. `Inbox` has the rows of p_events and
-- p_quota, `accept_event`, `claim_event`, `retry_event` and the write at the end of
-- `settle_event`, which takes the outcome of the plan as an argument; `Inbox.Replay` histories of
-- these calls.
-- * The model calls. `Transport` has `classify`, `retry_wait` and `with_retries` of
-- api-python/platform_runtime/model_transport.py and `token_cost` of usage_budget.py. The attempt,
-- the clock and the sleep of `with_retries` are arguments, as they are in the code, over a state
-- of the caller's choice; waits are exact in ticks of 1/4000 second.
-- * `metered_completion` of usage_budget.py, which joins the two where pricing is configured:
-- `Metering` has its attempts (`metered_attempt`) and their retries; the cost of a response, with
-- `provider_tokens`, is an argument.
-- * The application's rules. `Trust` has `level`, `set_level` and `record` of
-- api-python/app/ladder.py, with the calls' histories in `Trust.Climb`; `Limits` `check_and_hit`
-- and `warned` of api-python/app/limits.py. The rest below them is proofs.
-- * `Base` and its children have what the parts share: Boolean tests, lists, errors and results,
-- texts, and tables as lists of rows with the statements on them (`first` for `fetchone`,
-- `update_where` for `UPDATE … WHERE`, `select` and `count`). `Tests` has runs at concrete values.
--
-- How code and model correspond. A method is a function from the tables to a `Result`: a value
-- with the new tables, or the exception that rolls the transaction back; `commit` is the end of
-- `tx`. A history is a list of calls, each with its own reading of the clock, of fresh ids and of
-- the authority callback, since SQLite runs one write transaction at a time. Within a transaction
-- the clock is read once, and a clock that stands still for one transaction is what the model
-- assumes. A query's row is the first that matches. Columns that
-- no modelled code reads are left out: `updated` of p_tasks, `created` of p_audit, `seen` of
-- p_devices. Unique keys are checked where rows are
-- inserted, as `integrity_error`; foreign keys and p_steps' UNIQUE(task,position) are not, since
-- no modelled statement can break them. Amounts are natural numbers; the code's own checks refuse
-- negative ones, and a subtraction that would go below 0 is written as one that stops at 0: in a
-- balanced ledger no account holds less than a reservation that is subtracted from it. Times are
-- natural numbers. Error rates are ratios of natural numbers, which the code compares as
-- floating-point numbers. A text is a `String` of the standard library, a value of a closed set a
-- data type, and JSON that is only stored (arguments, results) the text of its encoding. Loops run
-- over lists and are structural, so that nothing here needs fuel; the loop of `with_retries`
-- counts the attempts that are left, starts with the code's three, and its last attempt never goes
-- on, and the loop of `plan` the repairs that are left, at most one.
--
-- Parameters, for what is decided elsewhere: the authority callback, the clock, uuid4, SHA-256 of
-- a request (`Digest`), an agent's policy, whether an agent run still stands behind a task (a
-- reading of `task_parent` of `Agent`, in the engine's own calls), and the plan's second
-- validation (`_validated` after `_task_origin`), which gives a fingerprint or one of the
-- exceptions; what a connector, Google or database step is bound to; the sizes and digests of what
-- the agent loop encodes; the key of a due schedule; what the cache of the application answers;
-- the planner and the handlers of tools; and whether a tool accepts a plan's arguments (`accepts`
-- of `Spec`), which the code decides by `validate_schema` on their decoded values.
--
-- Not modelled: the checks of configuration in `metered_completion`, the request bodies of the
-- providers, what `settle_event` plans, the memory and records of the engine, and the wording of
-- what a planner is told of a rejection; and, since they are input and output, HTTP routes,
-- provider adapters, the user interface, the scripts. Nothing here is about the other modules of
-- the runtime: inventory, manufacturing, OEE, ERP, CRM, the business graph, documents, connectors,
-- channels, escalation and reports.
pub mod Base
pub mod Host
pub mod Ledger
pub mod Budget
pub mod Engine
pub mod Inbox
pub mod Transport
pub mod Metering
pub mod Tools
pub mod Plans
pub mod Trust
pub mod Limits
pub mod Agent
pub mod Tests
