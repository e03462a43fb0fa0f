-- ===== src/Lib.antt =====
-- Mini-OGAS: a platform that plans, dispatches and supervises the production of a small factory. A
-- central API keeps the state of the nodes, the commands for them and the execution of production
-- orders; agents on the nodes claim commands and report results; services around it plan and
-- advise.
--
-- The parts that are modelled; the files are in services/central-api/app, but for the planner:
--   Safety     safety_governor.py: the gate in front of risky actions. `review_control_action`
--              and `review_manual_approval` are SafetyGovernor's methods, on one Request.
--   Commands   command_manager.py and NodeCommand of models.py: the life of a command. Model has
--              the record and the status sets; Methods has one function for each method of
--              CommandManager, on the list of commands. A method that changes commands in place
--              returns the list with them changed, and one that raises returns the error.
--              Manager/Calls makes the methods calls that come one after another. Verifier and
--              Evidence are command_verifier.py: `observe` is CommandVerifier.observe, with the
--              command as it leaves it; Readings has what is made of one observation.
--   Execution  repositories/execution.py: the operations on operation tasks and orders, on the
--              tables of core/phase3_schema.py and the columns of core/phase6_schema.py that they
--              read. Model has the tables, Access and Status what the operations share, Tasks the
--              operations, Governed their idempotency keys, Calls the calls that the API makes of
--              them, Effects and Soundness the changes and the invariant, Runs the sequences of
--              calls, Keys, Holds and Readiness repeated requests, holds and the start of a task.
--              Orders are the operations on orders, on a Shop: the tables with the master data
--              that they read; Production has create, attach and release, Dispatch and Closing
--              the others.
--   Planning   services/production-planner/app/main.py: `plan` is the endpoint's function, on a
--              PlanningRequest; `item_of` is the body of its loop.
--   Material   repositories/material_flow.py on the tables of core/phase4_schema.py, with the
--              payloads of domain/material_flow.py. Model has the tables, Access and Reads the
--              look-ups, Balances the change of a balance, Postings the change together with its
--              movement's row; Catalog, Movements, Transformations, Reconciliation, Adjustments
--              and Views have the operations, Genealogy the recursive queries. Ledger has the
--              invariant, and in Ledger/Runs the sequences of operations.
--   Outbox     core/outbox.py: the durable queue, one function for each method of
--              OutboxRepository on the list of rows. Rounds, Selection and Drained are about
--              workers, Finals about what stays.
--   Principals core/principals.py on the tables of core/principal_schema.py: `rotate` is what
--              `rotate_node_credential` and `_rotate_nonhuman_credential` share. A call is made
--              of transactions, and one that raises leaves what those before it left. Live,
--              Effects and Runs are about live credentials over calls, Access about whom a token
--              authenticates.
-- Prelude has the Boolean tests, list functions, texts, results and transactions that these share.
-- A command is reviewed by the gate before it is handed to the manager; execution reads
-- maintenance orders and tools before a task runs. The material flow reads tasks, maintenance
-- orders and quality holds.
--
-- Operations are total functions, and every loop is a structural recursion on a list, so there is
-- no fuel, but for `decimal`, which runs as many rounds as its number, enough for its digits. A
-- transaction of the database is an Action: it takes the tables and returns the result with the
-- tables, or the error. Times are natural numbers, and an operation takes the time as an argument.
-- Quantities are whole multiples of 10⁻⁹, the tolerance of the source, rates whole millionths, the
-- planner's indexes whole hundredths. The digest of a request or of a token is a parameter, and so
-- are random tokens. The trigger on maintenance is modelled, and the trigger on transitions is
-- `task_follows`; the others are not, but for the one of quality holds on movements. A row that is
-- locked or changed by another transaction is not modelled: the database runs the transactions one
-- after another.
--
-- Not modelled: most methods that only read, texts that are only shown, SQL, HTTP, message
-- streams, the user interface, and the services other than the central API and the planner. The
-- parameters of a command are of any type in the source: an idempotency key that is no text, and a
-- time to live that is negative or no number, for which `int` raises, are left out.
pub mod Prelude
pub mod Safety
pub mod Commands
pub mod Execution
pub mod Planning
pub mod Material
pub mod Outbox
pub mod Principals
