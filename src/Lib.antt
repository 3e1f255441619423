-- ===== src/Lib.antt =====
-- A model of the tax-filing conformance program: a product service with durable commands
-- (internal/accountable), an external provider with a durable ledger (internal/authority), and the
-- identities that tie the two together (internal/domain). A workflow records a submission intent with
-- the service, submits the operation to the provider, and marks the outcome with the service. Each
-- call may be repeated, each answer lost, each database write can fail or end unacknowledged.
--
-- Domain.antt models internal/domain/types.go: messages and constants. Domain/Identity.antt has
-- WorkflowID, ProviderOperationID and the four command keys; Domain/Decimal.antt prints integers.
--
-- Domain/Input.antt models internal/domain/input.go: the attempts of DecodeFilingInput, with the one
-- variable that they share. Domain/Json.antt has the JSON values and the part of encoding/json that
-- the decoder uses; the text parser itself is a parameter.
--
-- Accountable.antt models internal/accountable/server.go. Tables: the schema and the SQL statements on
-- rows. Command: CommandRequest, CommandResult, commandTransitions, commandAllowsState. Apply:
-- applyCommand, cut into replay_command (the key is known), first_command (it is new), run_command (the
-- transaction) and finish (its commit or rollback). Handlers and Queries: the HTTP handlers. Service:
-- the handlers that change the tables, as one type of request. Client: the calls of the service's
-- client. History: sequences of commands. Permitted: which command may move a filing where, from the
-- names of the states and commands alone. Settings: the environment and NewServer.
-- The transactions are serializable, so every concurrent run is a sequence of calls; the theorems are
-- about all sequences.
--
-- Authority.antt models internal/authority/server.go. Ledger: the server's memory, its row in
-- authority_state, persistDurablyLocked, restore, NewPersistentServer. Submit: handleSubmit, one
-- function per scenario, and handleStatus. Completion: the goroutine of scheduleCompletion as a task
-- with stages, advanced by one critical section or one delivery at a time, and resumePending. Client:
-- Client.Submit and Client.Status. Events: calls, goroutine steps and restarts, in any order. Every
-- state change of the server is made under its lock, so every interleaving is a sequence of events.
-- Process: the server together with the goroutines that it has started, which a restart replaces by
-- those of resumePending, and the callbacks that they POST; Process/Opening has the errors of
-- NewPersistentServer. Settings: what main of cmd/authority/main.go reads from the environment.
--
-- Workflow.antt models internal/workflow/filing.go. Steps: what one execution sees of the DBOS runtime,
-- one result per step, as a parameter, and the calls that the steps make. Outcome: mapOutcome and
-- recordOutcome. Filing: the workflow function, one definition per branch; its wait makes as many
-- rounds as StatusPolls says. Reconcile: the scheduled loop, one round per filing that is due. Evidence
-- and its children are about what an execution, or a round of the loop, has seen before it acts.
-- Settings: Configure.
--
-- Worker.antt models cmd/worker/main.go. Callbacks: POST /callbacks, which signals the workflow. Events:
-- one poll of consumeEvents, from the fetched records to those that are committed. Kafka, DBOS and the
-- service are given by what they answer while one record is handled. Delivery ties the endpoint to the
-- provider's sendCallback. Settings: what main configures with envOr, envInt and envDuration, which are
-- in Common/Env.antt.
-- Producer.antt models cmd/producer/main.go, which publishes the events.
--
-- Operator.antt models cmd/opsctl/main.go. Enqueue: enqueueFiling. Reconcile: reconcile and
-- finalCommandType, as the calls that change something and the lines that are printed. Agreement and
-- Matching set it beside the Reconcile of internal/workflow/filing.go. Commands: send and start. Tool:
-- the subcommands of main, each as the calls that it makes and the code that the process exits with.
--
-- Chaos.antt models internal/chaos/chaos.go: Init and Crash, over the environment and the files.
--
-- System.antt puts the parts together: the submissions of any number of executions of the workflow, in
-- any order, are events of the provider, and their commands are calls of the service. In System/Honest
-- the steps of an execution return what the provider answered at some time of its history, through the
-- client, or a callback that it POSTed; System/Truth adds the rounds of the safety net and of opsctl, and
-- System/Reported the service's answer to the command of the outcome; System/Decided sets what an
-- execution returns beside the provider's record.
--
-- A fault is an argument: Faults and Commit for the service's statements, Persist for the provider's
-- write. Times are integers, given by the caller. Maps are association lists (Common/Maps.antt). A
-- JSON body is given as what decoding makes of it, and a text that is parsed by its parser. The loops run
-- over lists or over a count, and the ten delivery attempts of a callback are the stages of a task.
-- Only `follow` of Authority/Ending.antt and `posts_along` of Authority/Posting.antt have fuel, a number
-- of goroutine steps: 32 are enough, since the goroutine wakes, makes at most ten attempts for
-- each of at most three callbacks, and finishes.
--
-- Not modelled: the text that Reconcile returns and what opsctl prints, but for the first word of a line
-- of its reconcile; the main functions of the programs under cmd/ where they start servers, queues and
-- clients; logging and the timeouts of HTTP servers. A chaos point ends the process; in the models of
-- the parts that is a restart.
pub mod Accountable
pub mod Authority
pub mod Chaos
pub mod Common
pub mod Domain
pub mod Operator
pub mod Producer
pub mod System
pub mod Worker
pub mod Workflow
