-- ===== src/Lib.antt =====
-- A model of bacalhau's job lifecycle, from the requester node's endpoint, job store and scheduler to
-- the compute node's queue and the verification of its results, with theorems about it.
--
-- The parts and how they interact. A requester node keeps jobs and their executions in a job store.
-- Its endpoint and queue admit jobs; its scheduler selects nodes and asks them for bids, and moves
-- executions on by conditional updates of that store, until the results are verified and published.
-- A compute node answers with bids, keeps its own store of executions, queues accepted ones in a
-- buffer until the capacity tracker has room, runs them with its executor, and publishes the results.
--
--   Base, Base/        Go's maps with string keys, results, tests, lists
--   Model, Model/      pkg/model: execution_state.go, job_state.go, job_state_history.go, job.go,
--                      resource_usage.go
--   JobStore/Types     pkg/jobstore/types.go (conditions of updates, Validate), errors.go
--   JobStore/InMemory, JobStore/Executions, JobStore/Queries
--                      pkg/jobstore/inmemory/inmemory.go: CreateJob, UpdateJobState, CreateExecution,
--                      UpdateExecution, GetJob, GetJobState, GetInProgressJobs
--   JobStore/Stop      pkg/jobstore/utils.go: StopJob
--   JobStore/Merge, Filling, Ids, History, Invariant/, Runs, Terminal, Conditions, Stop/,
--   JobStore/InProgress
--                      lemmas and theorems about these
--   Compute/State      pkg/compute/store: state.go, types.go, errors.go, utils.go
--   Compute/Store      pkg/compute/store/inmemory/store.go, and GetActiveExecution of utils.go; its
--                      child modules hold the invariant, runs and queries
--   Compute/Executor   pkg/compute/executor.go
--   Compute/Endpoint   pkg/compute/endpoint.go
--   Compute/Bidder     pkg/compute/bidder.go
--   Compute/Stages/    lemmas and theorems about the interplay of endpoint, bidder and executor
--   Compute/Capacity   pkg/compute/capacity/trackers.go
--   Compute/Buffer     pkg/compute/executor_buffer.go
--   Compute/Strategies pkg/bidstrategy: chained.go, waiting.go, resource/;
--                      pkg/compute/capacity/calculators.go
--   Requester/World    pkg/requester/types.go, errors.go, and what the requester calls
--   Requester/Messages pkg/requester/event_emitter.go, and the notifications of scheduler.go
--   Requester/Selection
--                      pkg/requester/node_selector.go: SelectNodes
--   Requester/Bids, Completion, Retries, Results, Stopping, Transition
--                      pkg/requester/scheduler_state.go: the checks of transitionJobState, with the
--                      calls of scheduler.go they make
--   Requester/Callbacks, Jobs
--                      pkg/requester/scheduler.go: OnBidComplete and the other callbacks, StartJob,
--                      CancelJob; pkg/requester/queue.go
--   Requester/Endpoint pkg/requester/endpoint.go
--   Requester/Ranking  pkg/requester/ranking: chain.go, previous_executions.go
--   Requester/Protocol, Protocol/
--                      all entries to the requester as steps, and what holds after any of them
--   Requester/Termination/
--                      the recursion of transitionJobState ends
--   Verifier           pkg/verifier/deterministic/verifier.go, utils.go, errors.go; its child modules
--                      hold the groups, the winner and the independence of the order
--   .../Examples, Scenario, Witnesses
--                      runs on concrete data
--
-- How state and calls are modelled. A store is a record of its maps; a method that may fail returns
-- the new store or the error, and an error leaves the store as it was. A mutex makes each method one
-- step, so a sequence of calls is any interleaving of goroutines. The executor's methods are cut where
-- they wait for a verifier, a job executor or a publisher. A goroutine of the requester that notifies
-- a compute node is a notice it leaves; the failure of a notice comes back as an entry of its own, and
-- so does each turn of the goroutine that asks the nodes of a started job. The two halves of a callback
-- (its update, and the transition of the job) may come apart. A transition is one step: the updates of
-- callbacks and goroutines, which do not take the scheduler's lock, come before or after it, not
-- between its checks.
--
-- Shared storage. The slice of executions in a job's state shares its array with the job store, so a
-- check of the scheduler sees what the checks before it wrote, until an append of the store takes a new
-- array. Requester/Transition rereads the state for each check; whether an append takes a new array
-- is an answer of the outside.
--
-- Outside. Readings of the clock and answers of the outside are arguments; where a call needs several, each
-- instant of the outside world is shared out between its parts (early, late).
--
-- Numbers. Times are nanoseconds since Go's zero time, as natural numbers. A 64-bit integer that the
-- code increments is its bit pattern, with the wrap written out. A float is its bits, and what Go does
-- with floats is a parameter (Model.ResourceUsage.Float). Loops are structural recursion over lists.
-- The scheduler's transition of a job calls itself again through its checks; it is on fuel, and
-- Requester.Termination shows how much fuel gives its result.
--
-- Parameters. The struct merge that UpdateExecution calls is the library mergo: a function, with the
-- hypothesis JobStore.Merge.Fills that states its documented effect, the destination's empty fields,
-- but for times, filled from the source. The sort of the node selector is a function with the hypothesis that it
-- rearranges its nodes in descending order of rank. The texts of errors, the discovery and ranking of
-- nodes, the answers of bid and retry strategies, verifiers and publishers, the decrypter, and the
-- executor behind the endpoint are arguments; so are the orders in which the verifier's loops go
-- through a map, any that rearrange its entries.
--
-- Not modelled: the housekeeping, the other rankers, the discovery and the retry strategies of the
-- requester, the remaining queries of the stores, caches, logs, traces and metrics, transports, storage, publishers,
-- executors of jobs, the command line and the web interfaces: most of them are input and output or
-- wiring. The marshalling of states and the older versions of the job model are left out too.
pub mod Base
pub mod Model
pub mod JobStore
pub mod Compute
pub mod Requester
pub mod Verifier
