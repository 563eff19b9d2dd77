-- ===== src/Lib.antt =====
-- A verification library for Glimmer, a scheduler that shares one accelerator among tenants: the
-- policies and the accounting of its core (src/core and include/glimmer/core), the executor of tasks
-- and the submission queue between a session and its executor (src/backend), and the text protocol of
-- its tasks (src/control).
--
-- The program and its model
--  - The quota ledger (src/core/quota_ledger.cc) keeps reserved and allocated bytes under a limit.
--    Quota.antt holds `try_reserve`, `release`, `commit`, `cancel`, `abandon`, `usage` and the moves
--    of a reservation; Quota/Bounds the limit of one ledger; Quota/Holders a ledger together with
--    the reservations that callers hold, under any sequence of calls, moves and destructions included
--    (`construct_at`, `assign_at`, `destroy_at`): Quota/Holders/Safety and Quota/Holders/Leaks hold its
--    theorems.
--  - The adaptive controller (src/core/adaptive_slo.cc) turns queue waits into a number of reserved
--    slots. Slo.antt holds the constructor and `observe`; Slo/Bounds and Slo/Feedback its theorems.
--  - The execution priority policy (src/core/execution_priority.cc) plans, from a snapshot of the
--    peers, who may execute, who waits and who must retreat. Execution.antt holds its data,
--    Execution/Plan `plan_execution_priority`, Execution/IdleWindow the class
--    `ExecutionPriorityIdleWindow`, Execution/Rebalance `plan_execution_rebalance` and
--    Execution/Pair `plan_execution_pair`. The last two start from the ordinary plan.
--  - The task scheduler (src/core/scheduler.cc) keeps tasks in queues of tenants and dispatches them
--    under one of four policies, and charges a ledger. Scheduler.antt holds its data and common
--    helpers, Scheduler/Queues the `peek_..._locked` methods, Scheduler/Select the
--    `select_..._locked` methods, Scheduler/Submit, Scheduler/Dispatch and Scheduler/Finish the
--    methods that change a task, Scheduler/Query those that report, Scheduler/Policy the names of
--    the policies, Scheduler/Run any sequence of calls. Scheduler/Capacity, Scheduler/Order and
--    Scheduler/Lifecycle hold theorems.
--  - The submission queue (src/backend/execution_submission_queue.cc) stands between a client's
--    session and the one executor thread that calls the device: it accepts numbered commands, hands
--    them to the executor one at a time, keeps replies until they are acknowledged and payloads until
--    the device has stopped. Submission.antt holds its data, Submission/Accept, Submission/Issue,
--    Submission/Settle and Submission/Release the methods that change it, Submission/Report those
--    that report, Submission/Run any interleaving of them with the sections of a release and the
--    life of host storage. Submission/Effect sorts what a method does into a few kinds, from which
--    Submission/Sound, the abstract board of Submission/Spec and Submission/Delivery follow.
--  - The task executor (src/backend/task_executor.cc) moves one task at a time from the scheduler to a
--    backend and reports its end. Backend.antt holds the interface of a backend and the simulated one
--    (src/backend/simulated_backend.cc), Backend/Executor `TaskExecutor::step` over any backend;
--    Backend/Holding and Backend/Completion hold theorems.
--  - The task protocol (src/control/task_protocol.cc) is the text that clients and the service
--    exchange, one line for a request or a response. Protocol.antt holds the tokens of a line and the
--    numbers, Protocol/Request `parse_task_protocol_request` and `format_task_protocol_request`,
--    Protocol/Response those for responses; Protocol/Numbers, Protocol/Decimals, Protocol/Tokens,
--    Protocol/Carried, Protocol/Fields and the two modules RoundTrip hold theorems.
--  - SchedulerMode.antt holds the names of the modes (src/core/scheduler_mode.cc).
-- Prelude and its children are the helpers that all parts share: tests, lists, tables and machine
-- words. Each part has a child Examples with the theorems at concrete values.
--
-- Conventions
-- A method that changes an object takes its state and returns the new state beside its result. A
-- mutex makes a method one step, so threads are sequences of steps. Integers are natural numbers; an
-- operation that can wrap is written with `%`. A hash map is an association list with one entry for
-- a key, and its order stands for the unspecified order of iteration. The clock is an argument, in
-- microseconds for the scheduler and in nanoseconds for the idle window. What throws, and whether a
-- ledger's mutex can be locked in `cancel`, is an argument too. An enumeration takes only its
-- enumerators, so the guards against other values do not appear.
--
-- Loops and bounds
-- The loops over peers, tasks and legs are recursions on lists. The selection rounds of the
-- weighted and the deficit policy make one attempt for each tenant, as the code does: the number
-- of attempts that are left is the argument of the recursion, and nothing else bounds it. The loop
-- over the characters of a line is a recursion on the line. Only the digits of a number are made
-- on fuel: twenty divisions by ten, enough for 64 bits.
--
-- What is not modelled
-- Of the control plane only the task protocol is modelled; the other parts of the backends, the
-- interceptor and the transformation of device code are not modelled. Of the submission queue, the
-- destructor, the memory arena behind host storage and the system call that names the process are
-- left out: whether a caller is in the queue's process, which thread it is, which threads have
-- ended and whether an allocation throws are given with each call. The allocation of a tenant's
-- name may throw, as an argument of the parser. A payload is found by the number of its command,
-- not by a pointer. Durations are whole ticks of their unit. The object behind a reservation's
-- shared pointer is the ledger that the scheduler holds; a reservation is never used with another
-- one.
pub mod Prelude
pub mod Quota
pub mod Slo
pub mod Execution
pub mod Scheduler
pub mod SchedulerMode
pub mod Submission
pub mod Protocol
pub mod Backend
