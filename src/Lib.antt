-- ===== src/Lib.antt =====
-- Verification library of tmc-examples, the example programs of TooManyCooks (a C++20 coroutine
-- runtime). Each example is a program of its own over the same runtime; the parts below share the
-- runtime's operations, and within a part the modules interact as the code's functions do.
--
-- What the runtime does is not in the repository. It is a parameter: Runtime.antt has the record
-- `Tasks` (fork, await, spawn_many), and PipelineFifo/Queue.antt the record `BoundedQueue`
-- (tmc::qu_spsc_bounded) with the laws that the examples rely on; so are the records named below. Each
-- comes with a concrete instance. Tasks without side effects are the values that they return.
--
-- Parts:
-- * examples/pipeline_fifo.hpp is PipelineFifo. PipelineFifo/Stage.antt is `pipeline_stage`: `worker`
--   makes the worker's next step (`Pc` says at which co_await it stands), and `System`, `Step` and
--   `Reach` put it between a driver that pushes and closes its input and a consumer that takes from its
--   output, in any interleaving. Stage/Invariant has the invariant, Stage/Order the order of delivery,
--   Stage/Progress and Stage/Effort are about progress. PipelineFifo/EndStage.antt is `pipeline_end_stage` with its
--   internal queue and its `active` counter; EndStage/Moves and EndStage/Steps go through its steps
--   for the invariant of EndStage/Invariant, EndStage/Result draws the conclusions. PipelineFifo/Chain
--   puts stages one after the other, the output queue of one being the input queue of the next, with
--   the `worker` of Stage for each; Stage/Effect says what a worker's step does to its two queues,
--   Chain/Flow and Chain/Moves what it does to all that is on its way, Chain/Result compares a chain
--   with its functions, Chain/Effort, Chain/Progress and Chain/Delivery are about its end, and
--   Chain/Program is examples/pipeline_fifo.cpp, with its end in Program/Ending.
-- * examples/pipeline.hpp is Pipeline: `pipeline_stage` with several workers, over the records `Channel`
--   (tmc::channel) and `Semaphore` (tmc::semaphore) of Pipeline/Channels.antt. Pipeline/Moves is about
--   one worker's step, Pipeline/Invariant about each step of the system, and Pipeline/Conservation draws
--   the conclusions. Pipeline/EndStage is `pipeline_end_stage`, on the same records. Pipeline/Driver is
--   examples/pipeline.cpp: stages one after the other (`Stages`), with the steps of Pipeline and
--   EndStage for the workers (`Move`), the producer in front and the group behind (`Step`).
--   Driver/Invariant and Driver/Moves have the invariant of the stages, Driver/Flow the elements on
--   their way and the steps that they take, Driver/Run, Driver/Steps and Driver/Start the runs,
--   Driver/Enabled and Driver/Progress what can go on, Driver/Result the conclusions, and
--   Driver/Program the functions and the totals of the program.
-- * examples/external/external_executor.hpp and external_executor.cpp are ExternalExecutor: the pool,
--   the adapter's worker thread (`worker`) and what its clients call (`post_item`, `post_bulk`, `stop`).
--   ExternalExecutor/Order is about the order of the work, ExternalExecutor/Sleep about the wait on
--   `work_available` and what wakes it, ExternalExecutor/Drain about the end.
--   ExternalExecutor/Program is `main` with its two coroutines: `perform` runs an item on a thread, and
--   `steps_of` has all that can happen next; Program/Hops goes through the runs, in every order.
-- * examples/braid.cpp is Braid: each form of a task is a list of actions (`braid_lock` and the others),
--   `step` makes a task's next move, and `v++` is a load and a store. The record `Braid` is
--   tmc::ex_braid. Braid/Invariant has what a move keeps, Braid/Count is about the count,
--   Braid/Exclusive about who increments, and Braid/Progress about the end.
-- * examples/asio/batch_processor.cpp is BatchProcessor: `on_pulled` and `on_timer` are the cases of its
--   switch, over the record `Mux` (tmc::mux_tuple with a pull and a timer). BatchProcessor/Invariant has
--   what each step keeps, BatchProcessor/Batches the conclusions.
-- * examples/external/external_coro.hpp and external_coro.cpp are ExternalCoro: the frame and promise of
--   a foreign coroutine, the steps of awaiting it (`co_await`), and the two coroutines that await one
--   another, on a unit of fuel for each call; ExternalCoro/PingPong is about their results, and
--   ExternalCoro/Void has the specialization for void.
-- * examples/spawn_iterator.cpp is SpawnIterator: each function by the conjunction of its assertions.
-- * examples/queue_bench.cpp, chan_bench.cpp and exec_st_roundtrip_bench.cpp are Bench: the shares of
--   the producers (`shares`), what they push (`producer`), what a consumer counts (`consumer`) and the
--   check at the end (`fails`). Bench/Queue has the two consumers of queue_bench.cpp and
--   Bench/Queue/Program its `main` over the queue and the clocks as parameters, Bench/Channel the
--   sweep of chan_bench.cpp over a channel as a parameter, Bench/RoundTrip the rounds of
--   exec_st_roundtrip_bench.cpp and Bench/RoundTrip/Program its `main`. Commas is `formatWithCommas`
--   of the same programs and the same loop in `formatElementsPerSec` of examples/pipeline.cpp and
--   pipeline_fifo.cpp.
-- * examples/skynet.cpp is Skynet, and the same functions of examples/asio/http_skynet.cpp.
-- * examples/fib.cpp is Fib.
-- * examples/external/external_awaitable.cpp is ExternalAwaitable: `suspend_at`, `worker_at` and
--   `outer_at` are the next statement of `await_suspend`, of its thread, and of the resumed task with
--   the destructor; ExternalAwaitable/Race has the invariant of their interleavings and
--   ExternalAwaitable/Progress is about their end. ExternalAwaitable/Caller is the program around it,
--   ExternalAwaitable/Spawn the test that spawns a task on a thread outside of the executors.
-- * examples/external/callback_awaitable.hpp and callback_awaitable.cpp are CallbackAwaitable: `callback`
--   stores the results and resumes the task over the record `Customizer`
--   (tmc::detail::awaitable_customizer); CallbackAwaitable/Resume is about the resumption, and
--   CallbackAwaitable/Uses is the program, over the record `Floats`.
-- * examples/sync.cpp is Sync: `main` as a list of actions, and the steps of the calling thread and of
--   the executor; Sync/Output is about the lines that are printed, Sync/Progress about the steps that
--   are left.
-- * examples/asio/http_server.cpp, examples/asio/http_skynet.cpp, examples/hwloc/asio_server_per_cache.cpp
--   and asio_thread_per_core.cpp are Http, their handlers (`handler`), accept loops (`accept`) and
--   responses, and the last two are Servers, their `main` functions in Servers/PerCache and
--   Servers/PerCore and the scripts beside them in `prefork`. Http/Protocol is about the calls on a
--   socket, Http/Reply about what a client reads, Servers/Equivalence about the scripts. The skynet
--   responses are made of the results of Skynet.
-- * examples/asio/prio.cpp is Prio, over the record `Library` of what entering and leaving an executor
--   does to a task; Prio/Checks is about its checks.
-- * examples/asio/mux_timeout.cpp is MuxTimeout, one round of `main`; MuxTimeout/Output is about what a
--   round prints.
-- * examples/asio/select.cpp is Select, over the record `Library` of tmc::select and the timers; `race`
--   is an iteration, and Select/Outcomes is about the exit code.
-- * examples/hwloc/hybrid_executor.cpp is HybridExecutor; HybridExecutor/Steering is about its counters.
-- * Base has what the parts share: Base/Tests the Boolean tests, Base/Lists lists and tabulation,
--   Base/Words sums that wrap at the word size, Base/Digits the decimal digits of a number, Base/Search
--   an element of a list that counts.
--
-- An execution is a sequence of steps (`Step`, `Reach`), one for each section of the code between two
-- places where others can run.
--
-- Numbers: a size_t is a natural number below a modulus `m`, and each addition, subtraction and product
-- of the source wraps there (`% m`). In the pipelines, counts are bounded by the theorems and stand
-- unwrapped. `skynet_one` recurses on fuel, one unit for each level of the tree, and its theorem holds
-- from depth_max - depth + 1 units on.
--
-- The handlers of Http go through a list of rounds, what the socket answers in each, and the consumers
-- of Bench/Queue through a list of replies: both are structural. `statements_left` of
-- ExternalAwaitable/Progress bounds the statements that its three threads still run, `steps_left` of
-- Sync/Progress and of MuxTimeout/Output the steps of a run and of a round.
--
-- `run_alone` of ExternalExecutor/Drain runs for a number of steps that its theorem gives, and
-- Program/Hops there searches 28 steps deep, which all orders of the steps end in. An `int` of
-- SpawnIterator is a number, and its theorem shows that none overflows for an N up to 29.
--
-- Not modelled: the clocks and the wording of what is printed, thread placement beyond what the
-- servers and the hybrid executor configure, the executors themselves, the sockets behind the
-- handlers, the timers of examples/asio but for those of mux_timeout.cpp and select.cpp, the test
-- suites of the runtime, the build files.
mod Base
pub mod Runtime
pub mod Skynet
pub mod Fib
pub mod Commas
pub mod Bench
pub mod PipelineFifo
pub mod ExternalExecutor
pub mod ExternalAwaitable
pub mod CallbackAwaitable
pub mod Sync
pub mod SpawnIterator
pub mod Pipeline
pub mod Braid
pub mod BatchProcessor
pub mod ExternalCoro
pub mod Http
pub mod Servers
pub mod HybridExecutor
pub mod Prio
pub mod MuxTimeout
pub mod Select
