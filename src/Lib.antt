-- ===== src/Lib.antt =====
-- A model of the trade engine: a limit order book exchange in which an order gateway, a matching
-- engine, a logger and a test trader run as threads that pass records through lock-free queues.
--
-- The parts and the files that model them:
--   * header/lock_free_queue.h, the ring buffer between a producer and a consumer: LfQueue. Its
--     state is the store and the two indices; `getNextToWriteTo`, `updateWriteIndex`,
--     `getNextToRead`, `updateReadIndex` and `size` are the functions of these names. `write` and
--     `read` are the whole turns that the callers make of them. LfQueue/Fifo and LfQueue/Refine
--     relate it to a bounded list, LfQueue/Threads takes the two threads apart into steps,
--     and LfQueue/Slots looks at the slot that a consumer has released.
--   * header/order_gateway_struct.h and the log entries of header/logger.h: Structs.
--   * The `float` prices: Price, on bit patterns. `tick` is `static_cast<size_t>(price * 10)`.
--   * header/lob_struct.h, one side of the order book: Book. `createOrder`, `UpdateOrderQuantity`,
--     `deleteOrder`, `peekOrder`, `get_order_at_prize`, `get_optimal_price` and `glide_best_prize`
--     are functions on a record of its fields. Book/Inv holds the invariant, Book/Levels the
--     abstract view: at each price, the queue of live orders.
--   * The queues that the engine only writes: Outbox. What the reader does is any sequence of
--     answers to the attempts to claim a slot.
--   * matching/matching.cpp, the matching engine: Engine (the state and `aggresiveMatch`) and
--     Engine/Handlers (`create_order`, `updateOrder`, `deleteOrder`, `readOrder` and the loop).
--     Engine/Sweep holds the reference for matching, Engine/Sound and Engine/Running the invariant of
--     the engine, Engine/Requests the requests that it can take, and Engine/Fresh those that ascend.
--     Engine/Fills and Engine/Filled are about the acknowledgements of fills.
--   * order_gateway/order_gateway.cpp, the order gateway: Gateway. `AssignSystemId`, `GetSystemId` and
--     `SystemToOrderId` are the functions of these names, `process_order` is the local function of
--     `run`, and `round` its loop body. Gateway/History holds the invariant.
--   * header/logger.h, the text of the log: Logger. `convert_u64_to_str`, `float_to_char`, the four
--     writers of records and `drainBatch` are the functions of these names; a pointer into the
--     buffer is the text before it. Logger/Loop is `run`, and Logger/Loop/Complete its file.
--   * alpha_tester.cpp, the test trader: Alpha sends the prepared orders, Alpha/Fill prepares them,
--     with the `double` arithmetic of Price/Double, and Alpha/Server is `AlphaRun`.
--   * header/bench.h, the benchmarks: Bench. Bench/Index compares the positions computed with
--     doubles to the exact ones, by Price/Rounding and Price/Exact.
--   * header/Thread.h, `createAndStartThread`: Thread, with the two threads apart in steps.
--   * ExamplesAndTesting/lock_free_queue/lfq_logger.cpp, a producer for the logger: Examples.
--   * The flags `start` and `terminate` of the threads: Flags. Engine/Server is the whole of
--     `matchingEngine`, and Gateway/Server the whole of the gateway's `run`. Engine/Measured counts
--     the times that the engine has noted, and Engine/Printed and Gateway/Printed
--     look at what the two print of theirs.
--   * main.cpp, the program: System, with the constants and what is built from them. System/Session
--     takes the orders of the traders through the gateway to the engine.
--
-- How they interact: the gateway writes orders to the engine's order queue; `readOrder` takes one,
-- matches it with the book of the other side, rests what is left in the book of its own, and
-- writes acknowledgements, broadcasts and log entries to its three outboxes.
--
-- Conventions: a C++ integer is a natural number in the range of its type; a difference that can
-- wrap is written with its modulus. A `Result` is a value, a `fault` (an access out of range, a
-- failed assertion or an undefined cast), or `waiting` (a loop that has used up its rounds).
--
-- Bounds and fuel: the `while` loop of `aggresiveMatch` runs on rounds, and on a sound engine one
-- more than the number of prices is enough (each round but the last uses up the best price of the
-- other side). The spin of `changeInQuantity` runs on `patience` attempts; a hypothesis says that
-- the broadcast queue has room within them. The glides of the best price are structural.
--
-- Assumptions: system ids are below 2^32, row positions below 2^31, and the `int` counters of live
-- orders do not overflow. Queues are used by one producer and one consumer each, and their atomics
-- are sequentially consistent, which is the default that the source uses. Between the components a
-- whole turn takes effect at once.
--
-- Not modelled: the cycle counter and `get_cycle_per_ns` of header/bench.h, whose result is never
-- used; the threads and the sleeps of main.cpp; header/prewarmer.h, which computes nothing; the
-- other examples; and header/memoryPool.h, which the program does not use and which does not compile.
pub mod Prelude
pub mod LfQueue
pub mod Price
pub mod Structs
pub mod Book
pub mod Outbox
pub mod Engine
pub mod Gateway
pub mod Logger
pub mod Flags
pub mod Alpha
pub mod Bench
pub mod Thread
pub mod Examples
pub mod System
