-- ===== src/Lib.antt =====
-- The trading engine's control logic: from the signals that a router selects, through the orders that
-- the execution engine sends, to the records and profits that the venue's updates lead to.
--
-- The parts, with the files of the program and those of this library:
--
-- - engine/core/lockfree_ring_buffer.hpp: Ring.antt has SpscRingBuffer and DynamicSpscRingBuffer as one
--   record, since their members are the same, and a function per member. Ring/Threads.antt has the two
--   threads as a step relation with a step per access of shared memory. A blocking call takes as an
--   argument what the other thread does between two attempts, and fuel for the attempts.
-- - engine/net/oms_core.hpp: Oms/Order.antt has OrderStatus, Side, OrderRecord, the fixed-width buffers
--   and fnv1a64; Oms/Core.antt has OMSCore, a function per member. A call holds the lock from its first
--   access of the state to its last, so it is one function of the state. The clocks are arguments, and
--   the record that the update callback is given is part of a result.
-- - engine/net/execution_engine.hpp: Engine/State.antt has the members of ExecutionEngine;
--   Engine/Breaker.antt is_halted, reset_halt, force_halt, check_drawdown, throttled_log and the count
--   of rejects in dispatch_update; Engine/Book.antt PnlBook; Engine/Orders.antt next_client_id, the
--   waiters, dispatch_update, release_terminal and apply_fill_pnl; Engine/Signal.antt on_signal,
--   clear_inflight and InflightGuard; Engine/Monitor.antt monitor_pair, hedge_remaining, watch_hedge,
--   await_authoritative_after_cancel, wait_for_terminal_or_filled and a tick of sweeper_loop.
-- - engine/net/signal_router.hpp: Router.antt has SignalRouter::route.
-- - engine/core/lob_core.hpp: Lob.antt has LobSoA; Lob/Mirror.antt has stage_snapshot of
--   engine/math/gpu_lob_mirror.cu, its 65 attempts as recursion on those that are left; and
--   Lob/Seqlock.antt the accesses of both threads as a step relation, the elements copied in order.
-- - engine/core/latency_trace.hpp: Latency.antt has LatencyHistogram. The loop of bucket_for has fuel
--   for 39 shifts, after which it is left in the last bucket.
-- - engine/core/memory_arena.hpp: Arena.antt has align_up and MemoryArena, a pointer being its offset
--   from the base; alloc_span and emplace are calls of alloc.
-- - engine/net/user_data_feed.hpp: Feed.antt has map_status, handle_message, handle_order_trade_update,
--   reconcile_open_orders and reconcile_single_order; Feed/Backoff.antt the waits of run_with_backoff,
--   a turn of which is a returned or a failed run; Feed/Rest.antt the texts of the REST calls;
--   Feed/Session.antt what any number of connections does.
-- - engine/net/csv_replay.hpp: Replay.antt has the parser and CsvReplayHandler::run. Its loop has fuel
--   for a turn per byte of the file, since every turn takes at least one; how often the ring refuses
--   an update before it takes it, or that it never does, is an argument.
-- - engine/app/main_backtest.cpp: Backtest/Args.antt has parse_args, Backtest/Pnl.antt EwmaPair and
--   PnlTracker, Backtest/Loop.antt the loop of main over the updates that the ring hands out.
-- - engine/core/backtest_stats.hpp: Backtest/Stats.antt has BacktestEvaluator::evaluate.
-- - engine/math/hodge_kernel.cu: Hodge.antt has the kernels for edges, triangles and incidence matrices
--   and build_incidence_matrices, Hodge/Signal.antt those for the flow, its parts and the active loops.
--   The threads of the edge kernel take their slots in the order of a schedule, an argument.
--   The walk through two rows has fuel for their lengths, of which each step takes one.
-- - engine/net/binance_feed.hpp: Depth.antt has parse_and_enqueue, an exception ending it where it is
--   thrown; Depth/Pushes.antt what one message does to the ring.
-- - engine/math/cuda_pipeline.cu: Pipeline.antt has the host side of run_once: transfer_lob_to_gpu,
--   record_signal as new_signal and store_signal, build_cluster_window_and_fit, and the counts of ticks
--   without an edge. Pipeline/Log.antt has the list of all signals that its ring stands for, and
--   Pipeline/History.antt the windows.
-- - engine/math/floer_homology.cu: Floer.antt has the kernels, whose threads run in the order of their
--   numbers; Floer/Rank.antt gaussian_rank_z2; Floer/Homology.antt compute_floer_homology and
--   run_floer_analysis.
-- - engine/net/binance_gateway.hpp: Gateway.antt has the queue, the pending requests and handle_ack of
--   BinanceGateway; Gateway/Texts.antt the requests and their signatures; Gateway/Queue.antt the
--   order of the calls, the posted continuations and the events of the connection as a step relation.
-- - engine/app/main_live.cpp: Live.antt has a turn of the main loop, safe_maker_price and the marks of
--   the profit logger.
--
-- How they interact: the feed's messages and reconciliations are updates of OMSCore; the replay's
-- pairs of updates go through the ring to the books of the backtest, whose routed edges are the
-- tracker's trades. In the live program a turn of the main loop gives route's edges to on_signal as
-- pairs of legs; on_signal registers two orders with OMSCore, whose callback is dispatch_update, and
-- sends them by the gateway, which rejects in OMSCore what the venue refuses; monitor_pair waits for
-- their records, charges fills to PnlBook, releases the orders and sends the hedge.
--
-- What is a parameter. A double or a float is a type with the operations that the code uses
-- (Base/Double.antt): nothing is assumed of rounding, and a theorem that needs the order of doubles
-- takes IsOrdered, which NaN satisfies too. simdjson and Boost.JSON are records of their accessors
-- (Json, BoostJson), and the functions of <cmath> with the literals of the backtest are another
-- (Maths), as are those of the Floer kernels (Floats). The digest and the printing of doubles that
-- the gateway calls are the record Venue. Theorems over exact amounts use the integers of
-- Base/Int.antt. A channel of Boost.Asio is a type with a new channel and try_send (Channels). What
-- a coroutine's awaits answer, whether a request throws and what other code does to the state
-- meanwhile are arguments (Answers, Moment). Texts are lists of bytes, and the maps of the standard
-- library lists of entries, whose order no theorem depends on.
--
-- Bounds and fuel. Sizes and counters of 64 bits wrap at 2 ^ 64, and the count of rejects at 2 ^ 32; a
-- capacity of a ring is 2 ^ k with k below 64. Printing a number has fuel for twenty digits, enough for
-- 64 bits. The loop of a blocking call has fuel for its attempts, and two are enough where the other
-- thread makes room in between.
--
-- What is not modelled. Memory orders weaker than one sequence of steps, allocation failure, and the
-- overflow of a product of signed times, which is undefined in the code. The
-- eigensolver and the clustering (the rest of engine/math, and engine/ai) have no module, and neither
-- have the connections of binance_feed.hpp, user_data_feed.hpp and binance_gateway.hpp, or the
-- start-up, the threads and the REST calls of main_live.cpp. The eigenvectors, what the GPU stages of
-- a tick leave and the result of a GPU pass of the backtest are arguments. The reports and files that
-- the backtest writes are output. Two coroutines of one engine meet in a theorem only through what
-- Answers and Moment say of the other.
pub mod Base
pub mod Ring
pub mod Oms
pub mod Feed
pub mod Engine
pub mod Router
pub mod Lob
pub mod Hodge
pub mod Floer
pub mod Pipeline
pub mod Depth
pub mod Replay
pub mod Backtest
pub mod Latency
pub mod Arena
pub mod Gateway
pub mod Live
