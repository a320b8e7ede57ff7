-- ===== src/Lib.antt =====
-- vm-quant-trader: the accounting, the rebalance, the simulated broker and the live plane. A strategy
-- decides target weights; portfolio construction turns them into whole numbers of shares and into the
-- orders that lead there; a broker executes these into a portfolio of positions. In a backtest that is
-- the simulated broker, with a queue for each portfolio and a fee model. Live, the weights are sent as
-- a command to the broker actor, whose mailbox keeps the accounting to one thread, and the live broker
-- caps each order, checks it against a guard, writes it to a ledger, sends it, polls it, and books what
-- was filled.
--
-- Numbers. A timestamp is a natural number of nanoseconds. Quantities are whole. Floating-point numbers
-- are a parameter, `Floats`, with no law, so what is proved of amounts holds of rounded ones too; where
-- `int` of NaN or of infinity raises, the operation is partial and the caller raises. The tests run on
-- whole amounts (`Floats.Whole`), and the fee models on numbers of four decimals (`Floats.Fixed`).
--
-- Files.
--   Prelude, Dict, Errors: shared names, Python's dict, exceptions as values and methods that may raise
--     (vmtrader/errors.py). What a method wrote before it raised stays written. `Errors.Frame` is what
--     a block of methods leaves alone.
--   Messaging.Events: the messages (vmtrader/messaging/order.py, lifecycle.py, command.py,
--     trading_events.py).
--   Messaging.Mailbox: vmtrader/messaging/mailbox.py; `Spec` is the contract of a bounded queue that
--     ends at its close, `Refinement` and `Invariant` prove it.
--   BrokerActor: vmtrader/broker/actor.py (`post_command`, `drain`, `refuse_commands`); `Modes` compares
--     the synchronous and the queued actor, `Counters` counts.
--   StrategyExecutor: vmtrader/alpha_model/base_strategy_executor.py; `Cycle` is `_decide_and_submit` of
--     vmtrader/trading/live.py, over both actors, with its specification.
--   Transaction, Order: vmtrader/broker/transaction/transaction.py, vmtrader/execution/order.py.
--   Position, PositionHandler, Portfolio: vmtrader/broker/portfolio/. `Portfolio.Cash` is the trail,
--     `Portfolio.Trades` a transaction, `Portfolio.Timely` when it returns.
--   FeeModel: vmtrader/broker/fee_model/, the four models as one data type.
--   Signals: vmtrader/signals/buffer.py; `Windows` is what the buffers hold.
--   Simulated: vmtrader/broker/simulated_broker.py over vmtrader/data/backtest_data_handler.py.
--     `Market` is the data handler, `Broker` the state, the transfers and the queries, `Update` the
--     queues, `_execute_order` and `update`. `Update.Conserves` counts shares, `Transfers` money,
--     `Update.Liveness` is about returning, `Update.Sorted` about the order of execution, `Sound` about the shape of the state.
--   Rebalance: vmtrader/portcon/, vmtrader/asset/universe/, vmtrader/alpha_model/, vmtrader/system/qts.py
--     and vmtrader/execution/. `Weights` is the strategy's half, `Sizer` the two order sizers, `Orders`
--     `build_orders`, `System` the execution handler and `size_and_submit`. `Reach` and `Sized` are about
--     one step each, `Executed` about the loop of submissions and updates, `Targets` and
--     `Sizable` about the whole.
--   Live.Guards: vmtrader/broker/live/guards.py. Live.Ledger: vmtrader/broker/live/ledger.py;
--     `Live.Decimal` is the text of a number in the key of a fill, and `Recovery` what recovery is given
--     to ask about. Live.Client: the reports of
--     vmtrader/broker/live/client.py, and the world that the broker asks.
--   Live.Broker, Live.Submit, Live.Collect, Live.Settle, Live.Session: vmtrader/broker/live_broker.py.
--     Broker is the constructor, the queries and `seed_from_venue`; Submit is `_clamp_quantity` and
--     `submit_order`; Collect is `_poll_once`, `_drain_fill_buffer` and `_close_order`; Settle is
--     `settle` and `_poll_task`; Session is `update`, `_mark_to_market` and `record_equity`. `Live.Fixture` is a venue for the tests.
--   Live.Reconcile: vmtrader/broker/live/reconcile.py; `Halt` is about the guard, `Mismatch` about the
--     comparison, `Booked` and `Accounted` about what recovery reads from the ledger.
--   Live.Cycle: vmtrader/trading/live.py, both launches; `Gates` is what a launch that trades has passed.
--   Live.Worker: vmtrader/broker/live/worker.py. `Schedule` is the relation of its schedules, `Ordered`
--     what they keep, `Drained` what `join_tasks` and `stop` promise, `Ends` that they come back.
--
-- Orderings. Mailbox operations are atomic, so a run is a list of them. The two threads of the fill
-- worker take atomic steps in any order. In settlement the thread that books waits for the worker, so a
-- round is its polls in order and then the booking.
--
-- Fuel and bounds. The drain of the actor runs on the depth of its mailbox, and settlement on fuel; for
-- each there is a theorem that enough fuel is given. The loop of the strategy's thread runs on the
-- rounds that it gets before the barrier's time is up, and of these one is enough; the fill worker's
-- on as many as its queue is long. The broker's mailbox holds 200 commands.
--
-- Parameters. The callbacks of the actor, and everything outside the process: the venue, the exchange's
-- hours, prices, the clock, the sleep and whether a file exists (`Live.Client.Venue`). In a backtest the
-- price sources and the opening hours are parameters (`Simulated.Market`), and so are a user's strategy,
-- a risk model, and the UUIDs of new orders, by asset. A live launch takes its trading system, the
-- warming of signals and the exchange's calendar as parameters (`Live.Cycle.LiveSession`).
--
-- Not modelled: SQLite, threads and sockets as such, log and console output, the data frames, the
-- gateway of the venue, the signals over the buffers, schedules, statistics and the backtest's loop.
pub mod Prelude
pub mod Dict
pub mod Errors
pub mod Floats
pub mod Messaging
pub mod BrokerActor
pub mod Transaction
pub mod Position
pub mod PositionHandler
pub mod Portfolio
pub mod Order
pub mod StrategyExecutor
pub mod FeeModel
pub mod Signals
pub mod Simulated
pub mod Rebalance
pub mod Live
