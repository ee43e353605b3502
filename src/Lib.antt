-- ===== src/Lib.antt =====
-- Verification library for polymarket-radar: the decisions between an arb that the radar found and the
-- orders that are sent for it. In the program a scan reserves the arbs that were not fired lately
-- (Dedup), the coordinator gives each leg a bot of its own (Wallets), `fire_arb` asks the risk gates
-- and sends the legs (Executor, Risk), a broken arb is walked back, and reconciliation compares what
-- is held with what the exchanges report and trips the kill switch. A breaker for each host guards the
-- requests (Breaker), whose failures are classed and tried again (Http). The books that the exchanges
-- push (Stream) give prices, the deals on an event are found, priced and sized (Deals), those that
-- span two exchanges by pairing their events (Cross), the deals that are open and their totals are
-- logged (Analytics), the orders of a deal are built (Orders) after a last look at balances and depth
-- (Preflight), a registry tells a fill to the leg that waits for it (Fills), and trades on paper open
-- the way to real ones (Paper). What is near a deal but not one is pooled and shown (Pools).
--
-- Files and what they model, with paths from the root of the repository:
--   Base          shared names and lemmas: Boolean tests, lists and their predicates, integers, dicts as
--                 association lists, sorting, exact fractions
--   Breaker       Scripts/circuit_breaker.py: `CircuitBreaker` as the record `Breaker`, one function per
--                 method (allow, on_success, on_failure), `get_breaker`
--   Dedup         Scripts/radar/dedup.py: `FireDedup` with reserve, evict_expired, is_tracked, clear
--   Risk/State    Scripts/risk/state.py: the state in memory and on disk, get_state, the day roll
--   Risk/Limits   Scripts/risk/limits.py: check_can_fire and record_pnl
--   Risk/Killswitch  Scripts/risk/killswitch.py: kill, unkill, is_killed
--   Risk/Network  Scripts/risk/network_check.py: check_country_allowed with its cache
--   Risk/Reconcile   Scripts/risk/reconcile.py: reconcile_once with its debounce
--   Wallets       Scripts/wallets/config.py and coordinator.py: assign_legs, release_reservations
--   Wallets/Rebalance Scripts/wallets/rebalance.py: propose_rebalances
--   Executor/Assign  Scripts/executor/atomic.py: _assign_wallets
--   Executor/Legs    Scripts/executor/atomic.py: _fire_one_leg_live, _fire_one_leg_dryrun, the check for
--                 a broken arb, the legs that revert_filled_legs walks back
--   Executor/Fire    Scripts/executor/atomic.py: fire_arb, over the risk gates and the coordinator
--   Executor/Presign Scripts/executor/presign.py: the cache of signed orders
--   Fills         Scripts/executor/fills.py: `FillRegistry`; Fills/Pending is the one list that it stands
--                 for, Fills/Runs the runs of calls on both
--   Stream/Subs   Scripts/poly_ws.py and Scripts/limitless_ws.py: update_subscriptions, shared
--   Stream/Poly   Scripts/poly_ws.py: _handle_event, _on_message, _calc_book, get_book
--   Stream/Lim    Scripts/limitless_ws.py: _handle_orderbook in the two parts that its locks
--                 make of it, _parse_orderbook, _handle_positions
--   Deals/Build   Scripts/radar/fees.py and Scripts/radar/build_deal.py: calc_fee, build_deal
--   Deals/Series  Scripts/radar/eval/polymarket.py: is_threshold_series
--   Deals/Markets Scripts/radar/eval/polymarket.py: _poly_per_market
--   Deals/Poly    Scripts/radar/eval/polymarket.py: compute_poly_threshold, _eval_poly_structures, eval_poly
--   Deals/Limitless Scripts/radar/eval/limitless.py: _lim_quality_ok and one event of eval_limitless
--   Deals/Kalshi, Deals/SxBet  Scripts/arb_server.py: eval_kalshi and eval_sx
--   Cross/Match   Scripts/event_matching.py: outcomes_compatible
--   Cross/Pairs   Scripts/event_matching.py: _match_from_canon and find_pairs
--   Cross/Outcomes, Cross/Build, Cross/Cover  Scripts/cross_platform.py: build_cross_platform_deal,
--                 build_complement_cover_deal and find_cross_platform_arbs
--   Cross/Radar   Scripts/cross_platform.py: to_radar_deal_format
--   Pools/Sums, Pools/Classify  Scripts/radar/eval/pools.py: the sums of a candidate and classify_pools
--   Pools/Near, Pools/Summary, Pools/Table  Scripts/radar/eval/pools.py: _best_near_structure, near_summary
--   Analytics     Scripts/analytics.py: update_from_scan, update_from_near_scan, record_fire_filled;
--                 Analytics/Totals: aggregate
--   Http          Scripts/http_codes.py: classify, compute_backoff
--   Http/Fetch    Scripts/async_fetchers.py: fetch_limitless_orderbook_async, over Breaker
--   Orders/Sx     Scripts/executor/builders.py: fetch_sx_matchable_orders, match_sx_orders
--   Orders/Poly   Scripts/executor/builders.py: _round_to_tick, build_poly_order
--   Preflight     Scripts/preflight.py: preflight_arb with its checks and their cache
--   Paper         Scripts/paper_trading.py: graduation_status
-- A child module holds what is proved on its parent, a module Tests the theorems at concrete inputs.
--
-- How the code is modelled:
--   - A method that runs under a lock is one step, from a state to a state. Where a method reads the
--     clock, the time is an argument. Times are in whole seconds, but in
--     milliseconds in Preflight, and `now - t > c` is `t + c < now`.
--   - Money is in whole micro-dollars and prices in ten-thousandths, where a file does not name other
--     units, so the error of floats is not modelled; a division in Deals gives an exact fraction. What
--     the code rounds is rounded where it decides or sends something: the price of an order, the stake
--     of a leg, the amount of a transfer, the distance in the near table. The
--     15 per cent of a worst loss are counted in hundredths, and `int(hard_cap * 0.8)` is
--     `hard_cap * 4 / 5`.
--   - A dict is an association list, with the hypothesis that no key is listed twice where it matters;
--     every operation keeps it. A set of keys is a list in some order.
--   - Texts of reasons, log lines and alerts are data with what they print, or left out.
--   - A file that is missing or cannot be parsed is `none`; writing a file succeeds.
--   - No loop needs fuel but the printing of a number, which has more fuel than digits.
--   - What an exchange, a provider or a builder of orders answers is an argument: the replies of the
--     country providers, the pushes of the sockets, the reads of a chain, the answers to a POST and the
--     confirmed fills, the results of the pre-flight and depth checks and of the graduation gate, the
--     builder of one signed order, the fees and volumes of the markets, the events that passed a filter
--     and the matches of regular expressions, the normal form of a title and the day of a date.
--
-- The signed orders of Executor/Presign enter a leg of Executor/Legs as its built order.
--
-- Not modelled: the other fetchers and the filters, the threads of the websocket clients, the
-- heuristics that bring a title to its normal form, the history of analytics, the server and the
-- dashboard, signatures, cancellations and the Limitless orders, the second executor in executor-ts.
-- The slugs, tokens and dates that are attached to a deal, and the rounding of its contracts,
-- fees and liquidity, are left out. A platform's name is compared as it is written, where the code
-- takes it in lower case; the state of the limits is saved as it is, without its conversion to JSON and
-- back; the side of a price change is a text; a `Retry-After` that is not a number and a missing http
-- package are left out, and so are exceptions of a builder and the time limit on all legs in `fire_arb`.
-- An order book of an exchange is known by its events alone: a market that ends without one keeps its
-- last book. In `fire_arb` the retry of
-- maker orders, which no longer exist, the jitter and the branches for a missing risk or preflight
-- package are left out; in the network check the wait for a fetch that another thread runs.
pub mod Base
pub mod Breaker
pub mod Dedup
pub mod Risk
pub mod Wallets
pub mod Executor
pub mod Fills
pub mod Http
pub mod Stream
pub mod Deals
pub mod Cross
pub mod Analytics
pub mod Orders
pub mod Pools
pub mod Paper
pub mod Preflight
