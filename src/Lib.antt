-- ===== src/Lib.antt =====
-- The alpha core: the C library under core/ that decides what a trading system may do. It has no
-- global state. The parts below the platform are pure functions over numbers, dates and arrays; the
-- platform drives a database connection from an event loop.
--
-- Files and the code they model:
--   Domain      core/include/alpha/errors.h and domain.h: errors, signals, sides, markets
--   Date        core/src/domain/date.c: days_from_civil, civil_from_days, alpha_date_parse,
--               alpha_date_format
--   MarketHours core/src/calendar/market_hours.c: the next trading session, Session without and
--               Holiday and Calendar with a calendar of holidays, Day for days of the week
--   Double      the arithmetic of double, an interface, and alpha_round_dp of
--               core/src/domain/round.c
--   Cost        core/src/backtest/cost_model.c
--   Risk        core/src/risk/gates.c: exits by rule, the portfolio's drawdown, the daily loss
--   Sizing      core/src/portfolio/sizing.c
--   Blending    core/src/portfolio/blending.c
--   Screener    core/src/indicators/screener.c
--   MarketData  core/src/market_data/market_data.c
--   Backtest    core/src/backtest: Engine for engine.c, Metrics for metrics.c, Signals for
--               signal_source.c. The engine asks a signal source for each bar, prices a trade with
--               Cost, and hands its trades and snapshots to the metrics.
--   Fixture     core/apps/backtest_fixture.c, the fixtures of the backtest runner, and its run_once, which
--               hands one to Backtest: Reads for the loops over the document, Loaded for the whole
--   Postgres    core/platform/db/postgres.c: Queue and Invariant for the ring of requests, Order
--               for the results of one drain, Run for requests and service calls in any order, Rows
--               and Echo for the rows read and the parameters sent
--   RedisAsync  core/platform/cache/redis_async.c: the adapter between hiredis and the event loop
--   RedisCache  core/platform/cache/redis_cache.c: Holidays for the calendar parser, Lockout for what
--               is written to the server, Locked for what is read back. The lockout's expiry is the
--               session that MarketHours finds on the calendars that the server stores.
--   HttpClient  core/platform/http/http_client.c: Requests for the list of requests, Posting for a
--               post, Actions for what libcurl reports, Run for all of these in any order
--   LwsRuntime  core/platform/event/lws_runtime.c: Slots for the array of watches, Run for watches
--               added, changed, removed and served in any order
--   Adapter     core/apps/c_driver_adapter.c, which drives RedisAsync or Postgres from LwsRuntime:
--               Drive for the loops, Setup for the set-up of a case and the run, Text for what is
--               printed. Same, Count, Rounds, Submit and Loop say how operations are counted,
--               Started and Main join them for the whole run; Asked and Ends are about its end.
--   Spike       spike/event_loop/main.c, the experiment with one event loop for all libraries: Loop
--               for a tick and main, Sound, Reconnect and Curl for the phases of its state, Steps
--               and Run for a whole run, Polled for the sockets of a tick
-- Functions have the source's names without the prefix alpha_ or alpha_pg_. An output parameter is
-- part of the result, none where the code does not write it; a pointer that may be NULL is an
-- Option or a Boolean that says whether it is there; an enum's error is a Result.
--
-- Numbers. A double is an element of a type with the operations of the record Double; theorems that
-- need the order take the laws of IEEE 754, in which a NaN is not at most itself. The tests use exact
-- millionths. int64_t is an integer without bounds, and unsigned wraps at 2 ^ 32 in Date.
--
-- Fuel. The search of next_trading_session_start has fuel 3, as two days at most are skipped; that of
-- the holiday-aware search is the number of days up to the end of the calendar and one more, after
-- which the code gives up. The calendar parser has the length of the text and one, as each round
-- takes twelve bytes; the destruction of the HTTP client the number of its requests and one. The
-- digits of a number n are printed with fuel n + 1, enough as each round divides by ten. The loops of
-- the driver adapter wait for answers: each round asks the environment a question, and once the clock
-- is past the deadline the round is the last. All these are proved to be enough. The loop of the
-- experiment is on fuel too, with `none` when it runs out, and no claim is made that it ends. All
-- other loops are structural.
--
-- Outside the model: allocation is a Boolean that says whether it succeeds, or the address that it
-- returns. libpq is a record of the outcomes of its calls, a PostgreSQL server what it writes in a
-- column for a parameter, hiredis a list of the callbacks that it makes or a server that replies,
-- yyjson its queries, libcurl and libwebsockets the calls that they make, strtoll a function. A callback of the owner that calls the driver again is not modelled, nor
-- are the release of memory, the global setup of libcurl, and the rest of the command-line runners.
-- The callbacks of the driver adapter run behind the call of the driver that makes them; they do not
-- read what that call goes on to change.
pub mod Prelude
pub mod Domain
pub mod Date
pub mod MarketHours
pub mod Double
pub mod Cost
pub mod Risk
pub mod Sizing
pub mod Blending
pub mod Screener
pub mod MarketData
pub mod Backtest
pub mod Fixture
pub mod Postgres
pub mod RedisAsync
pub mod RedisCache
pub mod HttpClient
pub mod LwsRuntime
pub mod Adapter
pub mod Spike
