-- ===== src/Lib.antt =====
-- A verification library of the trading agent's core (Python, package app).
--
-- The parts and how they interact. A client's command reaches
-- app/modules/trading/application/services/place_order.py, which looks the client's order id up,
-- asks the risk gate, creates the order, submits it to a gateway, saves it, applies a fill to the
-- position and publishes an event. The risk gate is app/modules/trading/infrastructure/risk.py,
-- over the risk service of app/modules/risk, which reads the limits and the kill switch from Redis.
-- Calls of providers go through the reliability tooling of app/infrastructure/tooling. A backtest
-- (app/modules/backtest) runs a strategy of app/modules/strategies over stored candles of
-- app/modules/marketdata. Users and tokens are those of app/modules/auth.
--
-- The files.
--   Base, Int: shared names, exceptions as values, Python's texts and unbounded integers.
--   Decimal: Python's decimal.Decimal under the default context, executable: 28 digits, half even.
--   Core/Result, Core/Errors: app/core/common/result.py, app/core/exceptions/taxonomy.py.
--   Risk: Entities, Store (infrastructure/stores/redis_store.py) and Service
--     (application/services.py: check_order, kill_switch, get_profile, set_profile).
--   Trading/Order, Trading/Position: domain/entities/order.py and domain/portfolio.py.
--   Trading/Ports: domain/ports.py and portfolio_ports.py, as records of operations and laws.
--   Trading/Gateways: infrastructure/gateways (paper.py, ccxt_order.py) and infrastructure/risk.py.
--   Trading/Repositories: infrastructure/repositories, tables as lists of rows.
--   Trading/PlaceOrder: the service; execute is PlaceOrderService.execute, from a world to an
--     outcome and the next world.
--   Tooling/Policy, Tooling/Http: app/infrastructure/tooling/policy.py and http.py.
--     Tooling/Waiting: the limiter and the sleeps of policy.py, in ticks of a clock.
--   Trading/Routes: presentation (routes.py, schemas.py, dependencies.py).
--   MarketData: symbols, timeframes, candles and tickers (Entities), CandleIngestService and
--     CandleQueryService (Ingest), app/infrastructure/stores/clickhouse/candle_store.py
--     (CandleTable), and infrastructure/providers (Vendors): for each of Kraken, Yahoo, TwelveData
--     and Binance the errors and mapping.py in its file, client.py and adapter.py in its Adapter.
--   Providers: app/infrastructure/providers/registry.py, and marketdata's entries of it.
--   Messaging: app/core/messaging with the bus and the outbox of app/infrastructure/capability.
--   Workers: app/workers/runner.py (Loop is ImproveUntilPlateau, Step is default_step).
--   Parse: what Python's str.split, int, Decimal, bytes.fromhex and json read.
--   Strategies: the contract of a strategy and application/manager.py, the built-in strategies and
--     their store (Library).
--   Signals: the feature service. Core/Answers: what a route answers. MarketData/Routes,
--     Strategies/Routes, Backtest/Routes, Risk/Routes: the presentation of these slices.
--     Backtest/Gateway: backtest/infrastructure/strategy_gateway.py.
--   Tooling/Dsn: app/infrastructure/capability/database/dsn.py. Scaffold: what
--     .agents/scripts/new_slice.py makes of a name.
--   Backtest: domain/entities.py and ports.py (Entities), application/engine.py (Engine: loop and
--     conclude are the two halves of _simulate, run and walk_forward those of the class).
--   Auth: domain/entities.py, the JWT manager (Tokens), infrastructure/stores/postgres_repos.py
--     (Repositories), application/services.py (Service, ApiKeys), the hasher of passwords (Hasher)
--     and presentation (Routes).
--   Examples: tests, and the theorems at concrete inputs.
--
-- Exceptions are values (Except), so that every path of a call is one result. Awaits are dropped:
-- a call of a service runs to its end before the next one starts, and a database or Redis that
-- does not answer is not modelled.
--
-- Bounds and fuel. Integers are unbounded, as in Python. The number of digits of n is counted with
-- n rounds of fuel, never fewer than it needs. The loop of the retries has as many rounds of fuel as
-- the policy allows attempts, and one at least, which are all that it can use. The loop of the
-- workers runs on fuel; what suffices follows from the metric and the settings. All other loops are
-- structural. The limits of a decimal's exponent are not modelled. The letters of texts are those
-- of ASCII.
--
-- Parameters, with the documented behaviour that the theorems need as their laws: the JSON codecs
-- of the risk store, which decimals and times the columns of PostgreSQL
-- take and what NUMERIC keeps of a decimal, the exchange client of ccxt, the
-- answers of httpx, PyJWT, PBKDF2, strptime and strftime, the reading of the payloads of Yahoo and
-- Twelve Data by pydantic, the queries of ClickHouse, the floats of a metric, the sleep, the rate
-- limiter and the timeout of a policy, the features of candles, and the bounds of the folds of a
-- walk-forward run.
--
-- A text that is too long for its column is refused; that PostgreSQL shortens one with nothing but
-- spaces too much is not modelled.
--
-- Not modelled: what is glue (settings, composition, migrations, the other scripts), what is
-- computed in floating point by a library (indicators), the module
-- app/modules/trading/domain/entities.py, which the package of the same name shadows, and
-- app/modules/trading/application/services/apply_fill.py, whose import of OrderStateChanged from that
-- package fails.
pub mod Base
pub mod Core
pub mod Int
pub mod Decimal
pub mod Parse
pub mod Tooling
pub mod Providers
pub mod Messaging
pub mod Risk
pub mod MarketData
pub mod Strategies
pub mod Signals
pub mod Backtest
pub mod Auth
pub mod Workers
pub mod Trading
pub mod Scaffold
mod Examples
