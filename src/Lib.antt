-- ===== src/Lib.antt =====
-- Sibilla: an event-driven trading system whose orders pass a deterministic risk engine.
--
-- A strategy makes a `TradeProposal`; `RiskEngine.evaluate` runs some thirty checks on it and sizes it
-- from the risk at its stop; the runner sends what was approved. The kill switch and the limits are
-- shared state that is changed by their own calls and read by each evaluation.
--
-- Files and the code that they are about, with paths from the repository's root:
--   Base       Texts, dictionaries, lists and integers as Python has them.
--   Float      Python's float as an interface: operations, the laws that IEEE rounding keeps, and a
--              fixed-point arithmetic that meets them, with which the examples are computed.
--   Enums      src/core/enums.py. A member is a constructor, its string is `value`, and a call of the
--              class on a string is `of_value`.
--   Pricing    src/core/pricing.py, one function each, under the same names.
--   Config     src/core/config.py, the class RiskLimits with its validators as `is_valid`.
--   Schemas    src/core/schemas.py: instruments, quotes, proposals, decisions and accounts, with the
--              properties of the classes and the validators that change or refuse a value.
--   Store      The rows that the switch, the limits and the audit write: src/core/models.py,
--              src/core/repository.py, src/core/db.py, src/core/audit.py. A transaction takes whether
--              it commits as an argument.
--   Market     src/market/instrument_registry.py: the registry and the structural correlation.
--   Risk       src/risk: KillSwitch, Limits, Sizing, Margin, Correlation and Engine are the modules of
--              the same names; `evaluate` is `checks_before`, `compute_size` and `checks_after`.
--   Etoro      The strategies on eToro: Momentum is src/strategies/etoro_momentum.py,
--              Screener is src/strategies/etoro_pairs.py, Judge is
--              src/intelligence/etoro_judge.py, Proposal and Legs are the two adapters of src/risk,
--              Universe and Rates are instruments.py and rates.py of src/collectors/etoro,
--              Gateway is src/execution/etoro/gateway.py, and Runner is src/workers/etoro_runner.py. A
--              screened candidate with a quote and a catalyst becomes a proposal, the engine decides on
--              it, and an approved one is posted.
--   RateLimit  src/core/ratelimit.py: Breaker is CircuitBreaker, Bucket is TokenBucket.
--   Bus        src/core/bus.py, the class InMemoryBus: a run is a list of the calls and of the turns of its
--              consumer, in the order in which the event loop makes them.
--   Http       src/core/http.py, HttpClient.request over what the transport gives at each attempt.
--   Cache      src/core/cache.py, the classes MemoryCache and Cache.
--   Quant      src/quant: Features, EventStudy, ResidualAlpha and CrossAsset are the modules of the same
--              names.
--   Evaluation src/evaluation: Backtest is simulate_event_trades of backtest.py.
--   Examples   Runs on concrete inputs.
--
-- A call that may raise gives a `Result`, or an outcome record that also holds the state it leaves. The
-- time is an argument. Floats are finite: infinite values and NaN are left out, except the infinite
-- leverage of an account without equity. Loops run over lists; the digits of a number n are written with
-- n + 1 steps of fuel, which are enough since each step takes one digit.
--
-- `sum` adds from the left and rounds each time, without the correction term of later interpreters. The
-- attempts of a request are bounded by the count it is given, and the slices of the identifiers by their
-- number, since each slice takes one at least.
--
-- Not modelled: the collectors of news, the language models, what runs on Redis, the transport under the HTTP
-- client, the rest of the evaluation and the dashboard; the texts of log lines and of the checks'
-- details.
pub mod Base
pub mod Float
pub mod Enums
pub mod Pricing
pub mod Config
pub mod Schemas
pub mod Store
pub mod Risk
pub mod Market
pub mod Etoro
pub mod RateLimit
pub mod Bus
pub mod Http
pub mod Cache
pub mod Quant
pub mod Evaluation
pub mod Examples
