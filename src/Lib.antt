-- ===== src/Lib.antt =====
-- The backend of a bus kiosk that speaks Taigi (backend/, Python): a rider asks for departures by
-- voice or on the screen; a language model with tools answers, over the open data of TDX.
--
-- The parts and how they interact. The API (backend/api) limits the requests of a client, keeps the
-- chat sessions in SQLite and serves the boards. The agent (backend/agent) answers some questions by
-- rule and runs the others through a loop of the model and its tools, on a history that it trims. The
-- departures (backend/services/departures) turn the rows of a bus provider (backend/providers) into a
-- board of a stop and a detail of a route. Every request to TDX waits for a slot of one rate limiter,
-- under the time budget of its caller. What must be closed asynchronously, as an HTTP client, has an
-- owner that outlives its waiters.
--
-- Which file models which part:
--   Prelude         shared names, lists, texts as code points, tables by text key, `sorted`.
--   Providers/TdxRateLimit   backend/providers/tdx_rate_limit.py: `Limiter` is TdxRateLimiter with its
--                   deque and pause, `try_take`, `penalize` and `acquire` its methods; `remaining` is
--                   remaining_budget of backend/upstream_deadline.py.
--   Providers/TtlCache       backend/providers/ttl_cache.py: `get_or_fetch`, `fetch_locked` and
--                   `maybe_sweep` are the methods of TtlCache.
--   Providers/KeyedLocks     KeyedLocks there: `enter` is `acquire` before its await, `leave` its end.
--   Api/RequestLimits        backend/api/request_limits.py: `call` is RateLimit.__call__, `prune`,
--                   `refill` and `spend` its steps, on a table of buckets by client.
--   Api/BodyLimit            RequestBodyLimitMiddleware there: `handle` is `__call__`, around any application.
--   Api/SessionStore         backend/api/session_store.py: `Store` is ChatSessionStore and `Db` its two
--                   tables; every method has its name, over `write_transaction`. An `Env` says which of
--                   begin, commit and rollback fail; where a rollback fails, what the body did is left
--                   in `Db`, and whether the file has it is not said.
--   Agent/Context            backend/agent/context.py: estimate_tokens, group_exchanges, trim_history and
--                   compact_long_tool_results, with the token counters as an argument.
--   Providers/FallbackBike   backend/providers/fallback_bike.py: `fetch_stations` of FallbackBikeProvider.
--   Pipeline/Numerals        the numerals of backend/pipeline/normalize.py.
--   Pipeline/Streaming       StreamNormalizer there: `feed`, `flush` and the steps under them.
--   Pipeline/Output          normalize_llm_output there.
--   Agent/Dispatch           backend/agent/tool_dispatch.py: `execute_one` is _execute_one.
--   Agent/Session            backend/agent/session.py: `run_llm_loop` is AgentSession._run_llm_loop, a
--                   `pass` is one pass of its loop, and a `Turn` is what it leaves.
--   Agent/Router             backend/agent/router.py: `classify` is IntentRouter.classify.
--   Agent/Responses          AgentSession around its loop: `respond_stream` and what it calls.
--   AsyncLifecycle           backend/async_lifecycle.py: `Owner` is AsyncResourceOwner, with its entries,
--                   acquisitions and tasks by number; a method with an await is cut in two, as
--                   `begin_release` and `end_release`. Events are what the event loop runs.
--   Departures               backend/providers/bus.py (Bus), and of backend/services/departures
--                   classification.py (Classification), rows.py and the names of normalize.py (Rows),
--                   and snapshot.py (Snapshot), and the edit distance of fuzzy_match.py (FuzzyMatch).
--   Tests           runs on concrete inputs.
--
-- Conventions. A clock's reading is a natural number of ticks, so that sums and differences are exact
-- where the source rounds floats; a difference that may be negative is an integer or is compared
-- without subtracting. Tokens of a bucket are counted in parts fine enough for the refill of a tick to
-- be whole. An exception is a constructor of a result type, or `none` where it carries nothing.
-- Dictionaries with text keys are association lists in the order of their entries.
--
-- Bounds and fuel. A wait for a slot runs over the list of its sleeps' lags, whose end stands for a
-- caller that still waits. The loop of a turn has as fuel its tool rounds and three passes more. The
-- digits of a number have the number's successor as fuel, and the search for parentheses, tags and
-- think blocks the length of the text; each step divides by ten or takes a character. The scan for
-- tags has the text's length and one, and each of its passes but the last takes a tag from the text.
--
-- Not modelled: telemetry and logs, which no result depends on; the network and the JSON of TDX, whose
-- decoded rows are arguments; the tokenizer, `int` of a text, OpenCC and the language model, which are
-- arguments too; the voice pipeline and the frontend. Code without an await between reading and
-- writing its state is one step; where the order of steps is open, as of an owner's tasks and of the
-- tasks at a lock, they are events in any order.
pub mod Prelude
pub mod Providers
pub mod Api
pub mod Agent
pub mod Pipeline
pub mod Departures
pub mod AsyncLifecycle
mod Tests
