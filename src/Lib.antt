-- ===== src/Lib.antt =====
-- CohortSwitch: a feature flag and progressive rollout service (backend/app), and its Python client
-- (sdk/python).
--
-- The control plane (management endpoints and the scheduler) writes flag configurations to a database
-- and then tells Redis: it deletes the cached configuration and publishes an event. The data plane
-- (evaluation endpoints) reads a configuration through the cache in Redis, or from the database, and the
-- evaluation engine decides which variation a subject gets. The client caches decisions.
--
--   Errors      backend/app/core/errors.py: what a request may raise, and the response it becomes.
--   Runtime     what is taken from code outside the repository, as one parameter: the floats of
--               CPython, `packaging.version`, `hashlib.blake2b` and the texts of identifiers. A float is
--               its 64-bit pattern. Other such code is a parameter of the functions that call it.
--   Evaluation  backend/app/evaluation: Value (dynamic JSON values), Operators (operators.py),
--               Hashing (hashing.py), Models (models.py and its validators), Engine (engine.py).
--   Schemas     backend/app/api/schemas.py: the payloads of the flag endpoints.
--   Database    backend/app/database/models.py: the rows of the flag service.
--   Flags       backend/app/services/flags.py: Allocations (percentages and boundaries), Building
--               (`_build_configuration` and the way back to a payload), Storage (rows, and
--               `compile_configuration`), Store (`create_flag`, `update_flag`, `rollback_flag`), Lookup
--               (`get_config_by_key`, `get_configs_by_keys`); Tables has the tables and
--               backend/app/services/audit.py.
--   Cache       backend/app/services/cache.py: configurations in Redis.
--   Permissions backend/app/core/permissions.py: roles, and what they permit.
--   Access      backend/app/api/dependencies.py: principals and authorization.
--   Serving     backend/app/api/evaluation.py: single and batch evaluation.
--   Management  backend/app/api/management.py: Organizations, Flags, Export; Keys has the endpoint for
--               keys and backend/app/services/keys.py. Its other modules hold lemmas and theorems.
--   Accounts    backend/app/services/auth.py and backend/app/api/auth.py: refresh tokens.
--   RateLimit   backend/app/core/middleware: the local fallback of the rate limiter; Dispatch has its
--               counters in Redis, and what it does with a request.
--   Scheduler   backend/app/scheduler: what a scheduled change does to a payload; Due has the
--               transaction over the due changes, at most twenty in one run.
--   Sdk         sdk/python/src/cohortswitch: the client, with its cache of decisions.
--   Samples     the data of the tests and of the theorems at concrete inputs.
--
-- State. The tables are one record of lists, one list for a table (`Db`), and a row of a configuration
-- holds its children, in the order in which they were inserted. A query that names no order may give
-- them in another one (`IsLoaded` of Flags/Storage/Reload), which the theorem on rows that are compiled
-- again takes into account; elsewhere the order is that of the insertion. Redis is a list of entries
-- with their expiry, and its events a list (`Service` has the three). A handler takes the state and gives
-- the new one beside its result, or an error. A transaction that raises leaves before its commit and the
-- session rolls back, so an error carries no state. Transactions follow one another; two writers that
-- read one version are two transactions that expect it. What a call of Redis does is an argument: a read
-- answers or not; a write behind a miss reaches Redis or not; a call of an invalidation is answered, is
-- lost on its way back, or is refused. A counter of Redis expires 61 seconds after its first request,
-- where that call reaches Redis. What Redis holds for a configuration is the configuration whose
-- text it is.
--
-- Identifiers, texts and instants: a priority, boundary, percentage and version is a natural number
-- (the request schemas admit no negative one), and so is an identifier; an instant, and a time to live,
-- is a number of microseconds; a dict is a list of entries. Errors are values, so a function that may
-- raise returns a Result. Functions recur on a list or a value; only the digits of a number (`decimal` of
-- Prelude) have fuel, the number itself, and each digit uses one step of it.
--
-- A payload stands as it is after its schema has validated it: of the checks of a schema, only those
-- that the service runs again on values of its own (the bounds of a percentage, the single action of a
-- rule) are modelled, and lengths and patterns of texts are not. The texts of exceptions that the
-- service copies into an error, and the coercions of pydantic between value types, are not modelled.
--
-- Not modelled: the context of a request (`RequestContextMiddleware`); registration, login and
-- `get_current_user`; hashing and access tokens (backend/app/core/security.py), which are calls of
-- libraries; streaming, health, metrics, logging and settings, which are input and output; the session
-- of the database, its locks on rows and its migrations; the connection of the client.
pub mod Prelude
pub mod Errors
pub mod Runtime
pub mod Evaluation
pub mod Schemas
pub mod Database
pub mod Flags
pub mod Permissions
pub mod Access
pub mod Accounts
pub mod RateLimit
pub mod Scheduler
pub mod Cache
pub mod Serving
pub mod Samples
pub mod Management
pub mod Sdk
