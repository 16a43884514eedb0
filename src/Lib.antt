-- ===== src/Lib.antt =====
-- LiteMCP's backend: an administration of MCP services with password logins, sessions in Redis,
-- global roles and grants on services, in backend/src/litemcp.
--
-- A login goes through the lockout (auth/lockout.py) and, once the password has been verified,
-- stores a session in Redis and gives out an access token and a refresh token (auth/session.py). A
-- refresh (auth/refresh.py) trades the current secret of a session for new tokens; a secret that
-- comes back ends the session. A logout (auth/logout.py) removes one session or all of a user's.
-- auth/bootstrap.py creates the first admin, auth/rbac.py guards the changes of accounts,
-- auth/service_rbac.py the actions on a service. The tables and their constraints are in
-- db/models.py, the versioned update of a service in db/repository.py, the settings in
-- core/config.py, the checks of a cookie-backed write in security/csrf.py. auth/access_jwt.py
-- verifies an access token, security/api_keys.py creates and verifies the keys of services,
-- auth/password.py and auth/password_migration.py hash passwords, storage.py keeps artifacts.
-- main.py has the routes, the stack of middleware (correlation.py and security/redaction.py) around
-- them, and the readiness probes. security/redaction.py also filters log records,
-- security/encryption.py encrypts the secrets of services. db/types.py maps the types of columns to
-- a database, db/session.py opens sessions. The schema is built by the revisions in
-- backend/migrations/versions.
--
-- The files, and what each models:
--
--   Base: numbers, text, lists, options and the state monad with errors that the other files
--       share.
--   Platform: what is not in the repository. Python is hashlib, datetime, uuid and json as
--       functions; Jwt is PyJWT with JSON values as trees; Posix is posixpath.normpath by its
--       algorithm; Redis is the commands that the code sends, with their documented laws; but for
--       Posix, all are parameters. Asgi is the messages of a response, Resources what a call makes
--       and has to give back. Memory is a concrete instance of each, on which the theorems are
--       tried.
--   Config: the record of core/config.py. Fernet is its regular expression for keys, Lists the
--       settings that are text with commas, Production the refusal of unsafe settings, Load the
--       settings from the environment and get_settings.
--   Db: db/models.py, a record and a check for each table; Users, the rows of accounts as a
--       transaction sees them; Repository, db/repository.py, with Writers for its proofs; Scope,
--       the unique names of services; Types, db/types.py, with Types.Values for what is bound and
--       given back; Session, db/session.py.
--   Auth.Lockout: auth/lockout.py. Counting is on failures that add up, Gate on the decision,
--       Fresh on a success.
--   Auth.Rbac: auth/rbac.py. LastAdmin is the step relation of the guarded changes.
--   Auth.ServiceRbac: auth/service_rbac.py. Grants relates the loops to the grants they look for.
--   Auth.Session: auth/session.py. Keys is on the names of keys.
--   Auth.Refresh: auth/refresh.py. Stored is the token and the fields of a session, Holding what
--       Redis holds of it, Rotation and Replay the two ends of a call, Refusals and Login what
--       surrounds it, Race the interleavings of two calls, Limit the absolute expiry over one call
--       and Lifetime over any number, Json the variant on a JSON text.
--   Auth.AccessJwt: auth/access_jwt.py. Wire is on the segments of a token, the names in their
--       objects and the keys. Signed is what a token that passes has, Accepts the equivalence,
--       Minted on those that the login and the refresh give out. Loaded fetches the account
--       through a session of db/session.py.
--   Auth.Password: auth/password.py and auth/password_migration.py. Migrated is on an account with
--       an old hash.
--   Auth.Logout: auth/logout.py. Everywhere is on all sessions, Stored on a session as a login
--       stores it.
--   Auth.Bootstrap: auth/bootstrap.py. Lock is on calls in transactions at the same time, with the
--       row lock that they take first.
--   Security.Csrf: security/csrf.py. Origins is on the setting that the allowed origins come from,
--       by csrf_allowed_origins of main.py.
--   Security.ApiKeys: security/api_keys.py. Format is on what a key is written and read as, Shape
--       on which texts are keys, Verified and Created on the two operations, Raises on keys that
--       make the check raise.
--   Security.Redaction: security/redaction.py, the redaction of texts and payloads. Hidden is on
--       what stands under sensitive keys. Exceptions is the rendering of an exception with its
--       causes, on fuel, and Exceptions.Ends how much of it is enough. Secrets is what a redactor
--       reads from the environment, Logging the filter of log records, Installed its installation,
--       Middleware what is sent in place of an exception.
--   Security.Encryption: security/encryption.py. Rotated is on the change of keys, Refused on
--       configurations without a current key.
--   Main: main.py. Ready is on the readiness probes, Thread the probe on a thread of its own
--       (Thread.Reported what its caller returns, Thread.Deadline by when), Routes the routes
--       behind the checks and inside the middleware, Writes the requests that pass the checks.
--   Storage: storage.py. Keys is on the keys that pass, Drive on drives in front of them; Backend
--       is the class and Backend.Refines relates it to a map.
--   Migrations: backend/migrations/versions, a file for each revision in Migrations/Revisions, and
--       what the operations of a revision do to a schema and when a database refuses one. Altered
--       and Closed are on single operations, Front and Undone on a revision and its downgrade,
--       Head on the whole history, Limits on the sizes of its keys, rows and names. Models is the
--       metadata of db/models.py, and Matches compares it with the schema of the revisions.
--   Correlation: correlation.py, the ids of requests and the middleware that sets them.
--   Auth.Tables: what the authentication writes, beside the constraints of its tables.
--
-- Functions keep the names of the source without a leading underscore. State is passed on: a call
-- takes a world (Redis, the accounts and the audit table) and returns its result, a value or an
-- error, with the world after it; what was written before an error stays written. What `secrets`,
-- `uuid4` and the clock give in a call is an argument of it. Times are microseconds since the first
-- day of UTC; those of Main are milliseconds, and those of Db.Types.Values count from year 1. A
-- loop is recursion on the list it runs through; only the visit of an exception's causes, which may
-- be a circle, is counted by fuel, and one call more than there are exceptions is enough; in the
-- filter of log records the fuel is Python's own limit.
--
-- Numbers in the columns of `user`, which start at zero and are only counted up, and in the
-- settings are natural numbers; other columns are integers without a bound, so that an overflow of
-- the database's widths is not modelled. Failures of the network and of the database are modelled
-- only where the code has a case for them (the readiness probes, the load of an account for an
-- access token, the insertion and the look-up of a key, the file system); not modelled is the end
-- of a key's life in Redis: the expiry that was last set is kept beside the key and leaves its
-- fields as they are, and a session is expired by its stored times.
--
-- Not modelled are HTTP routing, the algorithms of hashes, signatures and ciphers, the set-up of
-- migrations and the rows they insert, workers and the frontend.
pub mod Base
pub mod Platform
pub mod Config
pub mod Db
pub mod Auth
pub mod Storage
pub mod Security
pub mod Correlation
pub mod Main
pub mod Migrations
