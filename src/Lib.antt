-- ===== src/Lib.antt =====
-- sulis: a library for authentication in Go. This development models the service, package sulis, its
-- packages totp, recovery, passkey and passwordcheck, and three implementations of its stores: packages
-- memstore, sqlite and postgres.
--
-- The service is a record of the interfaces that sulis.New is given (`Service.Sulis`): the stores of
-- users, sessions and tokens, the second-factor checker, the configuration, the clock and sources of
-- randomness, and the password hasher. Each method is an `Exec W A`: a state transition on the world W
-- of those interfaces that returns a value or an error, and keeps what was written when it fails, as
-- Go does. The service is therefore one model for every store that has the interface; `Memory` puts the
-- in-memory stores in their place.
--
-- Files and the code they model:
--   Base and its modules          tests, lists, text as bytes, finite maps
--   Error, Exec                   errors.go; returned and wrapped errors, errors.Is, early return
--   Model                         the records of user.go, session.go, token.go, issue.go
--   Model/Event                   events.go: kinds, reasons, metadata, limiterKeyParts
--   Service                       the interfaces UserStore, SessionStore, TokenStore, Limiter,
--                                 PasswordChecker, SecondFactorChecker, EventSink; Config; Sulis
--   Service/Guards                emit, allow, allowIP, requireVerifiedEmail, accountStatus,
--                                 checkPasswordPolicy, normalizeEmail
--   Service/Users                 updateUserWithRetry of sulis.go
--   Service/Tokens                createTokenForUser, consumeToken of sulis.go, token.go
--   Service/Sessions              issue.go, session.go, ValidateSession and RevokeSession of sulis.go
--   Service/Status                status.go
--   Service/Login                 VerifyPassword, Login, Register, rehashPassword of sulis.go,
--                                 completeFirstFactor of issue.go
--   Service/Password              setPassword, ChangePassword, SetInitialPassword, password resets
--   Service/Email                 emailverification.go, changeemail.go
--   Service/MagicLink             magiclink.go
--   Service/TwoFactor             twofactor.go
--   Service/StepUp                stepup.go
--   Memstore/Users                memstore/user.go
--   Memstore/Sessions             memstore/session.go
--   Memstore/Tokens               memstore/token.go
--   PasswordCheck                 passwordcheck/blocklist.go, passwordcheck/passwordcheck.go
--   PasswordCheck/Hibp            passwordcheck/hibp.go
--   RateLimit                     MemoryLimiter of limiter.go
--   Http                          cookie.go, csrf.go, middleware.go: the decisions of the middleware
--   Totp, Totp/Code,
--   Totp/Construction,
--   Totp/Enrollment               totp/totp.go, totp/store.go
--   Totp/Encryption               totp/encrypt.go
--   Password and its modules      password.go: the stored text, hashing, verification
--   Passkey and its modules       passkey/passkey.go, passkey/http.go, passkey/events.go,
--                                 passkey/store.go
--   Recovery                      recovery/recovery.go, recovery/store.go, recovery/events.go
--   Memstore/Totp                 memstore/totp.go
--   Memstore/Recovery             memstore/recovery.go
--   Memstore/Passkeys             memstore/passkey.go
--   Sqlite                        store/sql/sqlite/sqlite.go: tables, statements, transactions
--   Sqlite/Users, Sqlite/Tokens,
--   Sqlite/Sessions, Sqlite/Totp,
--   Sqlite/Passkeys,
--   Sqlite/Recovery               the stores of store/sql/sqlite
--   Base/Decimal, Base/Base64     what the code uses of packages fmt and encoding/base64
--   Postgres                      store/sql/postgres/postgres.go: advisory locks, transactions
--   Postgres/Users and so on      the stores of store/sql/postgres
--   Postgres/Equivalence          their methods beside those of store/sql/sqlite
--   Postgres/Concurrent           store/sql/postgres/passkey.go on interleaved connections
--   Setup and its modules         config.go, New and WithStores of sulis.go
--   Memory                        the service over the in-memory stores
--   Tests                         examples
--
-- A method of Go named likeThis is a function named like_this. A method whose body is long is split at
-- its branches: verify_password calls judge, check_password, right_password and wrong_password;
-- set_password calls purge_credentials; redeem_magic_link calls is_bound, link_user and redeem_bound.
--
-- Representation. A time is a number of nanoseconds and a duration a difference of such; both are not
-- negative. A uuid is a number, and uuid.Nil is 0. Text is a list of bytes; TrimSpace and ToLower act on
-- ASCII. A pointer that may be nil is an option. A Go map is a finite map in the order of insertion,
-- where the code's result does not depend on that order. A method that holds the mutex is one step.
-- The float64 tokens of the rate limiter are values of a parameter, with its arithmetic. A panic of Argon2 is
-- an error value of its own, which New passes on.
-- A SQLite table is a list of rows whose columns hold the Go values themselves; a statement's answer is
-- taken from a list of outcomes, so that every failure of the driver is a case. The text of a uuid in a
-- challenge key is the uuid's number. Spaces that Sscanf skips are those of ASCII.
-- PostgreSQL has the tables of SQLite; a connection holds a list of advisory locks, which the end of its
-- transaction releases. Connections are interleaved statement by statement: a statement reads what is
-- committed when it starts, and a transaction is seen by others from its commit on. Other requests that
-- meddle with an update are a list of writes, one of which follows each read.
--
-- Bounds. updateUserWithRetry makes three attempts (`max_user_update_retries` is the two after the
-- first), so `attempts` is a recursion on the number that is left and not on fuel. The shift of
-- lockoutBackoff is taken modulo 2^64 with its sign, as in Go.
--
-- Not modelled: Argon2, HMAC, SHA-256, FNV, AES, mail parsing, Unicode, WebAuthn, SQLite and PostgreSQL are third-party
-- or standard library code, and parameters here; the work on the dummy hash only equalizes time; contexts
-- are never cancelled;
-- the column encodings of the SQL stores, and the opening and migration of their
-- databases are not modelled. The conformance tests of storetest and the example web application are
-- clients of what is modelled.
pub mod Base
pub mod Error
pub mod Exec
pub mod Http
pub mod Memory
pub mod Memstore
pub mod Model
pub mod Passkey
pub mod Password
pub mod PasswordCheck
pub mod Postgres
pub mod RateLimit
pub mod Recovery
pub mod Service
pub mod Setup
pub mod Sqlite
pub mod Tests
pub mod Totp
