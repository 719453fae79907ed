-- ===== src/Lib.antt =====
-- Verification of Chronos, a task planner: a server in C++ over PostgreSQL (backend/) and a Qt
-- client (frontend/) that keeps a copy of the user's boards, statuses (the columns of a board) and
-- tasks in SQLite and synchronises it with the server.
--
-- Server. Auth is backend/src/server/auth/jwt.cpp: Auth/Base64 the two codecs, Auth/Jwt the tokens,
-- their parts, signature and claims. `create_token` and `parse_and_validate_token` take the clock
-- and the environment as arguments. OpenSSL's HMAC, nlohmann::json and std::stoll are the record
-- `Libraries`, and what the round trip relies on about them is `LibraryLaws`. Bytes are numbers
-- below 256; the conversions of JSON integers to `int` and `time_t` wrap as in C++. Auth/WithAuth
-- is backend/src/server/auth/with_auth.cpp, which runs a handler for the user of an accepted token.
-- Pool is backend/src/db/connection_pool.cpp: a step of a thread is what it does between taking the
-- lock and letting it go, or the `notify_one` that `release` calls after its lock, and any
-- interleaving of such steps is a run. Pool/Handles has the moves of a handle, which gives its
-- connection back at its end. Server has the rest: Server/Rows backend/models, Server/Tables
-- backend/migrations/init.sql, Server/Repositories backend/repositories, Server/Http
-- response_utils.cpp and what a handler reads of a request, Server/Handlers the handlers of
-- backend/src/server/board, status and task, and Server/Router their routes of server.cpp and
-- Session::handleRequest. A `Call` is a request for one of these 14 routes, and what is said of
-- requests and of sequences of them is said of these: /auth/v1/register, which writes a board and
-- statuses for a new user, and the other routes of accounts and pomodoro sessions are not modelled.
-- A method or handler is an action (Server/Action): a function from the world, which is the tables,
-- the sequences behind the ids, the clock and the connections that will fail, to a result or an
-- exception and the world after it. A transaction that throws is rolled back but its ids are used
-- up. nlohmann::json's conversions, std::stoll, strftime, std::get_time, char_length of PostgreSQL
-- and the passwords are the record `Libraries`. Server/Steps is the specification, the steps that a
-- request of a user may take, and its children prove that the handlers keep to it; Server/Invariant
-- and Server/Isolation are about those steps, and Server/Requests about requests. Server/NewBoard,
-- Listings, NameCache and Params are about what single handlers answer, and Server/Exceptions about
-- what the repositories throw. A text is its bytes; a description is never NULL.
--
-- Client. Local is frontend/local_models, frontend/local_repositories and
-- frontend/sql/local_init.sql. Local/Rows has the structs, Local/Db the tables and the form of a
-- repository method: a function from the tables to a result, or an exception, and the tables after
-- it. Local/Schema and Local/Accounts say when the constraints refuse a statement, what the
-- triggers write and what a delete takes along. Local/Boards, Statuses, Tasks, Users and Sessions
-- have one definition per method of the repository of that name (`findById` is `find_by_id`),
-- composed as the code composes them; a transaction that fails leaves the tables as they were.
-- Foreign keys are enforced or not by the flag `foreign_keys` of the tables, as the connection's
-- PRAGMA has it.
--
-- Sync is frontend/sync. Sync/Wire has what the managers read from JSON and the requests that they
-- hand to the network manager; Sync/Boards, Statuses, Tasks, Users and Sessions are the managers
-- (`saveFromServer`, `parse`, `sync`, `handlePushResponse`), which call the repositories.
-- Sync/Coordinator is the coordinator: its flags and its tables are a record, each method a
-- function on it, and the requests and signals that it emits are kept in the field `out`. An
-- exception of a manager leaves the coordinator's method at that point; the methods are slots,
-- which Qt lets no exception leave, so a run of calls ends there.
--
-- Forms is frontend/include/validation_utils.h without the fields of users, and the creation of a
-- board in frontend/src/board_create_screen.cpp. QString::trimmed is a field of `Env`;
-- `utf16_length` is QString::length, while SQLite's length() is the number of characters.
--
-- Loops run over lists and are structural recursion; the one loop on fuel, the padding of
-- base64url_decode, is given the three rounds that it can need. Ids are unbounded integers here and
-- `int` in the client: `createLocalId` would overflow only below -2^31.
--
-- Not modelled: Qt, SQLite and the network beyond what the definitions state, failures of the disk,
-- the other screens; of the server other threads between the queries of one handler, a commit whose
-- outcome is unknown, the handlers of accounts and of pomodoro sessions with their routes, the
-- metrics and the log.
pub mod Base
pub mod Json
pub mod Auth
pub mod Pool
pub mod Server
pub mod Local
pub mod Forms
pub mod Sync
