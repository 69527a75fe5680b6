-- ===== src/Lib.antt =====
-- The control plane of the Dota 2 spectator service (control-plane/): an HTTP API for users, linked
-- Steam accounts and friends, a PostgreSQL store, and a gRPC stream to the worker that logs in to
-- Steam. A user registers and logs in with a password, from which the key of their credentials is
-- derived; the key stays in memory as long as the token. Linking an account asks the worker for a
-- refresh token, which is stored encrypted under that key; a friends request decrypts it and sends
-- it to the worker.
--
-- Parts and files. Names are the source's, in snake_case.
--   Prelude      shared notation, `Result`, bytes and dictionaries (`Dict` is a Go map by key)
--   Go           the parts of Go's library that the code's meaning rests on: decimal numbers and
--                `%d` scanning (Decimal, Scan), `strings.Split` (Split), base64 (Base64), hex
--                (Hex), UTF-8 in both directions (Utf8), the JSON text of an object of strings and
--                a decoder for such structs, and the text of rows with booleans (Json), string
--                order and the contract of `sort.Slice` (Order)
--   Auth         control-plane/internal/auth: password.go (Phc, Hasher), crypto.go (Crypto),
--                keycache.go (KeyCache), jwt.go (Jwt); Primitives holds what argon2, AES-GCM and
--                crypto/rand are assumed to do, StandIns concrete functions that do it
--   Store        control-plane/internal/store and control-plane/db/migrations: the two tables as
--                lists of rows (Schema, Table), users.go (Users), steam_accounts.go
--                (SteamAccounts), store.go (Pool); Indexes is what the stores promise, as maps from
--                keys to rows
--   Workers      control-plane/internal/workers: the messages (Messages), registry.go (Registry),
--                the tables of waiting calls of friends.go and link.go (Pending), server.go and the
--                calls (Server), request ids (RequestIds), and the goroutines that interleave
--                (Streams)
--   Api          control-plane/internal/api: models.go and json.go (Models, Requests, Responses),
--                events.go (Events), middleware.go (Bearer, State), auth.go (State),
--                steam_accounts.go (SplitJwt, Accounts), friends.go and friendsProvider of control-
--                plane/cmd/server/main.go (Friends), router.go and handlers.go (Router, with the
--                texts of requests and answers in Router.Exchange), linkProvider of main.go
--                (LinkProvider), ws.go (Hub); Samples holds the states of the tests
--   Sessions     control-plane/internal/sessions/state.go
--   Main         control-plane/cmd/server/main.go: the start, and the listeners and the shutdown
--                (Shutdown)
--   Testdb       control-plane/internal/testdb: the database of a test
-- The children of a component's module hold its theorems; the Tests modules hold runs on concrete
-- inputs.
--
-- How the code is modelled. A method becomes a function from the state to the new state and the
-- answer; a mutex makes it one step. A handler takes what it gets from outside as arguments: the
-- clock, the random source, one `Postgres` per statement that says whether it fails, the id a new
-- row gets and how a text reads as a UUID. What a handler starts and does not wait for (a link, a
-- push event, a relayed code) is a list of `Effect`s. `none` is a panic in the password hasher and
-- a blocked send in the worker server. Passwords, tokens, keys and headers are lists of byte codes,
-- so they are taken apart as the code does; ids and names are only compared and stay `String`.
-- Integers that the code reads from text are checked against their width (`uint32`, `uint8`,
-- `int`). Times are nanoseconds. A call that waits for the worker (`Link`, `ListFriends`) is two
-- steps, up to the wait and after the reply, with the steps of the stream between them;
-- `leave_link` and `leave_friends` are its end without a reply. `Workers.Streams` cuts these
-- further, into what one goroutine does under a lock or with a channel, but for the pairs that its
-- header names, and lets the steps of all sessions, pumps and callers come in any order;
-- `Api.Hub.Serving` and `Main.Shutdown` do the same for the connections of `/ws` and for the
-- listeners of main.go.
--
-- Bounds. Every loop is structural recursion on its input, but for `format_uint`, which has one
-- round of fuel more than the number it prints, and so more than the number has digits. The reader
-- of a push event takes at most ten members, as many as the event has fields. The decoder of a
-- request has as many rounds as the text has characters; `Go.Json.Decode.Fuel` shows that more make
-- no difference. The queue of a worker's commands holds 8, a channel for a reply holds 1, and the
-- channel of main's errors 2.
--
-- Parameters. argon2, HMAC, AES-GCM, crypto/rand, the JWT library, `sort.Slice` and encoding/json's
-- reading of a token's payload are arguments, with laws only where a theorem needs them: argon2
-- returns keys of the length asked for unless it panics, GCM opens exactly what it sealed, a random
-- source returns bytes of the length asked for, `sort.Slice` sorts by a strict weak order, the JWT
-- library parses exactly what it signed while the token has not expired.
--
-- Not modelled: the path matching of chi, logging, the SQL driver, the accessors and wire format of
-- generated code (gen/, docs/), the Python worker and the frontend.
pub mod Prelude
pub mod Go
pub mod Auth
pub mod Store
pub mod Workers
pub mod Api
pub mod Sessions
pub mod Main
pub mod Testdb
