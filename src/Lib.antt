-- ===== src/Lib.antt =====
-- The backend of a forum: groups with threads and posts, private messages with notifications, media,
-- accounts with sessions, and a websocket hub that announces who is online.
--
-- Prelude has the tables as lists of rows and the lemmas on them, Text has texts as lists of bytes with
-- the functions of Go's library that the program calls (strings, regexp, path, net, unicode/utf8).
-- Models has the records of internal/models.
--
-- World has what a request runs in: the tables of migrations, the bucket, and an environment that stands
-- for the code outside of the repository (clock, random source, argon2, SHA-256, JWT, and which calls
-- fail). An action takes a World to a value or an error with a World. A statement of PostgreSQL runs
-- alone and changes nothing when it fails; a transaction that fails is undone. Rows that the ORDER BY of
-- a query leaves equal come in any order, maybe another one at each call, and what json.Marshal and a
-- jsonb column make of a text is a parameter. World/Rules reads an
-- action backwards from its success and carries an invariant through it; World/Steady shows that the
-- environment stays.
--
-- Store and its children have internal/store, one file for each store, with the SQL of a method as a
-- function on the tables; Store/Cascade has the foreign keys of migrations. Services and its children
-- have internal/services, one file for each service, with the checks and the translation of errors in
-- the order of the code. Auth has internal/auth, Config has internal/config, Storage has
-- internal/storage. Identifiers are numbers, with 0 for the nil UUID; times are numbers.
--
-- Ws has internal/ws/hub.go: Ws/Registry the map of connections, Ws/Presence its consistency, Ws/Steps the
-- goroutines as a step relation (a connection registers, leaves, closes its channel; a send waits for
-- room; Run delivers; WritePump writes an event or gives up), Ws/Sound and Ws/Safety the invariant,
-- Ws/Refines the set of connections that a hub stands for, Ws/Drains how Run catches up, and Ws/Writes
-- how WritePump does. A connection whose ReadPump ends may leave at any step. The buffers have the capacities of the code, 256 events
-- in the hub and 64 in a connection.
--
-- Http has internal/handlers and internal/http, one file for each file of handlers: a handler takes a
-- request and a site, which is a World with the hub, to a response and a site. Http/Input has what
-- handlers read of a request, Http/Answers the writing of answers and errors, Http/Gate the middlewares
-- RequireAuth and RequireRole, Http/Live the websocket endpoint with its new connection, Http/Probes the
-- health and version endpoints with Ping and SchemaVersion of internal/db, and Http/Routes the table of
-- routes with the guard and the handler of each. A request comes with its route and its parameters, as
-- chi finds them; encoding/json on a body and gorilla's upgrader are parameters of the server. A
-- request is served as a whole before the next one; the events that it posts wait for room in the hub
-- afterwards, in any order, where Notify holds the request back, which allows more orders than the code.
--
-- Integrity shows what the calls of the services keep of the tables, Access who may make them, and
-- Sessions what a refresh token is good for, and what a registration and a login have checked.
-- Names, Inputs, Inbox and Unread are about the texts of requests, the private messages and the
-- notifications. Web is about every request whatever its route: Web/Frames, Web/Reads, Web/Entries
-- and Web/Writes say what the calls of services keep, Web/Rules carries it through handlers,
-- Web/Requests has the histories of requests and hub steps, Web/Safe the routes that only read, and
-- Web/Guards what the guards let through; Web/Sending, Web/Pages and Web/Inversion are about single
-- handlers. Installation is about setting up a forum, and Renaming about
-- its name. Examples has the theorems at concrete tables.
--
-- No definition runs on fuel: lists, texts and regular expressions are recursed on structurally.
--
-- Not modelled: cmd/server, Open and Migrate of internal/db and New of internal/storage/s3.go (wiring of
-- pgx, goose and minio), Load of internal/config (the process environment), the sockets of
-- internal/ws/client.go with their deadlines, the middlewares of chi for identifiers, logs, time limits
-- and CORS, the object contents in internal/storage/s3.go, and statements of concurrent requests between
-- those of one request.
pub mod Prelude
pub mod Text
pub mod Models
pub mod World
pub mod Config
pub mod Auth
pub mod Storage
pub mod Store
pub mod Services
pub mod Integrity
pub mod Access
pub mod Sessions
pub mod Inputs
pub mod Unread
pub mod Names
pub mod Inbox
pub mod Installation
pub mod Renaming
pub mod Ws
pub mod Http
pub mod Web
pub mod Examples
