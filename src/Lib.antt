-- ===== src/Lib.antt =====
-- The order and drone service of this repository: what it stores, what each call of it does, and
-- what holds of the tables after any sequence of calls.
--
-- The program keeps orders, drones and an outbox of events in PostgreSQL. A user submits an order, a
-- drone reserves it, picks it up and delivers it or fails; a drone that breaks down hands its order
-- over. Each call of internal/service/service.go is one transaction on internal/repo/postgres, and
-- enqueues the events of internal/events that a worker publishes.
--
-- Which file models which part:
-- - Base: names and tests that the modules share; Integer: Go's `int`; Sorting: ORDER BY and WHERE.
-- - Float64: `float64` as its bit pattern, with the comparisons of IEEE 754.
-- - Domain: internal/domain. A sentinel error is a value of `Sentinel`, a wrapped one keeps its text.
-- - Events: internal/events/events.go.
-- - Rows: the scanning and the arguments of statements in internal/repo/postgres/store.go, with
--   the columns and the parameters by their positions.
-- - Tables: internal/repo/postgres/sql.go, one function for each statement, on lists of rows.
-- - Exec: contexts, clock, identifiers, and the transactions of `BeginTx`, `Commit` and `Rollback`. An
--   operation is a function of the state into a result and a state.
-- - Tx: the methods of `Store` and `Tx` in internal/repo/postgres/store.go.
-- - Service: internal/service/service.go, one definition for each operation under the name of the
--   method. Service.Consistency is the invariant, Service.Lifecycle the diagram of an order's life,
--   Service.Histories the sequences of calls.
-- - Eta: internal/service/eta.go; Views: the operations of the service that only read.
-- - Outbox: internal/events/outbox.go and internal/repo/postgres/outbox.go, one tick of the worker at a
--   time.
-- - Transport: internal/transport/mapper.go and the error mappings of the three transports.
-- - Auth: internal/auth/auth.go, over the JWT library as an argument, whose laws are `IsFaithful`.
-- - Grpc: the handlers of internal/transport/grpcapi/server.go, with the checks of helpers.go;
--   Grpc.Interceptor and Grpc.Descriptors: the interceptor and the descriptors of the methods.
-- - Http: internal/transport/httpapi/server.go, with the table of routes in Http.Routes. The router and
--   the decoding of JSON are arguments.
-- - Thrift: internal/transport/thriftapi/processor.go. A protocol is read call by call from what is
--   left of a message; what a writer calls of a protocol is a list, which is run up to the first call
--   that fails. Thrift.Handlers has the handlers and Thrift.Processor has `Process`.
-- - Migrations: internal/repo/postgres/migrate.go, over a directory and a database that are arguments.
-- - Tests: runs of the code and the theorems at concrete inputs.
--
-- A time is the number of microseconds that a column of type `timestamptz` keeps; the clock of the
-- environment counts nanoseconds, and a reading of it is what such a column keeps. The responses that
-- show a time before it is stored are modelled as they show it when it is read again. A numeric date of
-- a token is what the JWT library makes of a time. An identifier is the text of a UUID as PostgreSQL
-- prints it.
--
-- The environment `Env` answers what is outside of the program: the clock, the identifiers drawn, which rows are locked by others when a statement runs, the collation of texts,
-- and which statements fail. A theorem about an operation holds of every environment. Operations of
-- one history are transactions one after the other: the statements lock the rows that they read, and
-- a transaction sees the rows of others only as locked or committed. A statement that the database
-- rejects, as for an identifier that is no UUID, is one that fails. Arithmetic on `float64`, the
-- functions of package `math` and `sort.Slice` are arguments. The loops over the fields of a Thrift
-- message run on the fuel of the server; Thrift.Termination counts how much a message takes, for a
-- protocol in which the head of a field is never empty. Each other loop runs through a list.
--
-- Not modelled: the configuration, the commands and the publishers; the JSON text of
-- payloads and bodies, of which the entries are kept; the set-up of the servers and the generated
-- Thrift code, which no part uses.
pub mod Base
pub mod Float64
pub mod Domain
pub mod Events
pub mod Rows
pub mod Integer
pub mod Sorting
pub mod Tables
pub mod Exec
pub mod Tx
pub mod Eta
pub mod Views
pub mod Outbox
pub mod Transport
pub mod Auth
pub mod Grpc
pub mod Http
pub mod Thrift
pub mod Migrations
pub mod Service
pub mod Tests
