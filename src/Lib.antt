-- ===== src/Lib.antt =====
-- Verification library for eleven parts of myhomework, a collection of Go programs: the builders
-- of DELETE and SELECT statements (homework_delete), the builder of SELECT statements over a model
-- (homework_select), the builders of SELECT, INSERT and UPDATE statements with joins and
-- subqueries (homework_subquery), the registry of models (homework_subquery/model) and the reading
-- of rows into structs (homework_subquery/internal/valuer), the message frames of the RPC
-- framework (rpc/message) with its server and client (rpc), the HTTP router without middlewares
-- (homework1) and the one with them (homework2), the memory-limited cache (homework_memory_limit),
-- and the graceful shutdown of an application (homework_graceful_shutdown). The RPC server and
-- client call the message frames, rows are read by the models of the registry, and the statements
-- of homework_subquery are built over such a model; the two routers take the same parameters. What
-- all share is in Common: texts as lists of bytes, Go maps as association lists, int64 as bit
-- patterns, and results with errors.
--
-- Writer models what a SQL builder writes into, its fields sb and args; a method that writes and
-- may return an error is an action on that state, and Writer/Outcomes has the rules by which the
-- text, the arguments and the first error of a chain of actions are found. Delete/Expression
-- models homework_delete/column.go and predicate.go, Delete/Deleter models delete.go and
-- Delete/Selector models select.go: build is Build, from is From, filtered is Where,
-- build_expression is buildExpression. The name that reflection gives for the type parameter is an
-- argument.
--
-- Select/Expression models homework_select/column.go, predicate.go, aggregate.go and
-- expression.go, and Select/Selector models select.go, method by method. The model of the table is
-- what the registry returns, an argument of build. Select/Texts says what a statement looks like,
-- what its arguments are and what is wrong with it, independently of the order in which the code
-- writes.
--
-- Orm/Expression and Orm/Methods model the parts of the statements of homework_subquery,
-- Orm/Builder models builder.go, Orm/Selector select.go, Orm/Dialect dialect.go, Orm/Inserter
-- insert.go and Orm/Updater updater.go; build of each is Build. A subquery is built through the
-- interface QueryBuilder, whose call may do anything to a heap; the heap also holds the strings in
-- which subqueries keep their text. Orm/Columns says by the maps of the models which column or
-- fields a name stands for, Orm/Shapes what depends on the shape of a part, and Orm/Texts,
-- Orm/StatementTexts and Orm/InsertTexts say what the statements look like. The theorems on whole
-- statements take the subqueries in conditions as built before; those in FROM are built on the
-- way.
--
-- Registry/Naming and Registry/Models model homework_subquery/model/registry.go, with reflection
-- and the package unicode as parameters; a pointer to a field is its place in the model, as the
-- two maps and the list of a model share their fields. Registry/Renaming joins them to the
-- builders. Valuer/Values models reflect.go and unsafe.go of homework_subquery/internal/valuer,
-- and Valuer/Registered joins them to the registry. A struct is the list of the values of its
-- fields, each exported or not; what Scan makes of a column may depend on the value that stands in
-- its destination, a new one by reflection and the field's own by addresses.
--
-- Message/Wire holds what the two frames share: uint32 words, the moving slice, and the panics of
-- Go's slices and indexes. Message/Request models rpc/message/request.go and Message/Response
-- models response.go, encode_req for EncodeReq and so on. The loop of DecodeReq runs on fuel, the
-- length of the header; each round consumes a byte at least, and a theorem shows that the fuel
-- never runs out.
--
-- Rpc/Connection models ReadMsg of rpc/tcp.go over the segments in which bytes arrive, Rpc/Context
-- the context that the server makes of a request, Rpc/Server the rest of rpc/server.go up to the
-- loop of handleConn, Rpc/Client doInvoke and send of rpc/client.go, and Rpc/Stub the function
-- that setFuncField makes for a method of a service; Rpc/Trips puts them together. Methods,
-- serializers and compressions are functions, as the code finds the first by reflection and the
-- others in other packages. The loop of handleConn has fuel for its rounds; a theorem shows that
-- one round more than there are messages is enough.
--
-- Web/Tree, Web/Register and Web/Match model homework2/route.go and serve of homework2/server.go.
-- A node owns its children, so it is a value; a panic of a registration is an error value, and the
-- half-built tree behind a panic is not modelled. The package regexp is a parameter with three
-- operations, as are the types of handlers and middlewares.
--
-- Plain/Tree, Plain/Register and Plain/Match model homework1/route.go and serve of
-- homework1/server.go, the same way and with the same panics. Plain/Forget takes the middlewares
-- out of a route tree of homework2, by which the later router is compared with the earlier one.
--
-- Cache/MapCache models homework_memory_limit/memory_cache.go and Cache/MaxMemory models
-- max_memory_cache.go, set for Set and so on. An operation is one step on the state of the two
-- caches; a lock that the goroutine already holds ends it as a deadlock. The linked list of the
-- package ekit is a parameter, with its documented behaviour as hypotheses (Cache/LinkedList); the
-- loops over it run on its length, which is as many rounds as they have. The time of each reading
-- of the clock is an argument. Interleavings of goroutines inside an operation are not modelled.
--
-- Shutdown/App models homework_graceful_shutdown/service/shutdown.go. StartAndServe, shutdown and
-- close are the step relation Step on a phase, which says where the main goroutine stands, and on
-- what the goroutines share; reject_req is rejectReq and serve_http is ServeHTTP. The goroutines'
-- steps may come in any order and nothing takes a set time, so that what holds of every reachable
-- state holds of every interleaving. A process that has panicked or called os.Exit takes no step.
-- The signal is there whenever a step needs it.
--
-- Not modelled: the execution of statements by the ORM, its middlewares and observers, the copies
-- of the registry and of the access to values in homework_select, the fields of an RPC client that
-- reflection fills with those functions, its connection pool, generated code, and everything that
-- only calls net/http, database/sql, reflection or third-party libraries.
pub mod Common
pub mod Cache
pub mod Delete
pub mod Message
pub mod Registry
pub mod Rpc
pub mod Valuer
pub mod Web
pub mod Plain
pub mod Writer
pub mod Select
pub mod Orm
pub mod Shutdown
