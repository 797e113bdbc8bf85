-- ===== src/Lib.antt =====
-- Verification of the pet-study service, a Go HTTP and gRPC service that creates users either at
-- once or as background jobs.
--
-- How the parts interact. An HTTP request passes the middleware (authentication, authorization) to a
-- handler. The handler creates a user through the user service, or saves a queued job through the
-- job service, publishes an event to the hub and puts a work item on the queue. A worker of the pool
-- takes the item, moves the job through its life cycle and publishes events; at shutdown the pool
-- repairs what is left. Every error is turned into a problem response in one place. The service reads
-- its configuration from the environment; the API server starts the listeners, the pool and the gRPC
-- server, and stops them in order when one of them ends.
--
-- Which file models which part, with its source from the repository's root:
-- - Prelude: shared names, Boolean tests, 64-bit words, signed integers, and Go's maps as
--   association lists with distinct keys.
-- - Entity (internal/entity): jobs, their statuses and transitions, users.
-- - Failure (the errors of all packages): error values, errors.Is and errors.As.
-- - JobRepo (internal/store/jobrepo/memory_job_repo.go): the jobs in memory.
-- - JobService (internal/service/jobService.go and jobRepository.go): the contract of a repository,
--   and the service in front of one.
-- - UserRepo (internal/store/userrepo/memory_user_repo.go): the users in memory.
-- - UserService (internal/service/service.go and repository.go): the service in front of a user
--   repository, and the creation of a user.
-- - Queue (internal/queue): the bounded queue with its admission barrier.
-- - Stream (internal/stream): the event hub with its channels.
-- - Event (internal/stream/stream.go, internal/metrics/jobobserver.go): the events of jobs.
-- - WorkerPool (internal/workerpool/workerpool.go): the generations of workers, with Start and the
--   pieces of Stop as interleaved steps; what a worker does with one item; the problem of a failed
--   job.
-- - Text, Decimal: what the code uses of Go's packages strings and strconv.
-- - Etag, Validation (internal/httputils/utils.go): entity tags, and the validation of users.
-- - Negotiation (internal/httputils/accept.go): the form of a response that a request accepts.
-- - Handlers (internal/routes): the handlers that create and read users, and that read jobs.
-- - Middleware (internal/middleware/bulkhead.go, rate_limiter.go and cors.go): the limits of requests,
--   and the requests from other origins.
-- - Router (internal/router/router.go): the routes of the API and the middleware around them.
-- - Grpc (internal/interceptors/auth.go, internal/transport/grpcserver/grpc_job_service.go,
--   internal/httputils/grpc_bridge_error.go): the look-up of a job over gRPC, and the bridge to it.
-- - Retry (internal/outbound/profile_retry.go): the client of profiles that tries again.
-- - Security (internal/security, internal/middleware/authorization.go and rbac.go): the policy of the
--   routes, the verifier of tokens, authentication and authorization.
-- - Config (internal/config/config.go and logging.go): the configuration, with its defaults, the
--   variables that are read, the parsers of lists, and the checks of the values together.
-- - Grpc.Runtime (internal/transport/grpcserver/runtime.go): the life of the gRPC server, with the
--   callers of Shutdown and the goroutines as interleaved steps.
-- - Grpc.Server (internal/transport/grpcserver/runtime.go and security.go): how that server is made
--   from the configuration.
-- - ApiServer (internal/api/server.go, and what cmd/api/main.go passes to it): the start of the service
--   with what it releases when a part fails, its cleanup, and the outcome that it reports.
-- - HttpErrors (internal/httputils/errmap.go and problem.go): the mapping of errors to responses.
--
-- How state and operations correspond. A struct is a record, a method a function from the state to
-- the new state and the result. A method that holds a lock from first to last is one step; where code
-- acts between two locked sections, the steps are separate, and others may act between them,
-- as in the creation of a job, the bulkhead, the pool, the hub and the gRPC server. Ids and
-- counters of 64 bits are kept as their bit patterns, with the wrap-around written out. A channel that
-- two goroutines share stands in a store, by reference. A loop over a map visits the entries in list
-- order, one of the orders that Go may choose.
--
-- Bounds. Every loop of the modelled code is a recursion on a list, or on the attempts that are left.
-- Decimal.digits alone takes fuel, one more than the number that it prints; that is enough, since
-- each round divides by ten.
--
-- Not under the repository: the printing of %q and of numbers is a parameter, the record
-- HttpErrors.Printing, of which nothing is assumed. strings.EqualFold is a parameter, the record
-- UserRepo.Folding, of which the proofs use that it is an equivalence. The parser of golang-jwt is a
-- parameter, the record Security.Jwt.JwtParser, with what ParseWithClaims documents: it accepts what
-- the key of the key function has signed and what is current, and reports the rest. unicode.ToLower is
-- a parameter of Validation and Middleware.Cors, and mime.ParseMediaType one of Negotiation; nothing is
-- assumed of them, nor of Middleware.Limiter, the token bucket of golang.org/x/time/rate.
-- Config.Lookup.Platform is what Load calls of the standard library: the environment, strconv,
-- time.ParseDuration, net.SplitHostPort, netip, url.Parse and the case of letters; two theorems assume
-- of it that small letters are lower case and one URL is parsed back, and that a blank address has no
-- port. Grpc.Server.Library reads certificates and opens the listener; nothing is assumed of it. What
-- the library's gRPC server and the components of the API server return, and when, is what a step or an
-- argument chooses.
-- Retry.Client is what the wrapped client, the context, the timer and math/rand answer;
-- Retry.Bounded.Counts says that random numbers stay in their range, and what counts as an attempt.
--
-- Not modelled: the deadline of a repair; the event stream of a job as it is written; the trust of
-- proxies in a request; the choice of a pattern by net/http; the rest of the outbound client; the
-- gRPC client, and what http.Server does; the construction of the parts in
-- cmd/api/main.go; the SQL repositories, whose behaviour is the database's; logging, metrics
-- and tracing; the generated protocol buffers; reading and writing of HTTP messages.
pub mod Prelude
pub mod Entity
pub mod Failure
pub mod JobRepo
pub mod JobService
pub mod Queue
pub mod Stream
pub mod UserRepo
pub mod UserService
pub mod Text
pub mod Decimal
pub mod Etag
pub mod Event
pub mod WorkerPool
pub mod HttpErrors
pub mod Validation
pub mod Security
pub mod Negotiation
pub mod Handlers
pub mod Retry
pub mod Middleware
pub mod Router
pub mod Grpc
pub mod Config
pub mod ApiServer
