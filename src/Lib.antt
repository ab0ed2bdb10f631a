-- ===== src/Lib.antt =====
-- taskqueue-go: a scheduler finds users' periodic tasks that are due, a distributor spreads them as
-- jobs over a window of time and pushes them to a message queue, and a pool of workers pulls the
-- jobs and sends an HTTP request for each, under a rate limit that Redis keeps.
--
-- Files and code:
--   Prelude       what the others share: Boolean tests, the integers ℤ over the native naturals, the
--                 wrap-around of Go's 64-bit integers (Prelude/Int64), results with an error text,
--                 maps as association lists (Prelude/Dict).
--   GoTime        what the code uses of Go's package time: a Time is the nanoseconds since Go's zero
--                 time, a Duration an int64 of nanoseconds, civil dates a Calendar argument.
--                 GoTime/Zone says what a calendar does in a time zone whose clocks never change;
--                 GoTime/Gregorian is a calendar that does it.
--   Models        internal/models/job.go, task.go, user.go: Job, ExecutionResult, QueueMessage,
--                 TaskInterval with NextExecution and IsDue, UserPreference.
--   RateLimit     internal/ratelimit/limiter.go: NewLimiter, AllowN, Allow, Reset and Stats; the Lua
--                 script that Redis runs is RateLimit/Script. The state is the value at the
--                 limiter's one key, which may be absent.
--   Queue         internal/queue/client.go: NewClient, Push, PushBatch, Pull, Ack and Close. The
--                 library github.com/thara/message-queue-go and encoding/json are the interfaces
--                 MessageQueue and Codec of Queue/Backend, and what the theorems need of them are the
--                 records IsHonest and IsFaithful. Queue/Memory has instances that fulfil them.
--                 Queue/Sending says what reaches the queue where jobs are pushed in turn.
--   Distributor   internal/distributor/distributor.go: calculateTimeSlots, EstimateDistributionTime
--                 and DistributeTasks. Shuffle, jitter, identifiers and clock are arguments.
--   Registry      internal/storage/registry.go: LoadFromFile, validation, Get, GetAll, List, Count.
--                 A method holds the lock from beginning to end, so it is one step. The file system
--                 and the YAML parser are arguments. Registry/Kept says what is kept of a
--                 definition, field by field.
--   UserStore     internal/storage/user_store.go: enabling, disabling, saving, reading and deleting
--                 what users want, with the index from tasks to users. Redis is the interface Redis
--                 of UserStore/Commands with its laws IsRedis, encoding/json and RFC 3339 texts are
--                 Formats. UserStore/Memory has an instance that fulfils the laws. UserStore/Spec is
--                 the table of wanted tasks that the store stands for and the calls on it;
--                 UserStore/Pattern is matchesPattern, on lists of code points, and
--                 GetUsersByTaskPattern. UserStore/Concurrent has the commands of
--                 several clients at a time that enable and disable tasks.
--   Scheduler     internal/scheduler/scheduler.go: acquireLeadership, findDueTasks,
--                 updateLastExecutions and checkAndScheduleTasks. Redis is the interface TextKeys of
--                 Scheduler/Keys with its laws IsTextKeys; how each call ends is in Calls.
--                 Scheduler/Tick is about a whole tick, Scheduler/Loop has New and the loop of Start.
--   Worker        internal/worker/worker.go: processJob with executeJob, scheduleRetry and
--                 calculateExponentialBackoff. The world is the queue, the limiter's key and the
--                 requests sent; what one call reads from outside is a Tick and a Server. New,
--                 Start, Stop and the loop run are Worker/Lifecycle: each goroutine is a phase, and
--                 the steps of all goroutines come in any order.
--   Cmd           cmd/worker/main.go, cmd/scheduler/main.go: the configuration files, loadConfig,
--                 setupLogging, and main up to where it starts its servers; Cmd/Worker/Shutdown and
--                 Cmd/Scheduler/Shutdown are main from the signal on. os.ReadFile, the YAML parser,
--                 redis.NewClient, Ping and the queue library are the record Outside.
--                 Cmd/TestRegistry is cmd/test-registry/main.go and Cmd/TestUserstore is
--                 cmd/test-userstore/main.go, programs that try a component out; their output is the
--                 lines that they log.
--
-- The worker uses Queue, RateLimit and Registry by their own operations, so a theorem on processJob
-- holds of the composed code; so does the scheduler use Registry, UserStore and Distributor. The
-- queue library, Redis and the HTTP server stay parameters.
--
-- Bounds: integers are unbounded where Go's int64 cannot overflow, and in the sums of AddDate, and
-- wrapped where the code may overflow it otherwise. Lua's numbers are exact below 2^53. All loops are structural; the text of a number
-- takes as many digits as the number itself, which is enough, since a number has no more digits
-- than its value and one.
--
-- Not modelled: in cmd/ the HTTP servers at work and, but for what the programs that try
-- components out tell, log lines; in internal/storage/user_store.go, commands of other clients
-- within a save, a deletion or a read; test/integration, which runs the components against a
-- server.
pub mod Prelude
pub mod GoTime
pub mod Models
pub mod RateLimit
pub mod Queue
pub mod Distributor
pub mod Registry
pub mod UserStore
pub mod Scheduler
pub mod Worker
pub mod Cmd
