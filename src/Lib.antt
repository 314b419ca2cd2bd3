-- ===== src/Lib.antt =====
-- A model of the server of ExpireShareAPI: files are uploaded under an alias, and are gone
-- when their time is over or their downloads are spent.
--
-- The parts, and the files that model them (paths from the root of the repository):
--   Domain             internal/domain/entities, internal/domain/dto: the rows, commands and results
--   Domain.Errors      internal/domain/entities/errors/errors.go: the error values
--   World              what the use cases share: rows, transaction, folders, open handles, clock
--   Storage            internal/infrastructure/storage/local/files.go: FileStorage, a folder for an alias
--   Repo               internal/infrastructure/mysql/files.go: FileRepo, the SQL as functions on rows
--   Files              internal/services/files: the Service's use cases, UploadFile to GetFilesStat
--   Worker             internal/services/worker/worker.go: the loop that deletes expired files
--   RateLimiter        internal/infrastructure/redis/rate_limiter.go: allowScript, Allow and Reset
--   Alias              internal/lib/alias/alias.go: Gen
--   Config             internal/lib/sizes/sizes.go and setPermissionsConfig of internal/config/config.go
--   Config.Load        internal/config/config.go: Load
--   Process            what ends a process, and the calls that it makes, in their order
--   Process.Connections  internal/app/mysql, internal/app/redis, internal/app/auth, internal/app/http
--   Process.Startup    cmd/expire-share/main.go, New of internal/app/app.go, internal/lib/log/log.go
--   Process.Migration  cmd/migrate/main.go
--   Http.Text          internal/delivery/util/util.go: ScanPaginationArgs, TimeString, ExtractIP
--   Http.Reply         what a handler writes
--   Http.Responses     internal/delivery/util/response/response.go: RenderError and its callers
--   Http.FileHandlers  internal/delivery/handlers/api/upload, download and files
--   Http.AuthClient    internal/infrastructure/grpc: AuthClient, UserClient and mapGrpcError
--   Http.AuthHandlers  internal/delivery/handlers/api/auth
--   Http.UserHandlers  internal/delivery/handlers/api/admin/users
--   Http.Middlewares   internal/delivery/middlewares: NewRateLimiter, NewAuth, NewAdminAuth and so on
--   Http.Routes        internal/app/app.go: MustMountHandlers
--   Files.Overlap      internal/services/files/download.go: downloads of one alias that run at once
--   Files.Crowd        internal/services/files/upload.go: uploads that run at once
-- The modules below a part hold its proofs: Effects say what each operation leaves alone on every
-- branch, and the others are named for what they prove.
--
-- How they interact. A handler calls the Service; the Service calls FileRepo and FileStorage, and
-- opens one transaction for each change. All of it is an Action: a function of an Env and a World.
-- The Env answers, for each call that leaves the process (a system call, a statement, a hash),
-- whether it fails and how, and what the clock shows. Unless it says that no call fails, a theorem
-- about a use case is for every Env, so for every pattern of failures. The World holds
-- the committed rows, the copy a transaction works on, the folders and the handles that are open.
--
-- What stands for other code. The Platform holds the collation of MySQL as a function on aliases,
-- the rounding of its timestamps, and bcrypt. A commit that fails may have been applied or not: the
-- Env says which. Time is a natural number of nanoseconds. Numbers of Go's int64 are ℕ or ℤ with
-- their wrap-around written out where the code adds them.
--
-- Fuel and bounds. Every definition is total. A worker round is a recursion on the aliases it has
-- selected, at most batch_limit, and the worker's endless loop is a recursion on the ticks it is
-- given. The loop of Gen alone runs on fuel, since no number of random words is enough for certain;
-- Alias.Total says on which words a given fuel is.
--
-- The process. Process keeps the calls of a start or a stop as a list, the last one first, and
-- ends in a value, an exit code or a panic. Outside answers which of the calls fail and which states
-- of the auth connection the ticks of tryToConnect see; the list of states is what came before the
-- context's end, so the loop is a recursion on it. The secret of the administrators is what base64
-- decodes; the mounting of the routes ends the process where there is none.
--
-- Requests that run at once. Files, Http and Worker treat them one after the other. Files.Overlap
-- interleaves the downloads of one alias: a step is a SELECT, or an UPDATE up to its commit, which
-- holds the lock of the row, or a failure, or a deletion of rows by another request or the worker.
-- Files.Crowd interleaves uploads: a step is the test of the quota, or an INSERT up to its commit,
-- or a failure. The other use cases are not interleaved.
--
-- Rows and files. Atomic, Written and Uploading of Files say what each use case does to the table
-- and to the folders together, where commits are applied and removals do not break off, or no call
-- fails; Http.Backed and Http.Tidy carry that over the life of a server, with a step relation of
-- their own that says what may fail. Http.Backed is about the file behind a row, Http.Tidy about
-- the row behind a folder; there the aliases of requests are written as in the row. An os.RemoveAll
-- that breaks off leaves the folder with any of its files: the Env says which, and how much a
-- broken copy has written. The database tells aliases apart by its collation and the file system by
-- their bytes; a theorem that needs the two to agree says so, and Files.Spelling shows what happens
-- where they do not.
--
-- What is not modelled. Log lines and deadlines of connections, the Swagger documents and mocks, the
-- CORS middleware of the router: input and output only, generated, or code of a library.
pub mod Prelude
pub mod Domain
pub mod World
pub mod Storage
pub mod Repo
pub mod Files
pub mod Worker
pub mod RateLimiter
pub mod Http
pub mod Config
pub mod Process
pub mod Alias
mod Tests
