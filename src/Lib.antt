-- ===== src/Lib.antt =====
-- A model of Promptmeter's server, which takes in events of language model calls, stores them with
-- their cost and shows them in a dashboard. Paths are from the root of the repository; `internal`
-- stands for server/internal.
--
-- The parts and how they meet. The ingestion API (internal/ingestion) authenticates a request by its
-- API key, limits its rate, validates its events and publishes each valid one. The worker
-- (internal/worker) prices an event that arrives from the queue, buffers it with the function that
-- acknowledges its message, inserts the buffer into the event store and uploads texts to an object
-- store. The dashboard API (internal/dashboard) signs users in by OAuth, keeps them signed in by a JWT
-- and a refresh token (internal/middleware checks the JWT), makes and revokes the API keys, changes
-- the settings of an organisation, and answers questions on cost from a cache of answers or by queries
-- of the event store (internal/storage). A generator (internal/datagen) makes test data.
--
-- Which file models what:
--   Prelude      shared names, lists and strings of bytes, UTF-8, hexadecimal digits
--   Domain       internal/domain: Event (Event, HasText), Decimal (uintToStr), ObjectKey
--                (S3ObjectKey), OrgId (OrgIDToUint64), ApiKey (APIKey, HasScope, IsRevoked,
--                RateLimitForTier), Account (User, Organization, Project, RefreshToken), Cost (the
--                figures that the dashboard shows), Tags (map[string]string), Floats and Time
--   Storage      internal/storage: Redis (the operations used of Redis), RateLimit (AllowIP, AllowOrg,
--                checkRateLimit), ApiKeys (the API key cache and the table api_keys), AnswerCache
--                (GetCached, SetCached), RefreshTokens (the table refresh_tokens), Organizations
--                (GetOrg, UpdateOrg), Accounts (CreateOrGetUser, GetOrgByUserID, CreateOrg,
--                AddOrgMember, CreateProject), Events (InsertEvents), Sql (SELECT statements as data),
--                Reader (the queries of clickhouse.go: Overview, Breakdown, Timeseries, FilterValues
--                and Compare below it)
--   Auth         internal/auth: ApiKeyText (GenerateKey, ValidateFormat, ExtractPrefix, HashKey), Jwt
--                (SignJWT, VerifyJWT), RefreshText (GenerateRefreshToken)
--   Ingestion    internal/ingestion: Request and Validation (ValidateEvent, ValidateBatch), Wire (the
--                queue's message), Build (buildProtoEvent), Handler (HandleEvent, HandleBatch),
--                Middleware (AuthMiddleware, the rate limits)
--   Middleware   internal/middleware: Session (JWTAuthMiddleware, AutoLoginMiddleware), Requests
--                (ClientIP, CORSMiddleware)
--   Dashboard    internal/dashboard/handlers: Params (parseDashboardParams and its helpers), CacheKey
--                (cacheKey), Answers and Plans (the handlers of overview.go and cost.go), Settings
--                (HandleGet, HandleUpdate), ApiKeys (HandleCreate, HandleRevoke), Sessions
--                (HandleRefresh, HandleLogout, issueTokenPair), SignIn (HandleOAuthCallback)
--   Worker       internal/worker: PriceCache (refresh, CalculateCost), BatchWriter (Add, Flush) with
--                Pipeline for its interleavings, Uploader (Enqueue, uploadEvent, reconcile), Message
--                (protoToEvent, handleMessage), Inserted (from accepted requests to stored rows)
--   Datagen      internal/datagen: Prices (BuildPriceTable, LookupPrice, calculateCost), EventId
--                (deterministicEventID)
-- A child of a component proves what it is named for; files named Tests apply the results to concrete
-- inputs, and files named Samples hold the data for that.
--
-- State is passed explicitly: the queue, Redis and the stores are type parameters with records of
-- operations, and named records of laws state what their documentation says. SHA-256, JSON, the time
-- parser, calendar formats, float64 arithmetic and random bytes are parameters. A string is a list of
-- bytes. Tables of PostgreSQL are lists of rows. A query of ClickHouse is data, the statement's text
-- with its conditions and arguments; what ClickHouse answers is a parameter, of which the proofs use
-- the documented meaning of WHERE and of its sums. Time zones, uuid.Parse, the row that LIMIT 1 gives
-- and the choice of the first cookie of a name are parameters too. The JSON of the queue is a
-- parameter, of which the proofs use that it keeps numbers and times and coerces strings to valid
-- UTF-8. Time is in nanoseconds from a fixed day, without a location: where a time is formatted in its
-- own, the calendar of the location is a parameter; durations are not negative. Sums of token counts
-- wrap at 2 ^ 32 as uint32 does; the byte count of the buffer, an int64, is unbounded here. uintToStr
-- runs on fuel of 20 rounds, which is enough for every uint64.
--
-- In the batch writer's step relation one step is one critical section, or one insertion with the
-- acknowledgements that follow it. An insertion that succeeds has stored its batch; one that reports an
-- error may have stored nothing, a part or all of it. The ack functions are identified with the numbers
-- of their messages, and errors of theirs, which are only logged, are left out.
--
-- Not modelled: goroutines, sockets, signals and logging; the clients of NATS, S3 and ClickHouse; the
-- handlers that only format what a table holds (HandleMe, HandleList, the list of projects) and the
-- wrappers around requests (RequestID, Recovery, Logger); configuration, migrations and the wiring of
-- the commands; the random choices of the generator of test data; the user interface and the Python
-- SDK. They are I/O, calls of libraries, or left for later.
pub mod Prelude
pub mod Domain
pub mod Storage
pub mod Auth
pub mod Ingestion
pub mod Middleware
pub mod Dashboard
pub mod Worker
pub mod Datagen
