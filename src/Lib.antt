-- ===== src/Lib.antt =====
-- kiya is a web framework in Go. This library models its query builder (internal/db), its route tree
-- (internal/router), its rate limiter, firewall, sessions and tokens (internal/security), its validator
-- (validator.go), the parser of form keys (internal/decoder), the chain of middleware (router.go), the
-- methods of a model (models.go) and the check of its configuration (config.go).
--
-- The query builder. A caller makes a builder for a table, extends it by a chain of calls (WhereEq,
-- OrWhere, Join, OrderBy, ...) and ends it by a write, Count, Exist or Build. The ending adds the
-- conditions of the scope (`applyScope`), and `buildRaw` writes the statement with its arguments.
--   Db/Sanitize.antt   internal/db/sanitize.go: SanitizeIdentifier, SanitizeOrderBy, SanitizeOnClause
--   Db/Builder.antt    internal/db/builder.go: the record `Builder` and a function for each call
--   Db/Chain.antt      the calls as data, and their run on a builder
--   Db/Sql.antt        internal/db/builder_sql.go: buildRaw and the build functions below it
--   Db/Scope.antt      internal/db/builder.go: applyScope
--   Db/Write.antt      internal/db/builder_write.go: execInsertRaw, execUpdate, execDelete, Purge, Restore
--   Db/Read.antt       internal/db/builder_read.go: Count, Exist, Paginate
--   Db/Clone.antt      internal/db/builder.go: clone
--   Db/Transaction.antt   internal/db/history_ops.go, database.go: withTx and Transaction
--   Db/History.antt    internal/db/history.go and history_ops.go: insertMapWithHistory,
--     updateMapWithHistory, deleteRawWithHistory,
--     restoreRawWithHistory
--   Db/History/Models.antt, Steps.antt   internal/db/history_ops.go: the writes of a model with history
--   Db/Model.antt      internal/db/reflect.go: getStructInfo, structToMap, StructToHistoryMap; in Model/Keys.antt
--     the primary keys of reflect.go and helpers.go, in Model/Scanning.antt scanMapToStruct, in
--     Model/Writing.antt the writes of builder_write.go for models
--   Db/Placeholders.antt   internal/db/dialect.go: ConvertPlaceholders
--   Db/Query.antt      a query from the first call to the statement
-- A method that changes its receiver and returns it is a function from builders to builders, and the
-- endings do without `clone`, since a value cannot change under its copy. The `strings.Builder` and the
-- argument list that the build functions extend are one value, `Output`, which is passed on. Errors are
-- values of `Result`. What goes to the database is a step on a world that the driver defines, and a
-- panic is an outcome. A model is a struct as `reflect` describes it, with the values of its fields; where
-- steps change a model through its pointer, it is a part of the world that no rollback touches.
--
-- The route tree. AddRoute puts a handler into the tree of its method, FindRoute looks a path up.
--   Router/Path.antt   internal/router/tree.go: cleanPath and splitPath
--   Router/Tree.antt   internal/router/tree.go: nodes, parseSegment, AddRoute, FindRoute, AnyMethodExists
-- Each of the four loops of `search` is a function on the children. The parameters that `search` pushes
-- and pops on a shared slice are passed on from call to call. A panic of AddRoute is `none`. Handlers
-- are numbers, where nil is `none`.
--
-- The request. The middleware is chained around a handler, and the request may run in a transaction.
--   Router/Request.antt   router.go: chain, and the parts of serveInternal that choose the handler and end the
--     transaction
--   Router/Prelude.antt   router.go: CORS, the redirect, the headers and the browser's cookie in serveInternal
-- A handler is a step on a world with its error; a panic is an outcome.
--
-- The decoder reads the fields of a form.
--   Decoder.antt       internal/decoder/traverse.go: parseMapData, the slices made for its indexes, and scalar fields
--
-- The rate limiter. Before a request reaches its handler, `Allow` takes a token from the bucket of its key.
--   Limit.antt         internal/security/ratelimit.go: Store, getShard, Allow, evictOldest, cleanup
-- The store is a function from the number of a shard to its entries. Tokens are counted in units, so that
-- every rational rate is exact; rounding of float64 is not modelled.
--
-- The web application firewall. A writer holds the response of a handler back until it was inspected.
--   Waf.antt           internal/security/waf.go: WriteHeader, Write, Flush, FlushToClient, WrapWithWAF
-- The calls on the connection are a list. A call that locks the mutex of the writer while its caller holds it is `none`.
--
-- Sessions. A request changes its session in memory, and `Save` hands it to the store. CSRF tokens seal the
-- session's id and the time.
--   Session.antt       internal/security/session.go: every method of Session
--   Crypto.antt        internal/security/crypto.go: Encrypt, Decrypt, GenerateCSRFToken, VerifyCSRFToken
--   Strconv.antt       what they use of the package strconv, for decimal numbers
-- A method that changes the session returns the new one, next to its answer. What the store holds is a field
-- of the session.
--
-- The validator. Rules are read from tags and texts, run on the fields of a form, and note errors.
--   Validator.antt     validator.go: values, the state, mergeRules and the other setters
--   Validator/Unique.antt   the rule `unique`, which builds a query of Db
--   Validator/Rule.antt   the other rules and the registry
--   Validator/Bind.antt   flattenStruct, on a tree of the fields that reflection finds
--   Validator/Run.antt    Validate, validateRows and Validate of several
--
-- Helpers.
--   Util.antt          internal/util: HTMLEscape and RealIP
--
-- The configuration. `validate` refuses what the server could not start with.
--   Config.antt        config.go: validate and the fields that it reads
--
-- BaseModel puts a request and the query builder together.
--   BaseModel.antt     models.go: newBuilder and the methods that take an id from the URL; context.go: EncryptID,
--     DecryptID
--
-- Base and Text hold what all share: tests on numbers, lists, integers, and texts. A text is the list
-- of its bytes. `strings.ToLower` and `strings.TrimSpace` are modelled as they act on ASCII. Maps are
-- association lists, in any order. All recursion is structural, except for the
-- outer loop of evictOldest, which has the number of entries as its fuel and uses one up for each.
--
-- Numbers are unbounded: page numbers and row counts are taken to be such that no sum or product of
-- Paginate leaves the range of int64.
--
-- Parameters: the compiler of regular expressions (`regexp`), `sqlx.Named`, the time of a delete,
-- the scope function of the application, and for sessions gorilla/sessions, AES-GCM, base64, random bytes,
-- the clock and the conversions of floats; for the rules the parsers of net/mail, net/url and floats, and
-- what the database finds; what the package net makes of addresses; for transactions the driver and encoding/json,
-- the transactions of coraza,
-- and for models the driver's rows, `reflect.DeepEqual` and the conversions of `reflect`.
--
-- Not modelled: operands that are pointers to pointers or slices, fields that are pointers or embedded,
-- FindAll, the executor with its cache of statements and its log; registered rules that call Error; headers that
-- a handler sets behind the firewall but Content-Type; the cleaning of form values
-- and the walk over the struct they are decoded into; the set-up of the session and the rate limit of a
-- request inside serveInternal; and the parts that are input and output: the redis stores, storage, mail,
-- logging, metrics, the start and stop of the server.
pub mod Base
pub mod Text
pub mod Strconv
pub mod Config
pub mod Limit
pub mod Waf
pub mod Session
pub mod Crypto
pub mod Validator
pub mod Util
pub mod Decoder
pub mod Db
pub mod Router
pub mod BaseModel
