-- ===== src/Lib.antt =====
-- PingGoat: a server that writes the documentation of a GitHub repository. A client submits a job over
-- HTTP; the handler stores it as queued and hands a message to a worker over a buffered channel; the
-- worker clones the repository, scans and reads its files, packs them into batches, lets Gemini write
-- three documents from them, and stores these with the job's completion in one transaction. A sweep
-- sends the queued jobs again, which found the channel full.
--
-- Which file models which part:
-- - Config: `Load` of internal/config/config.go, over the environment as a function.
-- - Database, Database/Jobs, Documents, Users: internal/database/models.go, jobs.sql.go,
--   documents.sql.go, doc_cache.sql.go and users.sql.go. The tables are lists of rows, and a query is
--   a function from the tables to the tables and a result, by the SQL text in the file. Unique indexes,
--   references, ON DELETE CASCADE and the lengths of the columns that a request fills are those of
--   sql/schema. The order of the rows is a parameter of each query: it permutes the rows and follows
--   created_at, and leaves that of rows of one time open.
-- - Session: how the code meets that state. An action takes a world, which holds the tables, the
--   channel, the temporary directories of the process and an infinite list of signals; at each call of
--   the database or the channel one signal says what all others have done since the last call, and how
--   the call fares: it runs, it is refused, or it runs and its reply is lost. What Postgres refuses
--   besides the checks that are modelled, such as a text with a zero byte, is a call that is refused.
--   The writes of a transaction reach the tables at its commit.
-- - Pipeline/Batcher, Scanner, Prompt, Cloner, Parser, Store, Worker, Recovery, Status, Message: the
--   files of internal/pipeline, where Message is job.go. A file tree is a data type, and the walk of
--   filepath.WalkDir is written out over it.
-- - Pipeline/Workers: all workers of worker.go on one jobs table, with the handlers that create and
--   remove jobs, as a step relation: a step is a statement that has taken effect, or a move of a worker
--   between two of them. Pipeline/Worker/Protocol relates the calls of processJob to its steps.
--   Pipeline/Workers/JobState is the life of one job, told as an abstract machine.
-- - Gemini: internal/gemini/generator.go, and `Generate` of adk.go over what the client yields.
--   Gemini/RateLimit is ratelimit.go, over the time since the limiter was made.
-- - Pipeline/Parser has `ParseFiles` as a function, for a context that is not cancelled, and
--   Pipeline/Parser/Pool has its goroutines as a step relation, in which the context can end.
-- - Http, Handler/Jobs, Handler/Auth: internal/httputil, and the handlers of
--   internal/handler/jobsHandler.go and authHandler.go on decoded requests; a response is a value.
-- - Middleware: `JWTAuth` of internal/middleware/auth.go, around the next handler.
-- - Server: the routes of cmd/api/main.go, from a route to its handler, behind the middleware or not;
--   Server/Start is its setup up to the handlers, and Server/Shutdown its goroutines around the
--   channel and its shutdown, as a step relation. Server/Journey takes a job through the handlers and
--   a worker.
-- Strings are lists of bytes. Common holds the shared types and lemmas.
--
-- Bounds: an `int` that is a length, a sum of lengths of strings in memory, or a count of rows is a
-- natural number; a conversion to int32 and a duration keep their wrap-around (`to_int32`, `to_int64`).
-- All loops are structural recursion, on lists, on the file tree, or on the given sequence of messages
-- or ticks; no definition has fuel.
--
-- Parameters: git and the temporary directory, the contents of files, the model's answers, whether
-- the rate limiter's tick comes before the context ends, the UUID and time formats of pgx and package
-- time, the orders of rows, bcrypt, the signing and parsing of package jwt, and the clock.
--
-- Not modelled: the connection pool and the listener of cmd/api/main.go, the router of package chi,
-- internal/database/db.go, `Stop` of internal/gemini/ratelimit.go, the decoding of requests, and log
-- lines.
mod Common
pub mod Config
pub mod Database
pub mod Session
pub mod Gemini
pub mod Http
pub mod Pipeline
pub mod Handler
pub mod Middleware
pub mod Server
