-- ===== src/Lib.antt =====
-- log-aggregator-c: a server that takes log entries over HTTP, keeps the newest ones in memory and
-- all of them in PostgreSQL, and serves pages of them; and a load generator for it.
--
-- A POST (src/server/handlers.c) parses the request and puts an entry into a bounded queue
-- (src/server/log_queue.c). The worker thread (src/server/log_worker.c) takes entries out of the
-- queue, puts them into the cache, a ring buffer of the newest ones (src/server/cache.c), and
-- writes them to the database (src/server/db_postgres.c). A GET reads from the cache and fills up
-- what is missing from the database. src/server/http_server.c starts and stops all of these. The
-- load generator (src/client/) runs threads that send requests, and adds up what they measure.
--
-- The files:
--   Config, LogEntry    include/server/config.h and log_entry.h.
--   CString             the string functions of the C library that the server calls, on lists of
--                       bytes: strtol reads a number of any size and stops at the ends of long.
--                       CString/Copy has the laws of the bounded copy, CString/Decimal the round
--                       trip of printing and reading a number.
--   Cache               cache.c. Cache/Ring has the invariant of the ring and the list of its
--                       entries, newest first; Cache/Insert is about cache_init and, by Cache/Shift,
--                       cache_insert, Cache/Read, by Cache/Scan, about cache_get_range.
--   Queue               log_queue.c, a call as passes between two waits on a condition variable.
--                       Queue/Fifo is its specification, Queue/Ring the invariant, Queue/Refine the
--                       refinement; Queue/System interleaves the passes of all threads with
--                       signals, broadcasts and spurious wakeups; Queue/Invariant, by the lemmas of
--                       Queue/Passes, is what every step keeps, and Queue/Wakeup what follows.
--   Db                  db_postgres.c over the parameter Libpq. Db/Rows states what the queries
--                       return, Db/Connections what opens and closes a connection; Db/Read, by
--                       Db/Fill, and Db/RoundTrip are about reading; Db/Memory is a small database
--                       for tests.
--   Handlers            handlers.c: Handlers/Post and Handlers/Get have the definitions,
--                       Handlers/Accept the theorems on POST, Handlers/Fetch, Handlers/Page and
--                       Handlers/FirstPage those on GET. Handlers/Ahead is about a cache that is
--                       ahead of the table, Handlers/Late about a table that is ahead of what a GET
--                       has read of the cache.
--   Worker              log_worker.c in turns of its loop, on the queue, the cache and the
--                       database; Worker/Order is about what a running worker does,
--                       Worker/Stop about how it ends, and Worker/Coherent about what the cache
--                       and the table then hold; Worker/Joining has worker_stop with all that the
--                       thread still does until it is joined.
--   Pipeline            handlers, queue, worker, cache and database together: from a POST to what a
--                       GET shows; Pipeline/Failures, when the database does not store entries.
--   Traffic             the running server: POSTs, GETs and the worker interleaved between any two
--                       calls that take a lock or talk to the database. Traffic/Flow, by
--                       Traffic/Passes, follows the entries to the worker, Traffic/Tables into the
--                       table; Traffic/Invariant is what every step keeps, Traffic/Reads what it
--                       means for the entries and for a GET; Traffic/Drain is about the steps that
--                       the worker can always make, and Traffic/Shown about what a GET
--                       shows then; Traffic/Steps, Traffic/Runs and
--                       Traffic/Runs/Loop are about the worker's loop as steps.
--   Server              http_server.c and src/server/main.c. Server has the dispatch of /logs, and
--                       Server/Dispatch is about its answers; Server/Lifecycle has start_server and
--                       stop_server, with Server/Lifecycle/Start (by Server/Lifecycle/Ready) and
--                       Server/Lifecycle/Stop (by Server/Lifecycle/Intact and
--                       Server/Lifecycle/Joined) about them;
--                       Server/Main defines the whole process, with main's loop and the signal
--                       handler.
--   Client              the load generator. Client/Args is src/client/main.c, and
--                       Client/Args/Settings says what a command line means; Client/Requests and
--                       Client/Worker are loadgen_worker.c, with Client/Requests/Fit on the buffers
--                       and Client/Worker/Measures and Client/Worker/Report on the metrics;
--                       Client/Clock has now_us, and Client/Worker/Times bounds the times by it;
--                       Client/Loadgen is loadgen.c, with Client/Loadgen/Sums on the totals,
--                       Client/Loadgen/Csv on the file and Client/Loadgen/Threads on all threads.
--   Archive             archive/storage.c, which nothing builds: a log in a text file. Archive/Search
--                       is about the search back from the end of the file; Archive/Lines and
--                       Archive/ReadLast about the lines that are read; Archive/Fields and
--                       Archive/Line about sscanf on a line; Archive/Body and Archive/RoundTrip
--                       about entries that are written and read.
--   Base                Boolean tests, int with its wrap-around, lists with access by index, and
--                       Option as the result of code that may access memory out of bounds.
--
-- The static variables of a file are a record that its functions take and return. A function that
-- reads or writes through a pointer returns an Option: `none` is an access out of bounds. A char
-- array is a list of bytes, an array of structs a list, of which the model writes existing cells
-- only. `int` values that a client can make large are of type ℤ, and the arithmetic on them wraps
-- at 32 bits; indices that the invariants bound are natural numbers. Loops are structural recursion
-- on what is left to do: the scan of the cache on the number of entries left, the loop over mg_read
-- on the list of what its calls return. Only the worker's loop, which runs as long as the server,
-- takes a number of turns; its theorems say which number they need.
--
-- CivetWeb (mg_read, mg_get_var), cJSON and libpq are parameters: what they return is an argument,
-- or a field of Cjson, GetVar or Libpq. Where a theorem relies on libpq, Table says that the rows of
-- a SELECT are the rows of the table, newest first, of the level that is asked for, behind the
-- offset and at most the limit, Inserts that the row of an INSERT that succeeds is the table's
-- newest, Reads that a SELECT and a PQfinish change no row, and Counts says which calls open and close
-- a connection. What libcurl, rand, the clock and the file system give to the load generator are arguments, and its
-- `double` is the parameter Floats. A request's time that takes their sum above the range of long
-- long is `none`, and so is the join of a thread that pthread_create did not create. In start_server and stop_server `none` also stands for a use of
-- a lock or a thread that POSIX leaves undefined.
--
-- Not modelled: CivetWeb's threads and sockets; messages to stdout and stderr;
-- the release of memory, but for the cache's; discard_response, which libcurl calls; CivetWeb and cJSON, which are copies of other projects
-- (third-party/).
pub mod Archive
pub mod Base
pub mod Config
pub mod CString
pub mod LogEntry
pub mod Cache
pub mod Pipeline
pub mod Queue
pub mod Server
pub mod Traffic
pub mod Db
pub mod Handlers
pub mod Worker
pub mod Client
