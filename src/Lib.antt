-- ===== src/Lib.antt =====
-- A verification development for insta-follower-tracker, a service that keeps the history of the
-- relationship lists of Instagram accounts from the exports that their owners upload.
--
-- The program's parts. A worker (internal/tracker) takes uploads from a queue in the database,
-- reads the stored export with internal/instagram, decides whether it may be recorded, dates it,
-- and hands its lists to the store (internal/store). The store keeps the complete membership of
-- every execution and rebuilds the numbers, the changes and the reasons of departures of the
-- account. The web interface (internal/httpapi, internal/chart, internal/web) reads the result.
--
-- Which file models which part.
-- - Prelude: notation, tests on numbers, and the lemmas on lists. Prelude.Table holds the list
--   operations that stand for SQL (select for WHERE, update_where for UPDATE, delete_where for
--   DELETE, any for EXISTS, count for COUNT), Prelude.Sort is ORDER BY, Prelude.Text is text as a
--   list of codes.
-- - Store.Models: internal/store/models.go and the tables of internal/store/migrations.
-- - Store.Snapshot: recomputeAccount, recomputeListsBetween, syncFollowerColumns,
--   executionsInDateOrder and recordChanges of internal/store/snapshot.go.
-- - Store.Apply: ApplySnapshot of the same file, and SetSnapshotDate of internal/store/queries.go.
-- - Store.Departure: internal/store/departure.go.
-- - Store.Diff: the comparison of internal/store/diff.go.
-- - Store.Queue: the upload queue and the rereading queue of internal/store/queries.go, with
--   CompletedUpload and BoundaryUpload of internal/store/diff.go.
-- - Store.Accounts: handles, EnsureAccount and AccountByHandle of internal/store/queries.go; its
--   Listing: ListAccounts, ListUploads, the totals, kinds and history of the same file, and
--   MembersForUpload and CurrentFollowers of internal/store/diff.go.
-- - Strings: the functions of the packages strings, bytes and path that the program calls, on text as
--   bytes; its Pieces, Plain and Every hold lemmas.
-- - Instagram.Lists, Instagram.Export: the list table of internal/instagram/lists.go and the type of a
--   parsed export of internal/instagram/parse.go.
-- - Instagram.Followers: flatten, the recovery of names and dedupe of parse.go. Instagram.Document:
--   parseDocument and parseJSON of the same file.
-- - Instagram.Page: internal/instagram/html.go. Instagram.Dates: internal/instagram/coverage.go and the
--   summary page of taken.go. Instagram.FileName: the name of an archive, of taken.go.
-- - Instagram.Archive: internal/instagram/archive.go and Parse of parse.go.
-- - Instagram.Readers: a record of the library functions that these take, which are encoding/json,
--   x/net/html, net/url, time.Parse and the regular expressions over prose.
-- - Tracker.Coverage, Tracker.SnapshotDate, Tracker.Worker, Tracker.Reprocess:
--   internal/tracker/coverage.go, snapshotdate.go, worker.go and reprocess.go.
-- - Tracker.Service: the names, handles and references of internal/tracker/service.go. Its Intake is
--   Accept, with the files on disk as a list and a record that says which calls of the operating
--   system succeed. Strings.Path holds Clean, Join and Ext of path/filepath.
-- - Tracker.Backfill: backfillSnapshotDates of snapshotdate.go. Store.Diff.Changes: the listings of
--   changes of internal/store/diff.go.
-- - Chart.Scale: internal/chart/scale.go, in exact numbers. Chart.Trend: the path of a line in
--   BuildTrend of internal/chart/chart.go, its coordinates as the text that is printed of them.
-- - Httpapi.Dashboard: internal/httpapi/dashboard.go. Httpapi.Params: the parameters of a request and
--   the order of lists in internal/httpapi/api.go.
--
-- How state corresponds. The database is the record Db of tables, each a list of rows in order of
-- insertion, with the counters of AUTOINCREMENT. A statement is a function from tables to tables,
-- a transaction returns a Result and keeps the old tables on an error (commit). A NULL column is
-- none. Ids, counts and times are natural numbers; times are seconds, the readings of the clock
-- are arguments (two where the code reads it twice; drain uses the same two in every round). A
-- time that is zero in the code is none. A SELECT without ORDER BY, and a tie in one, keeps the
-- order of the table. Sorting puts NULL first.
--
-- What is taken as given. The driver's own failures (a lost connection, a full disk) are not
-- modelled, but for the insert of Accept and its reading of the new row: each statement does what
-- SQLite documents. A directory leaves no trace among the files on disk. Foreign keys
-- hold, so a join to accounts drops no row. The worker takes the parser of exports and the date in
-- a file name as parameters: parse and filename_date of Instagram stand for them, with the date as
-- a day of the calendar and not in seconds. The readers of zip files and of the record Readers,
-- and the wording of an error, are parameters of the definitions that use them. A Go map is a list
-- of rows. The texts stored for statuses, kinds and reasons are constructors. Handles are lowered
-- and trimmed as ASCII. Logging is left out.
--
-- Fuel and bounds. The loop of drain runs on fuel, one unit for a round; a round takes an upload
-- from the one queue or a reread from the other, so the backlog bounds the rounds. The magnitude
-- of a number takes one unit for a digit and is given the number itself. Counters are not bounded:
-- SQLite's are 64 bits, and a row is written for each step.
--
-- Not modelled. The handlers, routing and pages of internal/httpapi and internal/web, which write
-- JSON and HTML; the scaling to coordinates, the placing of labels and the bars of internal/chart,
-- which are floating point; configuration, migrations and process start, which are input and
-- output.
mod Prelude
pub mod Strings
pub mod Store
pub mod Instagram
pub mod Tracker
pub mod Chart
pub mod Httpapi
