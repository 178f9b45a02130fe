-- ===== src/Lib.antt =====
-- Trasker: a verification library for the core of the time tracker.
--
-- The client records which window has the focus, as focus events in its SQLite store
-- (internal/client/store). Two packages give this a form that the shipped client does not use, and
-- which only their tests import: the session engine (internal/client/session/engine.go), which
-- opens and ends the events for a tracker and a presence detector, and the cascade
-- (internal/client/session/cascade.go), by which a tag put on an event spreads to the events near
-- it. The program cmd/trasker-client records the events in a loop of its own, which resets the
-- deadman's switch (internal/client/presence) on every focus change; the switch asks whether the
-- user is still there and reports a pause if no answer comes. Rules give events tags, and rules are
-- suggested from the tags put by hand (internal/client/tagger). Events are submitted by hand or by
-- auto-submit (internal/client/autosubmit); both make a pending submission
-- (internal/client/sync/submit.go), and the queue (internal/client/sync/queue.go) loads its
-- entries, merges them by tag, posts them to the server and tries again after a backoff. The server
-- brings its database up to date with its migrations (migrations/migrate.go), and lets a client's
-- request through by its API key (internal/server/auth). Its handlers (internal/server/api)
-- register devices, take timesheets, and let administrators edit entries, keys and settings over
-- the accessors of internal/server/store; a client that is downloaded has a new API key patched
-- into it (internal/server/builder). Beside the focus events the client captures the layout of the
-- windows (internal/client/layout) and syncs it to the server, which thins old snapshots every hour
-- (cmd/trasker-server/layout_downsampler.go).
--
--
-- Prelude is shared: Boolean tests on the native numbers, lists, results, integers, stable sorting
--   and sums over permutations.
-- Presence: Deadman is NewDeadman, loop, waitForResume and currentInterval of deadman.go as a step
--   function on a record, cut at the select statements; Diagram and Tiers hold its proofs.
-- Store: Tables is the schema of store.go and its rows; FocusEvents, EventTags, Submissions, Tags
--   and Notes are the operations of the files of those names.
-- Engine is engine.go: handleFocusChange, handlePresenceChange, endCurrentEventLocked and run.
-- Cascade is cascade.go: Apply, with visit for one candidate and spread for one round.
-- Sync: Entries is loadSubmissionEntries, Aggregate is Aggregate and mergeTimesheetEntries, Auth is
--   ClassifyAuthError and what post makes of a response, Queue is ProcessPending and what it calls,
--   Submit is CreateSubmission.
-- AutoSubmit is autosubmit.go: Load, Save, RunOnce, eligibleEvents.
-- Tagger is internal/client/tagger: engine.go, store.go and tagger.go, with the child Learner for
--   learner.go. What strings and filepath make of a text is an argument.
-- Pomodoro is internal/client/pomodoro/timer.go: Start, Cancel, transitionTo, runPhase with one
--   waiter for each goroutine, and emitChange.
-- Migrations is migrate.go: ApplyFS, applyOne and backfillVersions.
-- ServerAuth is APIKeyMiddleware and RequireRole of internal/server/auth, and Prefix of
--   internal/shared/apikey.
-- Server: Tables is the schema of migrations/001 to 003; Http is respond.go and the steps of a
--   handler; Devices, Timesheets, Settings and Admin are the files of store and api of those names,
--   Admin with audit.go and apikeys.go; Keys joins the API keys with the middleware. Users is
--   users.go and user_handlers.go, Login local_auth_handlers.go and auth_handlers.go, Downloads
--   build_handlers.go, Reports reports.go and report_handlers.go.
-- Builder is internal/server/builder/builder.go without the calls of the Go toolchain: the targets
--   and Patch, with what main of cmd/trasker-client reads of a patched binary.
-- Layout: Snapshots is layout_snapshots.go up to ListTimestamps, Downsample its SQL statement and
--   the sweep, Ingest is layout_handlers.go. Local, Capture and Syncer are store.go, capturer.go
--   and sync.go of internal/client/layout; Exchange is the syncer, one statement or request at a
--   time, and the server, with a network between them and with what runs beside them.
-- The modules called Examples hold concrete data and runs.
--
-- How the code is read. An instant is a number of seconds, the one that its RFC 3339 text in UTC
-- stands for, so that the order of the texts is that of the numbers; fractions of a second are left
-- out on the client, and the server's instants are numbers of microseconds. An id of the server
-- stands for its UUID, which gen_random_uuid gives: fresh_id is that choice, and a theorem that
-- needs a new id says so. Go's int and int64 are unbounded numbers, since nothing here comes near
-- their ends, but for the time.Duration of Downloads, which wraps around. A table is the list of
-- its rows, and its PRIMARY KEY and UNIQUE clauses are enforced, on the server its REFERENCES
-- clauses too. On the client, store.New turns foreign keys on for one connection of the pool only:
-- whether the connection of a statement enforces them is the field enforces, or an argument. A new
-- row id is one more than the largest that is in the table, so an id may come again. Reads and
-- writes of the disk succeed, but for the writes of the engine and the learner, whose outcome is
-- part of the input, for the migrations, each of whose calls may fail, and the server's requests,
-- each of whose statements may fail; one that fails changes nothing. A request is what its parsers
-- make of it. The server's answer, the clock and the end of a context are fields of the queue's
-- World, and SQLite's floating-point day count is an argument of close_latest_open. The order in
-- which Go ranges over a map, and in which sort.Slice leaves equal elements, and the order in which
-- a query reads rows, are the arguments shuffle and scan, of which the theorems ask
-- that it returns a permutation where this matters. A goroutine's steps are inputs, so every order of them is a run. All recursion is
-- structural, and no fuel is used.
--
-- Not modelled: the platform code (tracker, screen lock, window enumeration, tray, notifications),
-- HTTP and JSON, the local web interface, the hash of a window set, and of the server JWT, the OIDC
-- exchange and the runs of the Go toolchain. bcrypt is an argument. The manifest of the library
-- names them one by one.
pub mod Prelude
pub mod Presence
pub mod Store
pub mod Engine
pub mod Cascade
pub mod Sync
pub mod AutoSubmit
pub mod Pomodoro
pub mod Server
pub mod Builder
pub mod Layout
pub mod Migrations
pub mod ServerAuth
pub mod Tagger
