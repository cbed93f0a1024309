-- ===== src/Lib.antt =====
-- A model of tgshd, the Telegram shell daemon, and of what makes its parts correct.
--
-- The program watches a host. Checks give readings; the health engine turns the readings into
-- PROBLEM and RESOLVED alerts; the rate marks space the messages of one key on one channel; the
-- memory guard watches memory and picks a service to restart when the host runs out of it.
-- The disk check reads drives through smartctl, and the memory check judges the growth of a service.
-- The runner drives it all by ticks: it runs the checks that are due, feeds the engine, hands the
-- alerts to the notifier and saves the state in the store. The notifier sends by Telegram and SMS,
-- queues what fails and lists what it dropped ahead of a later message. Messages go to the topics of
-- a Telegram chat, and the chats on the access list may command the bot.
--
-- The parts and where they are modelled:
--   Base              names, tests, lists, association lists, cut texts and sorting that the
--                     other modules share.
--   Health/Types      pkg/health/types.go and the records of pkg/health/engine.go.
--   Health/Engine     pkg/health/engine.go: the state is the map of conditions; apply, clear,
--                     clear_prefix, reopen, restore and merge are the methods of Engine, and
--                     apply_bad and apply_good its helpers bad and good.
--   Health/RateMarks  pkg/health/ratelimit.go: allow, revert, export, merge and restore.
--   Memguard          pkg/health/memguard. Eligibility, Ring and Guard are guard.go, Culprit is
--                     culprit.go, Records and Episode are episode.go. The state is the record
--                     Guard; observe_services, observe_host, action_done, merge, export and
--                     restore are its methods.
--   Health/Disks      pkg/health/check/disks: Smart and Log are smart.go, the report made of the output of
--                     smartctl, and SelfTest is selftest.go, what is new in a self-test log.
--   Health/CheckErrors  pkg/health/check.go: the errors of a run and their splitting.
--   Health/Memory     pkg/health/check/memory/growth.go: Growth is the rings of the services and the
--                     judgement of one; the share of the peak, compared in floats, is a parameter.
--   Health/Notify     pkg/health/notify. Texts renders a message; Queue is the retry queue of the record
--                     Notifier with the abandoned sends of abandon.go; Send is the delivery
--                     (Delivery), the flush (Flush) and the SMS fallback of notify.go;
--                     Undelivered is the list of channels.go.
--   Health/Store      pkg/health/store/state.go: the record Checkpointer with add, merge, flush and
--                     checkpoint; Rows and Database are the tables of the schema, their write and
--                     load. Encoding is an encoding that the tests use.
--   Health/Runner     pkg/health/runner: maintenance.go; Schedule and Due are schedule.go; Lane is the
--                     delivery channels of deliver.go; Cycle and Saving are the cycle and the
--                     checkpoint of runner.go and the records of fix.go; Retire is retire.go. And the
--                     quiet windows of pkg/health/quiet.go.
--   Telegram          pkg/telegram/route: Route is route.go and fallback.go, Access is access.go.
--
-- How the model stands to the code:
--   A time is the number of nanoseconds since the zero value of Go's time, so 0 is the time for
--   which IsZero holds. Durations are natural numbers. A test `a.Sub(b) > w` is written
--   `b + w < a`, with no subtraction.
--   A method that takes the mutex is one step. A map is an association list whose order stands
--   for the unspecified order of Go's iteration. A sort is an insertion sort, which is stable.
--   Texts that are cut into pieces are lists of bytes, others are texts.
--   The gap cap 1.5 * interval is computed in floats by the code and is exact for intervals below
--   2^52 ns. The percentages of the memory guard are floats that are only compared; here they are
--   numbers of one fixed unit. Sizes are uint64 values as natural numbers; the generation counter
--   wraps at 2^64. path.Match is a parameter.
--   The output of smartctl is taken as parsed; hours, ids and codes are natural numbers, which
--   smartctl prints, and the other values are integers. A pointer is an option. An error is a constructor or its text. strconv.Atoi, strings.ToLower and the send of
--   a message are parameters; the world that sends change is a state of any type.
--   A sender is a parameter whose send ends delivered, failed, past the deadline or abandoned, with
--   the number of the abandoned send's result; it may change a world of any type. The texts of a
--   message are lists of code points. Sends that overlap are steps of a relation, Lane.Step: a method
--   that holds the mutex is one step, and contexts and channels are the choice of the step.
--   The database is the record of its tables; a write is one transaction, which a constraint of the
--   schema may refuse, and how the call of the database ends is a value of the caller's. A nil map or
--   slice and an empty one are the same. JSON, strconv.FormatInt and the texts of errors are
--   parameters; where a theorem needs that they read back, it says so. A stored time is whole seconds
--   of the Unix epoch. A sample's value, a float, is only stored: it stands by its bits; one that is
--   not a number goes to SQLite as NULL, which the table refuses.
--   All loops go over a list or count down, so no fuel is needed.
--
-- Not modelled: the goroutines, timers and the order of the steps of a tick in the runner; the
-- migrations, the history and the deferred journal of the store; the checker errors and emails of the
-- notifier; the configuration, the other checks, the command menu and the reports; and, being I/O,
-- the adapters that read the host, the clients of devices and network services, and the assembly of
-- the daemon.
mod Base
pub mod Health
pub mod Memguard
pub mod Telegram
