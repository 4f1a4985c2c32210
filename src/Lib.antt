-- ===== src/Lib.antt =====
-- The larp bot keeps games, signups and users, and lets players and game masters work with them
-- from Telegram and VK. Every change of a signup or a game is an ordered command, which a queue
-- may deliver more than once. This library models the rules of the queues, the repositories that
-- hold the state, the worker that serves the queue, the mutations that its commands make, the
-- notifications that follow them, the automatic closing of a game and the walk over all open
-- games, and proves what they do, what they keep, and what a repeated delivery does.
--
-- Files and code (paths from the root of the repository):
--
-- - Base and its children: tests, classes of equality and order, stable sorting, texts.
-- - Errors, Dict: the exceptions of the code and Python dicts in insertion order.
-- - Domain/Enums, Domain/Event, Domain/User, Domain/Registration, Domain/Command: the classes of
--   src/larp_bot/domain/models.py with their validators and properties.
-- - Domain/Queues with Rosters and Positions: src/larp_bot/domain/registration_queues.py.
-- - Store/Registrations (State, Enlist, Updates, Linked, Positions):
--   `MemoryRegistrationRepository` of src/larp_bot/adapters/memory.py, the reference
--   implementation of the repository port. What is proved of it stands in Signups, Sift, Sifted,
--   Repeats and Retries.
-- - Store/Events (State, Schedules, Closing, Details, Tables, Delivery, Listing, Pages):
--   `MemoryEventRepository` of the same file.
-- - Store/Users with Links and Roles: `MemoryUserRepository` of the same file, and
--   src/larp_bot/application/identity.py.
-- - Store/Publisher: `MemoryCommandPublisher` of the same file.
-- - Application/GameClosings (Actions, Run, Statistics, Stale, Completed, Begun, Finalized):
--   `ScheduledGameClosingService` of src/larp_bot/application/game_closings.py, over the event
--   repository and the publisher, and with Dispatcher `ScheduledGameClosingDispatcher` of the same
--   file.
-- - Application/Effects: calls that return or raise, on a state.
-- - Application/Support: results, snapshot entries and the conflict of two games, of
--   src/larp_bot/application/service_support.py.
-- - Application/Worker: `OrderedWorker` of src/larp_bot/application/worker.py, with Reply,
--   Dispatch and Handle for one command, and Drain, its loop over the batches of the queue. Log
--   has the abstract worker of one group of the queue; Fifo, Outcome, Receipts and Delivery have
--   the proofs.
-- - Application/Mutations: `OrderedMutationService` of
--   src/larp_bot/application/ordered_mutations.py. Apply dispatches a command; Organiser has the
--   commands on a game, Rosters those that reorder a queue, Signup, Player and Confirmation those
--   of a player; Access, Promotions and Passes the steps that they share, and Catalog
--   `RegistrationCatalog` of src/larp_bot/application/registration_services.py. Operations and
--   Rights have the lists of commands and the rights apart from the dispatch; Guarded, Opening and
--   Entering have the proofs.
-- - Application/Deadlines: the moments by the day of the week of
--   src/larp_bot/application/deadlines.py.
-- - Application/Openings: `ScheduledConfirmationOpeningDispatcher` of
--   src/larp_bot/application/confirmation_openings.py, and its commands in the mutations.
-- - Application/Notifications: `ConfirmationNotificationService` of
--   src/larp_bot/application/notification_services.py. Its root has the letter, the outbox and
--   `_deliver`; Texts, Success and Masters the texts, ChatLinks
--   src/larp_bot/application/notification_helpers.py; Snapshot the three notifications that work
--   through the snapshot of a roster change, Participants those of many players and of one who
--   confirms, Promotions those of a player who moved up, Participation and MasterNotices those of
--   the masters, ChatRemoval the removal from the chat. Marking, Progress, Claims, Notified and
--   Once have the lemmas on what a run leaves; Retry, Told, Moved, Linked, Confirmed, Reported and
--   Live the proofs.
-- - Application/TableLinks: src/larp_bot/application/table_links.py.
-- - Application/RegistrationOpenings with Marks, Calls and Rounds:
--   `RegistrationOpeningNotificationService` of src/larp_bot/application/registration_openings.py.
-- - Application/UnarchivedEvents with Walk: `_unarchived_events` of
--   src/larp_bot/application/registration_services.py, over `list_page` of the event repository.
-- - Tests: runs on concrete rows.
--
-- State and operations: a dict is an association list in insertion order, an object in it is a
-- record, and a method is a function from the rows to the rows and its result, where an exception
-- is a value. Methods keep the names of the code; a step inside a method has its own name where a
-- theorem or another method uses it. The clock, which the code reads inside a method, is an
-- argument. A moment is a number of microseconds, a date a number of days.
--
-- Services that the closing calls (the hash of `uuid5`, ISO texts, statistics, spreadsheets,
-- messengers) are a record of functions, a parameter of every theorem; the calls made are
-- recorded. pydantic's checks of single fields are a parameter of `model_validate`.
--
-- The worker, too, takes its services as a record of functions, on a state that they share. What
-- its calls of `receive` come to is a list, which ends where the time of the run is up; a command
-- is handled whole, so that the time limit does not interrupt it. The loop keeps a log of the
-- commands that it handled, which the code has not.
--
-- The mutations work on the repositories above, and take the showcase of workbooks, the hash of
-- the participant keys, the administrators and the texts as a record of functions. The clock is
-- read once in a command there, and calls that the code runs together are taken one after another.
--
-- The notifications, too, work on the repositories. The transport is a function of the calls that
-- were made before and of the letter, so that it may fail at any of them; each call is kept in the
-- outbox with what came of it. The formats of dates, `urlsplit` and the regular expressions of
-- chat paths are a record of functions. The user repository, which the mutations may lack, is
-- always there in the code of the notifications; where the model lacks it, it counts as empty.
--
-- Bounds and fuel: a page of events has at most ten, as in the code. The walk over the pages runs
-- on fuel; one more than the number of unarchived events is enough. `decimal` has fuel above its
-- number.
--
-- Not modelled: the regular expressions of names, phones, links and deadlines, `set_post_links`,
-- and the copies `list_all` and `list_pass_preferences`; the search for the other games of a day;
-- the interruption of a command by the time limit of the worker; the dialogues, and the services
-- of the administration, the chats and the statistics; the adapters of databases, drives and
-- messengers; the entry points, the scripts and the infrastructure.
pub mod Base
pub mod Errors
pub mod Dict
pub mod Domain
pub mod Store
pub mod Application
pub mod Tests
