-- ===== src/Lib.antt =====
-- MiniBank: a wallet service. Users open accounts, move money between them, receive deposits and
-- withdraw to a bank rail; every movement is a pair of legs in an append-only ledger, and every
-- change leaves an event in an outbox table that a relay delivers to Kafka.
--
-- The parts, and the code that each file is about:
--   Base        numbers, integers, lists and texts that the other modules share
--   Uuid        the text of a UUID, by which locks are ordered and reversal keys are named
--   Errors      app/exceptions.py and the violations of the schema's constraints; Errors.Http has
--               the HTTP status and code of each error
--   Models, Db  app/models and alembic/versions: rows, tables, inserts with their constraints, and
--               `publish_event` of app/events/publisher.py
--   Events      app/events/schemas.py: the payload models, and `parse_event` in Events.Parse
--   Ledger      `get_balance` of app/services/account_service.py; Ledger.Sums has what a pair of
--               legs does to the books
--   Schemas     the responses of app/schemas, and the idempotency entries in Redis
--   Accounts    app/services/account_service.py: `open_account`, `seed`
--   Transfers   app/services/transfer_service.py: `transfer`, `get_transfer`
--   Deposits    app/services/deposit_service.py: `simulate_deposit`, `get_deposit`
--   Rail        rail/simulator.py
--   Circuit     app/circuit_breaker.py: the Lua scripts and the methods
--   Withdrawals app/services/withdrawal_service.py: the transactions of the saga, and in
--               Withdrawals.Steps the sequence that `create_withdrawal` makes of them
--   Recovery    workers/saga_recovery.py
--   Outbox      workers/outbox_relay.py
--   Activity    workers/activity_consumer.py: the read model; `get_transactions` of
--               app/services/account_service.py in Activity.History; what all events of the outbox
--               show, in Activity.Replay
--   Audit       workers/audit_consumer.py
--   Notifications workers/notification_consumer.py: the notices that it logs
--   Consumers   consumers/consumer_base.py: retries and the dead letter topic
--   Backfill    management/backfill_events.py
--   Auth        app/services/auth_service.py, app/services/user_service.py and `get_current_user`
--               of app/dependencies.py
--   Api         app/routers and the requests of app/schemas: one file per router, the validators
--               in Api.Bodies; Api.Payments also has app/services/scheduled_payment_service.py and
--               `advance_schedule` of workers/payment_scheduler.py
--   Scheduler   workers/payment_scheduler.py: the rounds of its loop
--   App         app/main.py: all endpoints over one state, with the loops of the sweeper and the scheduler
--   Bank        the abstract bank: balances, and movements of money between them. The
--               files called Movement have what each service's transactions do to the books
--   Backing     which entries of the ledger stand behind the rows of the other tables
--   System      the transactions of all services as one step relation on the database, and the
--               orders that a step gives to the abstract bank
--   Pipeline    the same with the relays, Kafka and the activity consumer: the way of an event from
--               the transaction that writes it to the read model
--   Owners      which transactions write the tables of users and accounts
--   Keys        the rows that an idempotency key finds
--   Tests       runs at concrete inputs
--
-- How state is modelled. The database is a record of tables, each a list of rows with the newest
-- first; a service takes it and returns a result and the database after it. A transaction is one
-- step, since the services lock the rows that they read; what a failed constraint rolls back is
-- written out. The withdrawal saga and the sweeper also carry Redis, the circuit breaker's keys and
-- the rail. The relay has a step relation, in which writers, other relays, crashes and maintenance
-- interleave in any order, and Pipeline has that relation together with the services' and the
-- consumer's. System has the services' transactions as steps that interleave in any
-- order, and App the requests, each of which runs to its end before the next.
--
-- Values. A UUID is the number that it stands for and a timestamp a number of seconds. An amount is
-- an integer of ten-thousandths, as the columns are NUMERIC(19, 4). The source checks nowhere that a
-- request has no more than four decimals; the model takes it for granted, and what it says of a
-- request holds where that is so. For such amounts the rounding of the columns and that of
-- `f"{amount:.4f}"` change nothing, and values that the source formats into a payload or hashes are
-- kept as the values; for others the two roundings differ. The limit of 19 digits is not modelled.
-- The results of `uuid4()` and `now()` are arguments; no insert fails on a primary key that `uuid4`
-- drew.
--
-- Parameters. SHA-256 is a parameter of the services that hash requests; JSON, `int` and `str` are
-- parameters of the consumers, bcrypt and PyJWT of Auth, Python's parsers of UUIDs and decimals of
-- Api, `uuid5` of Backfill and the calendar of dateutil of `advance_schedule`. What `random` draws
-- for the rail and what Kafka answers are arguments of a call. Redis is an association list; an
-- entry that has expired or was evicted is one that is not there.
--
-- Fuel. `relay_loop`, which never ends in the source, runs for a list of rounds. A round takes up to
-- a hundred rows, so one round for each hundred rows that wait is enough where Kafka answers.
-- `run_retries` handles as many messages as it is given, and four are enough for a message that
-- always fails.
--
-- Not modelled: logging, but for the notices; the correlation id; the parsing of JSON bodies and of
-- emails; the start and the end of the application's tasks. The scheduled payments are stubs in
-- the source: their endpoints are modelled as they are.
pub mod Base
pub mod Errors
pub mod Models
pub mod Events
pub mod Uuid
pub mod Db
pub mod Ledger
pub mod Schemas
pub mod Transfers
pub mod Accounts
pub mod Deposits
pub mod Rail
pub mod Circuit
pub mod Withdrawals
pub mod Recovery
pub mod Keys
pub mod Outbox
pub mod Activity
pub mod Consumers
pub mod Audit
pub mod Notifications
pub mod Backfill
pub mod Auth
pub mod Api
pub mod Scheduler
pub mod App
pub mod Backing
pub mod Bank
pub mod System
pub mod Owners
pub mod Pipeline
pub mod Tests
