-- ===== src/Lib.antt =====
-- A verification library for the RRPP agent bridge, the Python package rrpp_bridge: a durable queue
-- between Instagram's webhooks, an agent that proposes answers, a policy that decides on them, and a
-- worker that sends them.
--
-- The program. A webhook request (rrpp_bridge/instagram_webhook.py) is normalised
-- (rrpp_bridge/adapters) into events, and each event is stored with a job and a conversation
-- (rrpp_bridge/queue.py, rrpp_bridge/workspace.py). The worker of rrpp_bridge/executor.py claims a job,
-- asks the agent (rrpp_bridge/agent_provider.py) with the history and a snapshot of the catalog
-- (rrpp_bridge/catalog.py), lets the policy (rrpp_bridge/policy.py) decide, and either queues a
-- delivery, drops the message or leaves it to a person. The worker of rrpp_bridge/delivery.py checks a
-- queued delivery again and sends it through rrpp_bridge/instagram_sender.py.
--
-- The files.
--   Common: shared names; Common.Tests and Common.Lists have the Boolean tests and the list functions
--     over the native numbers with their laws, Common.Text Python's operations on texts, Common.Json
--     the values of json.loads, Common.Regex a matcher for the patterns of the policy.
--   Models: rrpp_bridge/models.py.
--   Store.Rows: the tables of rrpp_bridge/sql as lists of rows. Store.Monad: a call of the program as a
--     function of the database, the clock, the identifiers still to be drawn and the requests sent, with
--     transactions, rrpp_bridge/db.py and rrpp_bridge/audit.py. Store.Keeps, Store.Ensures, Store.Silent
--     and Store.Meets: the rules by which invariants, silence and postconditions of a call follow from
--     those of its parts.
--   Configuration: the Instagram accounts of rrpp_bridge/config.py, with Accounts about them; Local is
--     its local file of settings, and Environ is about it.
--   Migrations: the versions of the tables, rrpp_bridge/db.py; Current and Startup are about it. Its
--     database is the record of the versions with tables of any type, apart from Store.Rows.
--   Workspace: conversations, their control, reviews, venues and routes, rrpp_bridge/workspace.py.
--   Queue: JobQueue of rrpp_bridge/queue.py, an operation a definition; Queue.Serial, Queue.Exclusive,
--     Queue.Operations and Queue.Retries are about it.
--   Policy: rrpp_bridge/policy.py; Policy.Patterns has its regular expressions, Policy.Allowed and
--     Policy.Outcomes say what it decides.
--   Retention: apply_retention of rrpp_bridge/operations.py, with Bounds about it; its tables are its own.
--   Runtime: rrpp_bridge/runtime.py, with Runtime.Modes about it. Sender: rrpp_bridge/instagram_sender.py.
--   Delivery: rrpp_bridge/delivery.py; Delivery.Permission is _permission_reason, Delivery.Worker and
--     Delivery.Run are the worker; Delivery.Once, Delivery.AtMostOnce, Delivery.Drains and
--     Delivery.Permitted are about it.
--   Inbound: rrpp_bridge/adapters (Routing, Instagram, Local) and rrpp_bridge/instagram_webhook.py
--     (Webhook); Reasons, Accepted, Messages, Requests and Replays are about them.
--   Catalog: rrpp_bridge/catalog.py; Snapshot is load_snapshot and Editing create_event and
--     create_offer; Bounds, Valid, Events, Offers and Edits are about them. Agent: rrpp_bridge/agent.py and
--     rrpp_bridge/agent_provider.py.
--   OpenClaw: rrpp_bridge/openclaw_client.py; Failure has its errors, Payload the request, Decision the
--     checks of a decision, Client the forms of an answer; Answers, Fences, Formats and Diagnostics are
--     about it.
--   Executor: rrpp_bridge/executor.py and rrpp_bridge/action_executor.py; Sinks, Safety and Review are
--     about them.
--   Kept: what an invariant of the jobs and deliveries needs, so that the calls keep it; the modules named
--     Keeps show it of the calls of each part. System: any sequence of the runs of
--     the workers, the requests to the webhook and the operators' calls that System.Operations lists.
--   Scenarios: concrete inputs, with the theorems applied to them.
--
-- How the state corresponds. A SQL statement is a function on the lists of rows, in the order of rowid.
-- A time is a number of milliseconds, since the texts of utc_now are ordered as the times are; the clock
-- and the identifiers are arbitrary sequences. An INSERT that breaks a uniqueness constraint raises.
-- Each call of a transaction holds the database alone, as BEGIN IMMEDIATE does. There is no fuel: every
-- loop of the modelled code runs over a list, and the matcher of the regular expressions over the text
-- and the pattern.
--
-- Parameters. Of Python: casefold, the decomposition of unicodedata, the class of decimal digits and the
-- text of a value that is no text (Python); of the webhook: json.loads, the digests, the parsed
-- length and whether prepare_runtime accepts the database (Application); of the far side: its answer to a request (Remote); the agent (Provider); of the
-- OpenClaw client: the Gateway, json.loads, json.dumps and the text of a time (Gateway, Writer); of the
-- editing of the catalog: datetime, float, urlparse and the NFKD decomposition (Formats, Editor); of the
-- migrations: SQLite's statements and the scripts (Engine); of the settings: json.loads, str.upper, the
-- environment (Environment) and the lines of the local file.
--
-- Not modelled: connections (db.py), services and the other operations on backups (operations.py), the
-- other settings (config.py), the command line and the processes (cli.py, service.py, runtime_lock.py), and the dashboard (web.py): files,
-- the network and presentation, or not reached yet. A restored
-- backup puts an older database in the place of the current one, so that the theorems on sequences of calls
-- do not reach across it. The details of audit entries are left out, and a number of a payload is whole. A
-- proposed payload has no list or object under the type of a reference, for which Python raises a TypeError.
pub mod Common
pub mod Kept
pub mod Configuration
pub mod Migrations
pub mod Models
pub mod Store
pub mod Workspace
pub mod Queue
pub mod Policy
pub mod Retention
pub mod Runtime
pub mod Sender
pub mod Delivery
pub mod Inbound
pub mod Catalog
pub mod Agent
pub mod OpenClaw
pub mod Executor
pub mod System
pub mod Scenarios
