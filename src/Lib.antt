-- ===== src/Lib.antt =====
-- Verification of the JCC API backend: its chat service with the agent's runs, its official game
-- data, its access control, its rate limiter and the download of the raw data.
--
-- Parts and files
--   RateLimit (app/core/rate_limit.py): `InProcessRateLimiter` as a record, `check` as a function of
--     the clock's reading, which the lock makes one step. Window, Sliding and Retry prove it.
--   Conversations (app/conversations): Rows has the tables of conversations/models.py and
--     agent/models.py with the constraints that the database checks on an insertion; Repository and
--     Service have the functions of the files of these names. Updates, Idempotency and Retry prove.
--   Agent (app/agent): Lifecycle has each method of orchestrator.py and runtime.py that writes to
--     a run or its messages, as a function on the tables, but for `_resolve_snapshot`, which
--     stands in Snapshots with the snapshots it reads; Moves the status machines; Follows what
--     each operation does to a row; Steps the committed transactions as a step relation; Once the
--     start and the completion of a run. Events has the events of a conversation, their publication,
--     persistence and replay, Runtime the manager with its queues and subscribers (both runtime.py),
--     Summary summary.py, and Tools the tool loop and the streaming of
--     orchestrator.py (Calls, Audits and Bounds prove). The routes
--     and the runtime call Conversations.Service, the orchestrator calls Conversations.Repository on
--     the same tables; the runtime publishes the events that the orchestrator gives to its sink.
--   Jcc (app/jcc_data): Json has decoded JSON and the built-ins applied to it, Integer `int` and
--     `str`, Decimal the parser of `decimal.Decimal`, Scalars validation.py, Reader
--     snapshot_reader.py and canonical_hash.py (Names the revisions and the directories' names,
--     Manifest the manifest and `read_snapshot`; Checked proves), Adapters adapters.py (Data, Tiers,
--     Traits, Entities, Snapshot; Closed and Whole prove), Store models.py and the writing operations
--     of repository.py (Tables, with the import and the switch in Store itself; Current, Complete,
--     Filled, Again and Resolves prove), Queries the reading operations (Listings; Answers, Pages,
--     Recipes, Details and Counts prove). The reader's snapshot is what the adapters take, the import takes
--     what the adapters build, the queries read the tables that the import fills.
--   Auth (app/deps/auth.py, app/services): the current user of a token, the blacklist, the sessions,
--     scopes and roles; Revocation proves.
--   Sync (scripts/sync_jcc_data.py): Fetch has `fetch_bytes`, Payloads what the download reads
--     and writes, with the raw directory as a dictionary, Latest `sync_latest` (Fresh proves); the
--     name of a revision's directory stands in Jcc.Reader.Names. It reads the existing snapshots by `read_snapshot`.
--   Base has what these share; Tests runs the definitions at concrete inputs.
--
-- How the code is modelled
--   Tables are lists of rows, a transaction is a function on the tables, an error is a value of a
--   `Result` and rolls back. New identifiers and readings of the clock are arguments; times are
--   whole milliseconds (in Auth and Sync whole seconds, in RateLimit whole nanoseconds) and costs
--   whole millionths, where the code has floating point. What other sessions commit between the
--   reads and the insertion of `create_message`, and what happens while `enqueue` waits for a
--   cancelled execution, is an argument `others`; the methods of the runtime are otherwise taken as
--   one step each, without what another task does at their other awaits, and the awaited execution
--   raises nothing but its cancellation. Texts of errors and log lines are left out. Strings are
--   compared by their characters; limits on the length of columns are left out but for the content
--   of a message.
--   Parameters: `Builtins` stands for the Unicode tables of the interpreter and for the text of a
--   list or a dict, `Redis` for the commands of Redis with two documented laws, `decode` for
--   `jwt.decode` with its settings, `opener` for what the server and the network do at each
--   attempt, `dumps` for the text of a written manifest.
--   `Libraries` stands for the JSON library, SHA-256 and `==` on decoded values. What the model
--   answers in the tool loop, what each tool comes to, when a cancellation is seen and how each await
--   ends (it passes, the task is cancelled, or it raises) is given from outside, and the requests are
--   counted. Of `ORDER BY` a total order of texts is required where the order matters; rows that a
--   sort of the model would leave in place a database may order at will,
--   which Jcc.Queries.Pages treats for the list of heroes.
--   Recursion is structural, in the tool loop on what is left of its range; only the
--   printing of numbers has fuel, one more than the number, which is more than its digits.
--
-- Not modelled: the routes and schemas, clients, configuration, logging, migrations, the language
-- models, retrieval, the tools themselves and the prompts, which are glue around frameworks and
-- services; `execute` around the tool loop, the summaries and sources of a message, the listing
-- queries of the conversations, and the command line around the download. A lock is whether another
-- process holds it.
pub mod Base
pub mod RateLimit
pub mod Conversations
pub mod Agent
pub mod Jcc
pub mod Auth
pub mod Sync
pub mod Tests
