-- ===== src/Lib.antt =====
-- The llm-chat repository: a manager that spreads chat sessions over workers and pairs their
-- answers with the clients' questions, a worker that confines each user to a directory, and the
-- crate that verifies bearer tokens. A client connects to the manager with a token; the manager
-- opens a session on the least loaded worker, writes each question into a table, passes it to the
-- worker, and sends each answer back under the number of the oldest question that waits.
--
-- Files and code:
--   ZitadelAuth (crates/zitadel-auth/src/lib.rs): `ZitadelConfig::from_env`, `extract_bearer`,
--     `roles_from_claims` and `verify_sync` over the cached keys; ZitadelAuth/Verified is about
--     the tokens that pass.
--   Manager (manager/src/main.rs):
--     Access: the handshake callback and the routing of `handle_client`, as a function from a
--       request to the handler it reaches; Access/Entitled is about who reaches which handler.
--     Db: the table `chat_question` and the statements of `ChatDb`; Db/Order, Db/Queue, Db/Posted
--       and Db/Held say what each statement does to the numbers, to the queue of a connection and
--       to a question that is inserted and not yet sent.
--     Flush: `flush_answer`. Reader: one message of a client, the body of the reader's loop;
--       Attachments: what the loop does with the attachments of a question.
--     Pairing: the tasks of all connections as interleaved steps over one table; Pairing/Spec is
--       the protocol's promise, and Pairing/Simulation, Answers, Refinement and Fifo relate them;
--       Pairing/Drained is about answers to all that wait.
--       Reader/Turns connects the reader's code with these steps.
--     Qa: the events of the qa task and its timers; Qa/Debounce is about which timer flushes.
--     Templates: `resolve_set`, the table of templates and the command `set-template`; Versions and
--       Ages in it are about the versions.
--     Control: every command of `handle_control`, with its Commands, the Queries of the manager's own
--       state and the requests to the workers (Backends); Control/Kept is about what commands keep
--       and Control/Sums about the reply to `usage`. Replies: the JSON that is sent.
--     Identity: `handle_identity` and the texts that it sends; Identity/Roles is about the roles shown.
--     Provision: `substitute_vars` and `handle_provision`; Provision/Handed relates them to what the
--       worker reads, with Provision/Filled for what it means to fill in a template.
--     Usage: `usage_for`, `usage_daily_for`, `usage_by_user`, `usage_daily`, `b64_decoded_len`.
--     Sessions: the maps of `ManagerState`, `cmd_open`, `cmd_close`, `pick_least_loaded_port`, `caller_may_bridge`,
--       `scope_sessions_to_caller`. Query: query parameters, redaction, environment values.
--   Worker/UserEnv (worker/src/user_env.rs): `confine_path`, `resolve_user_cwd`, `open_cwd`,
--     `provision_entries` and the version stamp, as actions (Worker/Io) on a world of files.
--     UserEnv also has Keeps, on what provisioning leaves alone. Worker/Box: `list_box_tree`,
--       `list_box_readonly` and `walk_box`; Box/Walk and Box/Complete bound and complete a walk.
--   Worker (worker/src/lib.rs), for the default transport, stream-json:
--     RichLevel; Session: `JsonSession`, what is written to it and the lines its claude prints, with
--       Session/Payloads on the manager's side of its channel, Session/Numbers and Session/Framing.
--     Attachments: `sanitize_path_component`, `save_attachment`, `cleanup_attachments`.
--     PtyInput: the log of typed frames and the loop of a /s socket.
--     AppState: the maps and lists of sessions and the commands that read or change only them.
--     Opening: the command `open` and `do_spawn_session`. Provisioning: `provision-app-box`, with the
--       end of a migration as a step of its own. Control: the /control socket, every command over all
--       of the worker's state; Control/Reached is about the states that it reaches.
--   Worker/Migrate (worker/src/migrate.rs): the manifest, the prompt and the verdict of a migration.
--   Json is serde_json's `Value` as the program reads it; Prelude has the shared helpers. Tests
--   runs the models on concrete inputs.
--
-- Texts are lists of Unicode code points, and query strings lists of bytes. Numbers that the code
-- keeps in i64 columns are natural numbers or integers without a bound: the numbers of questions
-- grow by one for each, and sums stay far below 2^63. Every function is structurally recursive, so
-- no fuel is used; the walk of a box recurses on the levels that are left of its depth. The counters
-- of a session and of a client are u32 and wrap around. A HashMap is an association list; where its
-- iteration order matters, the order is a parameter.
--
-- Parameters stand for code outside the repository: `Jwt` for jsonwebtoken, `Clock` for chrono, `Fs`
-- for std::fs with `Lawful` for what is relied on (a readable file exists, making a directory leaves
-- files alone, and so does writing to a path that is `Apart`: links may make two paths one file), the
-- replies of the worker on its port, and the printing of debug texts. What other tasks do while a
-- command waits is a parameter too: templates that others save between the reading and the saving of
-- `set-template`, and sessions that others open between the test of their number and the push.
--
-- The worker's parameters are gathered in `Host`, and each event brings what fails in it; what others
-- do to the file system between the two checks of an opening is a function of the world. The boxes and
-- the worker's own data directory are two worlds, neither of which holds a path of the other.
--
-- Not modelled: sockets, processes, the PTY transport and the webview of the worker, the HTTP fetch of
-- keys, logging, the admin API and the clients.
pub mod Prelude
pub mod Json
pub mod ZitadelAuth
pub mod Manager
pub mod Worker
pub mod Tests
