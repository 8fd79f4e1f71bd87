-- ===== src/Lib.antt =====
-- SJBIS: agents ask questions of a person, who answers on a dashboard, and approvals are answered
-- by signed grants. This library models the daemon's core, src/ of the repository.
--
-- An agent posts an ask (handlers.rs, `ask`), which becomes a notification: its limits are resolved
-- (models.rs), the rules adjust it (rules.rs), and it is stored (db.rs), broadcast and pushed. The
-- person answers, dismisses or snoozes it, or the agent cancels it (handlers.rs); a blocking agent
-- waits for the envelope (`wait_for_answer`). An approval ask is answered by an envelope that a
-- pinned signer signed (grants.rs, grant_handlers.rs), stored in the same transaction as the answer.
--
-- Models: src/models.rs. Enums has the enums with their texts, Data the structs, Duration
--   `parse_duration` and `parse_deadline`, Resolve `resolve_ttl_secs` and `resolve_once`, Agents
--   `agent_color`.
-- Grants: src/grants.rs. Errors, Records (records and registry), Verify (`parse_record`,
--   `verify_envelope`), Answer (`check_grant_for_notification`, `grant_answer`), Stored
--   (`StoredGrant`, `check_claim`).
-- Store: src/db.rs. A table is a list of rows; Table has the statements by key, Db the tables and
--   `row_to_notification`, Notifications, Grants and Registers the statements on each table. A
--   transaction is a function whose error carries no tables.
-- Rules: src/rules.rs, `match_rule` in Match and `evaluate` in Evaluate.
-- Server: src/handlers.rs and src/grant_handlers.rs. App has the shared state (the tables, the
--   waiters and the list of what was sent), Draft and Ask `ask`, Close `answer`, `cancel`, `dismiss`
--   and `snooze`, Wait `wait_for_answer`, Grants the endpoints of grants, Steps sequences of
--   requests. `answer`, `dismiss` and `snooze` read the clock twice, in the handler and in the
--   statement (`Clock`). A push that cuts a question inside a character ends the handler of `ask`
--   (`crash`) once the ask is stored. A handler runs as one step: two handlers that interleave between their statements
--   are not modelled.
-- Triage: src/triage/, the review queues of captured items. Data is models.rs. Of import.rs, Glob has
--   `glob_matches` and the syntax of patterns, Paths the components of a path and `path_to_slash`, Observations
--   `validate_observation` and `validate_and_sort_observations`, Patterns the checks on a source,
--   Reconcile `reconcile` and `attachment_action`. Store is store.rs: Queues creates, closes and
--   lists, Decide is `record_decision`, Refresh `refresh_queue` and `attach_item`, Page
--   `list_revisions`; Steps has the transactions as a step relation, Frame and History what they
--   keep. Http is http.rs, the endpoints over the store.
-- Prelude and Json are shared helpers and serde_json's values; Tests has concrete runs.
--
-- Numbers: a time is a count of nanoseconds, an `i32` or `i64` an integer, an `f64` its bits, and
-- the colour hash wraps at 2^32. A TIMESTAMPTZ column of `notifications` keeps the microseconds of a
-- time (`microseconds`), rounded down as the driver does from the year 2000 on; the times of the
-- other tables are taken as they are written. The glob matcher runs on fuel, one more than the characters of the
-- pattern and the path, since each call leaves fewer of them; the digits of a cursor are printed on fuel above
-- the number; every other recursion is structural.
--
-- Parameters: the clock and chrono (`Chrono`, where `none` is a documented panic), with which
-- Unicode's `to_lowercase` stands, serde's decoding, JCS, SHA-256, base32, base64 and P-256 (`Codec`), the AI router, generated ids and the current
-- time. In Triage SHA-256 is `sha256_hex`, on a text, and a message of a validation error is a
-- constructor. ORDER BY on texts is by code points. A database failure other than a duplicate key is left out, and
-- so are the texts of interpolated errors.
--
-- Not modelled: compiling English rules, the reading of files for a triage queue and its front
-- matter, push payloads and encryption, the command line, the event stream, the plugins, and the wiring of the process.
pub mod Prelude
pub mod Json
pub mod Models
pub mod Grants
pub mod Store
pub mod Rules
pub mod Triage
pub mod Server
pub mod Tests
