-- ===== src/Tests/QueueRuns.antt =====
-- Runs of the store of the review queues and of its export cursor.
use sjbis.Prelude.{
  pos, ℕ, String, ◌≡◌, ◌↔◌, refl, true, false, Option, none, some, List, [], ◌∷◌, ◌++◌, ok, All,
  codes, arith,
}
use sjbis.Triage.Data.{
  glob, CreateQueue, path_kind, inline_kind, current_freshness, merge_into, DecisionPatch,
  Observation, RefreshStats, value_field, TriageRevision, content_changed, open_queue, closed_queue,
  schedule,
}
use sjbis.Triage.Store.{Tables, QueueRow, ItemRow, row_to_queue}
use sjbis.Triage.Store.Queues.{create_queue, set_queue_status, close_queue}
use sjbis.Triage.Store.Queues.Status.{IsSwitched, set_queue_status-IsSwitched}
use sjbis.Triage.Store.Decide.{record_decision}
use sjbis.Triage.Store.Decide.Decided.{IsDecided, record_decision-IsDecided}
use sjbis.Triage.Store.Refresh.{refresh_queue}
use sjbis.Triage.Store.Refresh.Snapshots.{KeepsSnapshots, refresh_queue-KeepsSnapshots}
use sjbis.Triage.Store.Refresh.Closed.{IsRefused, close_queue-IsRefused}
use sjbis.Triage.Store.Page.Order.{read_pages, all_after}
use sjbis.Triage.Store.Page.Paging.{read_pages_all}
use sjbis.Triage.Store.Steps.{Reachable, start, step, created, decided, IsSound, Reachable-IsSound}
use sjbis.Tests.TriageRuns.{inline_b, moved_y}
use sjbis.Triage.Http.{decode_cursor, encode_cursor}
use sjbis.Triage.Http.Cursor.{decode_cursor-encode_cursor}

abbrev request : CreateQueue
request = record {
  name = "inbox";
  root = "/notes";
  strip_suffix = "_analysis.md";
  source_spec = glob ("*.md" ∷ []);
  items = inline_b ∷ moved_y ∷ [];
}

abbrev queue_row : QueueRow
queue_row = record {
  id = "tq-1";
  name = "inbox";
  root = "/notes";
  strip_suffix = "_analysis.md";
  source_spec = glob ("*.md" ∷ []);
  status = open_queue;
  created_at = 5;
  updated_at = 5;
  closed_at = none;
}

abbrev row_y : ItemRow
row_y = record {
  queue_id = "tq-1";
  id = "y";
  source_kind = path_kind;
  path = some "new.md";
  source = none;
  markdown = "same";
  content_sha256 = "same";
  captured_at = 5;
  freshness = current_freshness;
  observed_at = 5;
}

abbrev row_b : ItemRow
row_b = record {
  queue_id = "tq-1";
  id = "b";
  source_kind = inline_kind;
  path = none;
  source = none;
  markdown = "text";
  content_sha256 = "text";
  captured_at = 5;
  freshness = current_freshness;
  observed_at = 5;
}

abbrev begun : Tables
begun = record {
  queues = queue_row ∷ [];
  items = row_y ∷ row_b ∷ [];
  revisions = [];
  next_event = 1;
}

abbrev empty_tables : Tables
empty_tables = record { queues = []; items = []; revisions = []; next_event = 1 }

create_run :
    create_queue (λ s. s) request "1" 5 empty_tables ≡ ok (begun, row_to_queue begun queue_row)
unfolding create_queue
create_run = refl

abbrev merge_patch : DecisionPatch
merge_patch = record { verdict = value_field merge_into; target = value_field "b" }

abbrev merged : TriageRevision
merged = record {
  event_id = 1;
  queue_id = "tq-1";
  item_id = "y";
  revision = 1;
  verdict = some merge_into;
  target = some "b";
  content_sha256 = "same";
  decided_at = 9;
}

abbrev decided_tables : Tables
decided_tables = record begun {
  queues = record queue_row { updated_at = 9 } ∷ [];
  revisions = merged ∷ [];
  next_event = 2;
}

decide_run : record_decision "inbox" "y" merge_patch 9 begun ≡ ok (decided_tables, merged)
unfolding record_decision
decide_run = refl

record_decision-IsDecided_example : IsDecided "y" merge_patch begun decided_tables merged
record_decision-IsDecided_example =
    record_decision-IsDecided "inbox" "y" merge_patch 9 begun decide_run

reachable : Reachable (λ s. s) decided_tables
reachable =
    step (step start (created request "1" 5 (row_to_queue begun queue_row) create_run))
      (decided "inbox" "y" merge_patch 9 merged decide_run)

Reachable-IsSound_example : IsSound (λ s. s) decided_tables
Reachable-IsSound_example = Reachable-IsSound (λ s. s) reachable

abbrev closed_row : QueueRow
closed_row = record queue_row { status = closed_queue; updated_at = 7; closed_at = some 7 }

abbrev closed_tables : Tables
closed_tables = record begun { queues = closed_row ∷ [] }

close_run :
    set_queue_status "inbox" closed_queue 7 begun
    ≡ ok (closed_tables, row_to_queue closed_tables closed_row)
unfolding set_queue_status
close_run = refl

set_queue_status-IsSwitched_example :
    IsSwitched closed_queue 7 closed_tables (row_to_queue closed_tables closed_row)
set_queue_status-IsSwitched_example =
    set_queue_status-IsSwitched "inbox" closed_queue 7 begun close_run

closing : close_queue "inbox" 7 begun ≡ ok (closed_tables, row_to_queue closed_tables closed_row)
unfolding close_queue
closing = close_run

close_queue-IsRefused_example : IsRefused (λ s. s) "tq-1" closed_tables
unfolding row_to_queue
close_queue-IsRefused_example = close_queue-IsRefused (λ s. s) "inbox" 7 begun closing

abbrev history : List TriageRevision
history =
    merged
    ∷ record merged { event_id = 3; item_id = "b"; verdict = some schedule; target = none }
    ∷ record merged { event_id = 4; item_id = "b"; revision = 2; verdict = none; target = none }
    ∷ []

read_pages_all_example : read_pages 3 "tq-1" 0 2 history ≡ all_after "tq-1" 0 history
unfolding all_after sjbis.Prelude.select sjbis.Triage.Store.Page.is_after
read_pages_all_example =
    read_pages_all 3 "tq-1" 0 2 5 history (omega arith, (omega arith, (omega arith, omega arith)))
      (omega arith) (omega arith)

decode_cursor-encode_cursor_example : decode_cursor (some (encode_cursor 1207)) ≡ ok (pos 1207)
decode_cursor-encode_cursor_example = decode_cursor-encode_cursor 1207 (omega arith)

abbrev found : List Observation
found =
    record inline_b { markdown = "other" }
    ∷ record moved_y { markdown = "edited" }
    ∷ record moved_y { id = "z"; path = some "z.md" }
    ∷ []

abbrev changed_y : ItemRow
changed_y = record row_y {
  freshness = record {
    state = content_changed;
    reason = some "source content no longer matches the captured snapshot";
    candidate_paths = [];
  };
  observed_at = 8;
}

abbrev replaced_b : ItemRow
replaced_b = record row_b {
  markdown = "other";
  content_sha256 = "other";
  captured_at = 8;
  observed_at = 8;
}

abbrev new_z : ItemRow
new_z = record row_y { id = "z"; path = some "z.md"; captured_at = 8; observed_at = 8 }

abbrev refreshed : Tables
refreshed = record begun {
  queues = record queue_row { updated_at = 8 } ∷ [];
  items = changed_y ∷ replaced_b ∷ new_z ∷ [];
}

abbrev refresh_stats : RefreshStats
refresh_stats = record {
  current_count = 2;
  missing_count = 0;
  changed_count = 1;
  ambiguous_count = 0;
  added = 1;
  moved = 0;
  inline_replaced = 1;
}

refresh_run : refresh_queue (λ s. s) "inbox" found 8 begun ≡ ok (refreshed, refresh_stats)
unfolding refresh_queue sjbis.Triage.Reconcile.no_stats
refresh_run = refl

refresh_queue-KeepsSnapshots_example : KeepsSnapshots begun refreshed
refresh_queue-KeepsSnapshots_example =
    refresh_queue-KeepsSnapshots (λ s. s) "inbox" found 8 begun refresh_run
