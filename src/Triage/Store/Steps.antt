-- ===== src/Triage/Store/Steps.antt =====
-- The operations of the store as steps, and what holds of every state that they reach.
use sjbis.Prelude.{String, ◌≡◌, refl, sym, ap, ℕ, List, [], ◌∷◌, none, false, ok, Option, arith}
use sjbis.Models.Data.{DateTime}
use sjbis.Triage.Data.{
  CreateQueue, Observation, DecisionPatch, QueueStatus, TriageQueue, TriageItem, TriageRevision,
  RefreshStats,
}
use sjbis.Triage.Store.{Tables, latest_of}
use sjbis.Triage.Store.Queues.{create_queue, set_queue_status}
use sjbis.Triage.Store.Decide.{record_decision, merges_into}
use sjbis.Triage.Store.Decide.Recorded.{number_of}
use sjbis.Triage.Store.Decide.Merges.{IsMergeSafe, record_decision-IsMergeSafe}
use sjbis.Triage.Store.Refresh.{refresh_queue, attach_item}
use sjbis.Triage.Store.Frame.{
  SameHistory, set_queue_status-SameHistory, create_queue-SameHistory, refresh_queue-SameHistory,
  attach_item-SameHistory,
}
use sjbis.Triage.Store.History.{IsHistory, recorded-IsHistory, history_of}

module _ (sha256_hex : String → String) where
  -- One transaction that commits.
  pub data Step (t t' : Tables) : Type 0 where
    created :
        (request : CreateQueue) (nanoid : String) (now : DateTime) (q : TriageQueue)
        → create_queue sha256_hex request nanoid now t ≡ ok (t', q)
        → Step t t'
    decided :
        (reference id : String) (patch : DecisionPatch) (now : DateTime) (r : TriageRevision)
        → record_decision reference id patch now t ≡ ok (t', r)
        → Step t t'
    refreshed :
        (reference : String) (given : List Observation) (now : DateTime) (stats : RefreshStats)
        → refresh_queue sha256_hex reference given now t ≡ ok (t', stats)
        → Step t t'
    attached :
        (reference id : String) (o : Observation) (now : DateTime) (item : TriageItem)
        → attach_item sha256_hex reference id o now t ≡ ok (t', item)
        → Step t t'
    switched :
        (reference : String) (status : QueueStatus) (now : DateTime) (q : TriageQueue)
        → set_queue_status reference status now t ≡ ok (t', q)
        → Step t t'

  pub data Reachable : Tables → Type 0 where
    start : Reachable record { queues = []; items = []; revisions = []; next_event = 1 }
    step : {t t' : Tables} → Reachable t → Step t t' → Reachable t'

  -- The history is in order, and no two items merge into each other.
  pub record IsSound (t : Tables) : Type 0 where
    pub history : IsHistory t
    pub merges : IsMergeSafe t.revisions

  same-IsSound : {t t' : Tables} → SameHistory t t' → IsSound t → IsSound t'
  same-IsSound {t} {t'} same s = record {
    history = record {
      events = rw (same.revisions, same.next_event) s.history.events;
      numbers = rw same.revisions s.history.numbers;
    };
    merges = rw same.revisions s.merges;
  }

  step-IsSound : {t t' : Tables} → Step t t' → IsSound t → IsSound t'
  step-IsSound {t} (created request nanoid now q h) s =
      same-IsSound (create_queue-SameHistory sha256_hex request nanoid now t h) s
  step-IsSound {t} (decided reference id patch now r h) s = record {
    history = recorded-IsHistory reference id patch now t s.history h;
    merges = record_decision-IsMergeSafe reference id patch now t s.merges h;
  }
  step-IsSound {t} (refreshed reference given now stats h) s =
      same-IsSound (refresh_queue-SameHistory sha256_hex reference given now t h) s
  step-IsSound {t} (attached reference id o now item h) s =
      same-IsSound (attach_item-SameHistory sha256_hex reference id o now t h) s
  step-IsSound {t} (switched reference status now q h) s =
      same-IsSound (set_queue_status-SameHistory reference status now t h) s

  -- In every state that the operations reach from empty tables, event ids ascend, the revisions of
  -- each item are numbered 1, 2, … and the latest number is their count, and no latest revision
  -- merges an item into itself or into one that merges into it.
  pub Reachable-IsSound : {t : Tables} → Reachable t → IsSound t
  unfolding merges_into latest_of history_of number_of sjbis.Prelude.select
  Reachable-IsSound start = record {
    history = record {
      events = omega arith;
      numbers = record { counts = λ queue id. tt; newest = λ queue id. refl };
    };
    merges = λ queue a b h. refl;
  }
  Reachable-IsSound (step before s) = step-IsSound s (Reachable-IsSound before)
