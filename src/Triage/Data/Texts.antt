-- ===== src/Triage/Data/Texts.antt =====
-- The column texts of the review queues read back.
use sjbis.Prelude.{
  String, ◌≡◌, ◌↔◌, refl, inl, inr, Option, some, if◌then◌else◌, Bool-cases, str_eq, eq_iff,
}
use sjbis.Triage.Data.{
  SourceKind, path_kind, inline_kind, kind_text, parse_kind, QueueStatus, open_queue, closed_queue,
  queue_status_text, parse_queue_status, FreshnessState, current, missing, content_changed,
  ambiguous, freshness_text, parse_freshness, TriageVerdict, schedule, delete, needs_replan,
  merge_into, leave_captured, verdict_text, parse_verdict,
}

-- One test of a `match` that reads a text, for any enum with its texts.
arm :
    {A : Type 0} (text : A → String) (s literal : String) (v u : A) (rest : Option A)
    → text u ≡ literal
    → (rest ≡ some v → text v ≡ s)
    → (if str_eq s literal then some u else rest) ≡ some v
    → text v ≡ s
arm text s literal v u rest prints later h = elim (Bool-cases (str_eq s literal)) [
  | inl hit ↦ cc (prints, (eq_iff s literal).0 hit, rw hit at h)
  | inr miss ↦ later (rw miss at h)
]

-- `parse` reads exactly what `text` writes.
abbrev pub Reads : {A : Type 0} → (A → String) → (String → Option A) → Type 0
Reads {A} text parse = (s : String) (v : A) → (parse s ≡ some v) ↔ (text v ≡ s)

Reads-intro :
    {A : Type 0} (text : A → String) (parse : String → Option A)
    → ((s : String) (v : A) → parse s ≡ some v → text v ≡ s)
    → ((v : A) → parse (text v) ≡ some v)
    → Reads text parse
Reads-intro text parse forth back s v = (forth s v, λ e. rw (← e) (back v))

kind-Reads : Reads kind_text parse_kind
unfolding kind_text parse_kind
kind-Reads = Reads-intro kind_text parse_kind forth back
  where
    forth : (s : String) (v : SourceKind) → parse_kind s ≡ some v → kind_text v ≡ s
    forth s v =
        arm kind_text s "path" v path_kind _ refl
          (arm kind_text s "inline" v inline_kind _ refl (λ e. cc))

    back : (v : SourceKind) → parse_kind (kind_text v) ≡ some v
    back path_kind = refl
    back inline_kind = refl

status-Reads : Reads queue_status_text parse_queue_status
unfolding queue_status_text parse_queue_status
status-Reads = Reads-intro queue_status_text parse_queue_status forth back
  where
    forth : (s : String) (v : QueueStatus) → parse_queue_status s ≡ some v → queue_status_text v ≡ s
    forth s v =
        arm queue_status_text s "open" v open_queue _ refl
          (arm queue_status_text s "closed" v closed_queue _ refl (λ e. cc))

    back : (v : QueueStatus) → parse_queue_status (queue_status_text v) ≡ some v
    back open_queue = refl
    back closed_queue = refl

freshness-Reads : Reads freshness_text parse_freshness
unfolding freshness_text parse_freshness
freshness-Reads = Reads-intro freshness_text parse_freshness forth back
  where
    forth : (s : String) (v : FreshnessState) → parse_freshness s ≡ some v → freshness_text v ≡ s
    forth s v = arm freshness_text s "current" v current _ refl (
        arm freshness_text s "missing" v missing _ refl (
          arm freshness_text s "content_changed" v content_changed _ refl
            (arm freshness_text s "ambiguous" v ambiguous _ refl (λ e. cc))))

    back : (v : FreshnessState) → parse_freshness (freshness_text v) ≡ some v
    back current = refl
    back _ = refl

verdict-Reads : Reads verdict_text parse_verdict
unfolding verdict_text parse_verdict
verdict-Reads = Reads-intro verdict_text parse_verdict forth back
  where
    forth : (s : String) (v : TriageVerdict) → parse_verdict s ≡ some v → verdict_text v ≡ s
    forth s v = arm verdict_text s "schedule" v schedule _ refl (
        arm verdict_text s "delete" v delete _ refl (
          arm verdict_text s "needs_replan" v needs_replan _ refl (
            arm verdict_text s "merge_into" v merge_into _ refl
              (arm verdict_text s "leave_captured" v leave_captured _ refl (λ e. cc)))))

    back : (v : TriageVerdict) → parse_verdict (verdict_text v) ≡ some v
    back schedule = refl
    back _ = refl

-- For the source kinds, the queue statuses, the freshness states and the verdicts alike: a text
-- parses to a value exactly when it is the text written for that value.
triage_texts :
    Reads kind_text parse_kind
    × Reads queue_status_text parse_queue_status
    × Reads freshness_text parse_freshness
    × Reads verdict_text parse_verdict
triage_texts = (kind-Reads, status-Reads, freshness-Reads, verdict-Reads)
