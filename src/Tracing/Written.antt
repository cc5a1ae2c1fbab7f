-- ===== src/Tracing/Written.antt =====
-- kernel/tracing.py: a trace that is written, and read again.
use context_control_plane.Base.{String, ◌≡◌, refl, ◌∙◌, ap, false, some, if_false, List, [], ◌∷◌}
use context_control_plane.Python.Error.{ok}
use context_control_plane.Python.Text.{strip, or_else, is_empty}
use context_control_plane.Python.Value.{
  str, arr, obj, Fields, dict, text_or, truthy, text, is_blank, get_or, find,
}
use context_control_plane.Redaction.{sanitize_trace_fields}
use context_control_plane.Redaction.Traces.{sanitize_trace_fields_idem}
use context_control_plane.Tracing.{
  TraceEventRecord, TraceRecord, event_to_dict, event_items, trace_to_dict, field_text,
  object_or_raise, event_payload, read_event, read_events, array_or_raise, read_trace,
}

-- No text of the event has space around it.
pub record IsTidyEvent (e : TraceEventRecord) : Type 0 where
  pub event_id : strip e.event_id ≡ e.event_id
  pub event_type : strip e.event_type ≡ e.event_type
  pub recorded_at : strip e.recorded_at ≡ e.recorded_at

abbrev pub AllTidy : List TraceEventRecord → Type 0
AllTidy [] = Unit
AllTidy (e ∷ es) = IsTidyEvent e × AllTidy es

-- No text of the trace has space around it, and it has a namespace.
pub record IsTidy (t : TraceRecord) : Type 0 where
  pub trace_id : strip t.trace_id ≡ t.trace_id
  pub execution_id : strip t.execution_id ≡ t.execution_id
  pub status : strip t.status ≡ t.status
  pub operation : strip t.operation ≡ t.operation
  pub connection_name : strip t.connection_name ≡ t.connection_name
  pub namespace : strip t.namespace ≡ t.namespace
  pub has_namespace : is_empty t.namespace ≡ false
  pub adapter : strip t.adapter ≡ t.adapter
  pub stored_at : strip t.stored_at ≡ t.stored_at
  pub events : AllTidy t.events

-- The event with its payload redacted.
abbrev pub redact_event : TraceEventRecord → TraceEventRecord
redact_event e = record e { payload = sanitize_trace_fields e.payload }

abbrev pub redact_events : List TraceEventRecord → List TraceEventRecord
redact_events [] = []
redact_events (e ∷ es) = redact_event e ∷ redact_events es

abbrev pub redact : TraceRecord → TraceRecord
redact t = record t { events = redact_events t.events }

pub text_or-nothing : (s : String) → text_or (str s) "" ≡ s
unfolding text_or truthy text
text_or-nothing String.[] = refl
text_or-nothing (String.◌∷◌ c s) = refl

pub text_or-given : (s d : String) → is_empty s ≡ false → text_or (str s) d ≡ s
unfolding text_or truthy text is_empty
text_or-given String.[] d h = cc
text_or-given (String.◌∷◌ c s) d h = refl

pub field_text-found :
    (m : Fields) (k s : String) → find m k ≡ some (str s) → strip s ≡ s → field_text m k ≡ s
unfolding field_text get_or
field_text-found m k s h e = rw (h, get_or) (ap strip (text_or-nothing s) ∙ e)

pub namespace-read :
    (s : String)
    → strip s ≡ s
    → is_empty s ≡ false
    → or_else (strip (text_or (str s) "default")) "default" ≡ s
unfolding or_else
namespace-read s e h = rw (text_or-given s "default" h) (rw e (if_false _ h))

read_event-event_to_dict :
    (e : TraceEventRecord)
    → IsTidyEvent e
    → read_event (obj (event_to_dict e)) ≡ ok (redact_event e)
unfolding read_event event_to_dict object_or_raise event_payload is_blank get_or find
read_event-event_to_dict e x =
    let found = field_text-found (event_to_dict e) in
    rw
      (
        found "eventId" e.event_id refl x.event_id,
        found "eventType" e.event_type refl x.event_type,
        found "recordedAt" e.recorded_at refl x.recorded_at,
      )
      refl

read_events-event_items :
    (es : List TraceEventRecord) → AllTidy es → read_events (event_items es) ≡ ok (redact_events es)
unfolding read_events event_items
read_events-event_items [] x = refl
read_events-event_items (e ∷ es) x =
    rw (read_event-event_to_dict e x.0) (rw (read_events-event_items es x.1) refl)

abbrev written_metadata : TraceRecord → Fields
written_metadata t = dict (("name", str t.trace_id) ∷ ("namespace", str t.namespace) ∷ [])

abbrev written_connection : TraceRecord → Fields
written_connection t = dict (
    ("name", str t.connection_name)
    ∷ ("namespace", str t.namespace)
    ∷ ("adapter", str t.adapter)
    ∷ [])

abbrev written_spec : TraceRecord → Fields
written_spec t = dict (
    ("executionId", str t.execution_id)
    ∷ ("status", str t.status)
    ∷ ("operation", str t.operation)
    ∷ ("connection", obj (written_connection t))
    ∷ ("events", arr (event_items t.events))
    ∷ ("storedAt", str t.stored_at)
    ∷ [])

redact_events-AllTidy : (es : List TraceEventRecord) → AllTidy es → AllTidy (redact_events es)
redact_events-AllTidy [] x = tt
redact_events-AllTidy (e ∷ es) x = (
  record { event_id = x.0.event_id; event_type = x.0.event_type; recorded_at = x.0.recorded_at },
  redact_events-AllTidy es x.1,
)

redact-IsTidy : (t : TraceRecord) → IsTidy t → IsTidy (redact t)
redact-IsTidy t x = record {
  trace_id = x.trace_id;
  execution_id = x.execution_id;
  status = x.status;
  operation = x.operation;
  connection_name = x.connection_name;
  namespace = x.namespace;
  has_namespace = x.has_namespace;
  adapter = x.adapter;
  stored_at = x.stored_at;
  events = redact_events-AllTidy t.events x.events;
}

read_trace-trace_to_dict :
    (t : TraceRecord) → IsTidy t → read_trace (obj (trace_to_dict t)) ≡ ok (redact t)
unfolding read_trace trace_to_dict object_or_raise array_or_raise get_or find
read_trace-trace_to_dict t x =
    let found = field_text-found in
    rw
      (
        found (trace_to_dict t) "kind" "TraceRecord" refl (unfold strip in refl),
        read_events-event_items t.events x.events,
        namespace-read t.namespace x.namespace x.has_namespace,
      )
      (ap ok (
        cc (
          found (written_metadata t) "name" t.trace_id refl x.trace_id,
          found (written_spec t) "executionId" t.execution_id refl x.execution_id,
          found (written_spec t) "status" t.status refl x.status,
          found (written_spec t) "operation" t.operation refl x.operation,
          found (written_connection t) "name" t.connection_name refl x.connection_name,
          found (written_connection t) "adapter" t.adapter refl x.adapter,
          found (written_spec t) "storedAt" t.stored_at refl x.stored_at,
        )))

redact_events_idem :
    (es : List TraceEventRecord) → redact_events (redact_events es) ≡ redact_events es
redact_events_idem [] = refl
redact_events_idem (e ∷ es) = cc (sanitize_trace_fields_idem e.payload, redact_events_idem es)

-- A trace that is written and read again is the same trace with the payloads of its events redacted,
-- where no text of it has space around it and its namespace is not empty. Written and read once more,
-- it is still that trace.
pub read_trace-twice :
    (t : TraceRecord)
    → IsTidy t
    → (read_trace (obj (trace_to_dict t)) ≡ ok (redact t))
      × (read_trace (obj (trace_to_dict (redact t))) ≡ ok (redact t))
read_trace-twice t x = (
  read_trace-trace_to_dict t x,
  read_trace-trace_to_dict (redact t) (redact-IsTidy t x)
      ∙ ap ok (ap (λ es. record t { events = es }) (redact_events_idem t.events)),
)
