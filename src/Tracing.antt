-- ===== src/Tracing.antt =====
-- kernel/tracing.py: traces, how they are written, read and summarized.
pub mod Written
pub mod Summary
use context_control_plane.Base.{
  ℕ, ◌+◌, ◌/◌, String, ◌<>◌, not, Option, none, some, List, [], ◌∷◌, ◌==◌, length, if◌then◌else◌,
}
use context_control_plane.Python.Error.{Result, ok, err, load_error, ◌>>=◌}
use context_control_plane.Python.Text.{strip, or_else}
use context_control_plane.Python.Value.{
  pos, Value, null, num, str, arr, obj, Items, nil, cons, Fields, end, dict, objects, texts,
  is_blank, text_or, get_or,
}
use context_control_plane.Python.Runtime.{Runtime, replace}
use context_control_plane.Redaction.{sanitize_trace_fields, count_redacted_fields}

pub record TraceEventRecord : Type 0 where
  pub event_id : String
  pub event_type : String
  pub recorded_at : String
  pub payload : Fields

pub record TraceRecord : Type 0 where
  pub trace_id : String
  pub execution_id : String
  pub status : String
  pub operation : String
  pub connection_name : String
  pub namespace : String
  pub adapter : String
  pub events : List TraceEventRecord
  pub stored_at : String

-- `TraceEventRecord.to_dict`
unfoldable pub event_to_dict : TraceEventRecord → Fields
event_to_dict e = dict (
    ("eventId", str e.event_id)
    ∷ ("eventType", str e.event_type)
    ∷ ("recordedAt", str e.recorded_at)
    ∷ ("payload", obj (sanitize_trace_fields e.payload))
    ∷ [])

unfoldable pub event_items : List TraceEventRecord → Items
event_items [] = nil
event_items (e ∷ es) = cons (obj (event_to_dict e)) (event_items es)

-- `TraceRecord.to_dict`
unfoldable pub trace_to_dict : TraceRecord → Fields
trace_to_dict t = dict (
    ("apiVersion", str "ccp.io/runtime/v1beta1")
    ∷ ("kind", str "TraceRecord")
    ∷ ("metadata", obj (dict (("name", str t.trace_id) ∷ ("namespace", str t.namespace) ∷ [])))
    ∷ (
      "spec",
      obj (
          dict (
            ("executionId", str t.execution_id)
            ∷ ("status", str t.status)
            ∷ ("operation", str t.operation)
            ∷ (
              "connection",
              obj (
                  dict (
                    ("name", str t.connection_name)
                    ∷ ("namespace", str t.namespace)
                    ∷ ("adapter", str t.adapter)
                    ∷ [])),
            )
            ∷ ("events", arr (event_items t.events))
            ∷ ("storedAt", str t.stored_at)
            ∷ [])),
    )
    ∷ [])

-- `make_trace_event`
unfoldable pub make_trace_event : Runtime → String → Fields → TraceEventRecord
make_trace_event rt event_type payload = record {
  event_id = "evt_" <> rt.uuid_hex 0;
  event_type = event_type;
  recorded_at = replace "+00:00" "Z" (rt.isoformat (rt.now / 1000000));
  payload = payload;
}

-- `str(m.get(k, "") or "").strip()`
unfoldable pub field_text : Fields → String → String
field_text m k = strip (text_or (get_or m k (str "")) "")

-- An argument that must be a JSON object.
unfoldable pub object_or_raise : Value → String → Result Fields
object_or_raise (obj fs) problem = ok fs
object_or_raise v problem = err (load_error problem)

-- The payload of an event: an object, or left out.
unfoldable pub event_payload : Value → Result Fields
event_payload v =
    if is_blank v then ok end else object_or_raise v "trace event payload must be a JSON object"

-- The body of the loop over `events_raw`.
unfoldable pub read_event : Value → Result TraceEventRecord
read_event v = do
  item ← object_or_raise v "trace events must be JSON objects"
  payload ← event_payload (get_or item "payload" (obj end))
  ok (record {
    event_id = field_text item "eventId";
    event_type = field_text item "eventType";
    recorded_at = field_text item "recordedAt";
    payload = payload;
  })

unfoldable pub read_events : Items → Result (List TraceEventRecord)
read_events nil = ok []
read_events (cons v vs) = do event ← read_event v; rest ← read_events vs; ok (event ∷ rest)

-- The value that must be a JSON array.
unfoldable pub array_or_raise : Value → Result Items
array_or_raise (arr vs) = ok vs
array_or_raise v = err (load_error "trace spec.events must be a JSON array")

-- `load_trace_record_file`, on the value that the file holds.
unfoldable pub read_trace : Value → Result TraceRecord
read_trace raw = do
  payload ← object_or_raise raw "trace document must be a JSON object"
  if not (field_text payload "kind" == "TraceRecord")
      then err (load_error "trace document kind must be 'TraceRecord'")
      else do
        metadata ←
            object_or_raise (get_or payload "metadata" (obj end))
              "trace metadata must be a JSON object"
        spec ← object_or_raise (get_or payload "spec" (obj end)) "trace spec must be a JSON object"
        connection ←
            object_or_raise (get_or spec "connection" (obj end))
              "trace spec.connection must be a JSON object"
        raw_events ← array_or_raise (get_or spec "events" (arr nil))
        events ← read_events raw_events
        ok (record {
          trace_id = field_text metadata "name";
          execution_id = field_text spec "executionId";
          status = field_text spec "status";
          operation = field_text spec "operation";
          connection_name = field_text connection "name";
          namespace =
              or_else (strip (text_or (get_or metadata "namespace" (str "default")) "default"))
                "default";
          adapter = field_text connection "adapter";
          events = events;
          stored_at = field_text spec "storedAt";
        })
