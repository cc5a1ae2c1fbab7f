-- ===== src/Tracing/Summary.antt =====
-- kernel/tracing.py: the summary and the explanation of a trace.
use context_control_plane.Base.{ℕ, ◌+◌, String, List, [], ◌∷◌, ◌++◌, length}
use context_control_plane.Python.Value.{
  pos, Value, null, num, str, arr, obj, Fields, dict, objects, texts,
}
use context_control_plane.Redaction.{count_redacted_fields}
use context_control_plane.Tracing.{TraceEventRecord, TraceRecord, event_to_dict}

event_types : List TraceEventRecord → List String
event_types [] = []
event_types (e ∷ es) = e.event_type ∷ event_types es

-- The entries of the summary.
summary_entries : TraceRecord → List (String × Value)
unfolding event_types
summary_entries t =
    ("traceId", str t.trace_id)
    ∷ ("executionId", str t.execution_id)
    ∷ ("status", str t.status)
    ∷ ("operation", str t.operation)
    ∷ (
      "connection",
      obj (
          dict (
            ("name", str t.connection_name)
            ∷ ("namespace", str t.namespace)
            ∷ ("adapter", str t.adapter)
            ∷ [])),
    )
    ∷ ("eventCount", num (pos (length t.events)))
    ∷ ("eventTypes", arr (texts (event_types t.events)))
    ∷ ("storedAt", str t.stored_at)
    ∷ []

-- `summarize_trace_record`
unfoldable pub summarize_trace_record : TraceRecord → Fields
unfolding summary_entries
summarize_trace_record t = dict (summary_entries t)

timeline : List TraceEventRecord → List Fields
timeline [] = []
timeline (e ∷ es) =
    dict (
      ("eventId", str e.event_id)
      ∷ ("eventType", str e.event_type)
      ∷ ("recordedAt", str e.recorded_at)
      ∷ [])
    ∷ timeline es

-- The loop that adds up the redacted fields.
redacted_fields : List TraceEventRecord → ℕ
redacted_fields [] = 0
redacted_fields (e ∷ es) = count_redacted_fields e.payload + redacted_fields es

-- `None if not trace.events else trace.events[-1].to_dict()`
final_event : List TraceEventRecord → Value
final_event [] = null
final_event (e ∷ []) = obj (event_to_dict e)
final_event (e ∷ f ∷ es) = final_event (f ∷ es)

-- `explain_trace_record`
unfoldable pub explain_trace_record : TraceRecord → Fields
unfolding summary_entries timeline redacted_fields final_event
explain_trace_record t = dict (
    summary_entries t
    ++ ("timeline", arr (objects (timeline t.events)))
      ∷ ("redactedFieldCount", num (pos (redacted_fields t.events)))
      ∷ ("finalEvent", final_event t.events)
      ∷ [])
