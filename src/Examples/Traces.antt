-- ===== src/Examples/Traces.antt =====
-- A trace of two events, written and read.
use context_control_plane.Base.{String, ◌≡◌, refl, [], ◌∷◌}
use context_control_plane.Python.Error.{ok}
use context_control_plane.Python.Text.{strip, is_empty}
use context_control_plane.Python.Value.{pos, num, str, obj, Fields, dict}
use context_control_plane.Tracing.{TraceEventRecord, TraceRecord, trace_to_dict, read_trace}
use context_control_plane.Tracing.Written.{IsTidy, redact, read_trace-twice}

abbrev event : String → Fields → TraceEventRecord
event event_type payload = record {
  event_id = "evt_1";
  event_type = event_type;
  recorded_at = "2026-01-01T00:00:00Z";
  payload = payload;
}

abbrev trace : TraceRecord
trace = record {
  trace_id = "trc_1";
  execution_id = "exe_1";
  status = "ok";
  operation = "update";
  connection_name = "orders";
  namespace = "dev";
  adapter = "http-json";
  events =
      event "request" (dict (("session_id", num (pos 4)) ∷ ("path", str "/orders") ∷ []))
      ∷ event "response" (dict (("status", num (pos 200)) ∷ []))
      ∷ [];
  stored_at = "2026-01-01T00:00:01Z";
}

trace-IsTidy : IsTidy trace
unfolding strip is_empty
trace-IsTidy = record {
  trace_id = refl;
  execution_id = refl;
  status = refl;
  operation = refl;
  connection_name = refl;
  namespace = refl;
  has_namespace = refl;
  adapter = refl;
  stored_at = refl;
  events = (
    record { event_id = refl; event_type = refl; recorded_at = refl },
    (record { event_id = refl; event_type = refl; recorded_at = refl }, tt),
  );
}

read_trace-twice_example :
    (read_trace (obj (trace_to_dict trace)) ≡ ok (redact trace))
    × (read_trace (obj (trace_to_dict (redact trace))) ≡ ok (redact trace))
read_trace-twice_example = read_trace-twice trace trace-IsTidy
