-- ===== src/Report.antt =====
-- What `main` of integration_device_app/tool/device_integration_runner.py reads from the devices
-- when a scenario has ended, and `telemetry_line`.
pub mod Total
use local_peer_connections.Prelude.{
  String, Bool, true, false, Option, none, some, List, [], ◌∷◌, ◌++◌, if◌then◌else◌,
}
use local_peer_connections.Prelude.{last}
use local_peer_connections.Prelude.Int.{pos}
use local_peer_connections.Python.Value.{
  Value, Fields, boolean, int, float, dict, end, get_or, as_dict, find_field,
}
use local_peer_connections.Python.Number.{to_float}
use local_peer_connections.Exec.{
  text, shown, formatted, Message, message, Result, ok, err, Exec, and_then, pure, catch, ◌>>=◌,
  ◌>>◌,
}
use local_peer_connections.World.{Arithmetic, Env, State}
use local_peer_connections.Api.{Api, label, snapshot, events}
use local_peer_connections.Links.{put_label}

-- An entry of `telemetry`: the counters, or `{"error": str(error)}`.
pub data Telemetry : Type 0 where
  counters : Fields → Telemetry
  unreachable : Message → Telemetry

-- An entry of `diagnostics`: the snapshot with the last events, or the error.
pub data Diagnostic : Type 0 where
  evidence : Fields → List Fields → Diagnostic
  omitted : Message → Diagnostic

-- The dicts `telemetry` and `diagnostics`, by label.
pub record Notes : Type 0 where
  pub telemetry : List (String × Telemetry)
  pub diagnostics : List (String × Diagnostic)

abbrev pub no_notes : Notes
no_notes = record { telemetry = []; diagnostics = [] }

-- `if isinstance(value, dict): telemetry[label] = value`
unfoldable pub note_counters : String → Value → Notes → Notes
note_counters name (dict d) notes = record notes {
  telemetry = put_label name (counters d) notes.telemetry;
}
note_counters name _ notes = notes

unfoldable pub note_evidence : String → Fields → List Fields → Notes → Notes
note_evidence name d polled notes = record notes {
  diagnostics = put_label name (evidence d (last 500 polled)) notes.diagnostics;
}

-- What the `except` clause writes.
unfoldable pub note_error : Bool → String → Message → Notes → Notes
note_error diagnose name m notes = record {
  telemetry = put_label name (unreachable m) notes.telemetry;
  diagnostics =
      if diagnose then put_label name (omitted m) notes.diagnostics else notes.diagnostics;
}

module _ (A : Arithmetic) where
  -- The nested `number` of `telemetry_line`.
  unfoldable pub number : Value → Result Value
  number (boolean b) = to_float A (boolean b)
  number (int n) = to_float A (int n)
  number (float m k) = to_float A (float m k)
  number _ = ok (float (pos 0) 0)

  -- `number(d.get(key, 0)):.2f`
  unfoldable pub rate : String → Fields → Result Message
  rate key d = and_then (number (get_or key (int (pos 0)) d)) (λ v. ok (formatted v ".2f" ∷ []))

  abbrev pub percentages : Value → Fields
  percentages (dict d) = d
  percentages _ = end

  abbrev pub total_of : String → Fields → Message
  total_of key d = shown (get_or key (int (pos 0)) d) ∷ []

  -- The pieces in turn, if none of them raises.
  unfoldable pub join : List (Result Message) → Result Message
  join [] = ok []
  join (r ∷ rest) = and_then r (λ m. and_then (join rest) (λ n. ok (m ++ n)))

  abbrev say : String → Result Message
  say s = ok (text s ∷ [])

  unfoldable pub telemetry_line : String → Fields → Result Message
  telemetry_line name d =
      let states = percentages (get_or "connectionStatePercent" (dict end) d) in
      join (
        say name
        ∷ say ": messages sent/received "
        ∷ ok (total_of "messagesSent" d)
        ∷ say "/"
        ∷ ok (total_of "messagesReceived" d)
        ∷ say ", bytes sent/received "
        ∷ ok (total_of "bytesSent" d)
        ∷ say "/"
        ∷ ok (total_of "bytesReceived" d)
        ∷ say "; speed send "
        ∷ rate "messagesSentPerSecond" d
        ∷ say " msg/s ("
        ∷ rate "bytesSentPerSecond" d
        ∷ say " B/s), receive "
        ∷ rate "messagesReceivedPerSecond" d
        ∷ say " msg/s ("
        ∷ rate "bytesReceivedPerSecond" d
        ∷ say " B/s); connection "
        ∷ rate "connecting" states
        ∷ say "% connecting, "
        ∷ rate "reconnecting" states
        ∷ say "% reconnecting, "
        ∷ rate "connected" states
        ∷ say "% connected"
        ∷ [])

  -- The lines that are printed: one for each entry without the key "error".
  unfoldable pub telemetry_lines : List (String × Telemetry) → Result (List Message)
  telemetry_lines [] = ok []
  telemetry_lines ((name, unreachable m) ∷ rest) = telemetry_lines rest
  telemetry_lines ((name, counters d) ∷ rest) = elim (find_field "error" d) [
    | some v ↦ telemetry_lines rest
    | none ↦
        and_then (telemetry_line name d)
          (λ line. and_then (telemetry_lines rest) (λ lines. ok (line ∷ lines)))
  ]

module _ (E : Env) where
  -- One round of `for api in runner.apis`; only IT-046 keeps diagnostics.
  unfoldable pub read_device : Bool → Api → Notes → Exec (State E) Notes
  read_device diagnose api notes =
      catch
        (do
          d ← snapshot E api
          let noted = note_counters (label api) (get_or "telemetry" (dict end) d) notes
          if diagnose
              then (do polled ← events E api; pure (note_evidence (label api) d polled noted))
              else pure noted)
        (λ error. pure (note_error diagnose (label api) (message error) notes))
