-- ===== src/Fixture/Log.antt =====
-- The event history of the fixture: `_record`, and the answer to `GET /events?after=`.
pub mod Order
pub mod Poll
pub mod Overwritten
use local_peer_connections.Prelude.{
  ℕ, zero, suc, ◌+◌, String, Bool, true, false, some, none, List, [], ◌∷◌, ◌++◌, ltb, leb, length,
  str_eq, if◌then◌else◌,
}
use local_peer_connections.Prelude.Int.{ℤ, pos, leb_ℤ}
use local_peer_connections.Python.Value.{
  put, Value, Fields, int, str, list, dict, field, end, get, of_list, as_int,
}

-- `{...base, ...data}`: a key of `data` that is there already takes the new value.
unfoldable pub spread : Fields → Fields → Fields
spread base end = base
spread base (field k v d) = spread (put k v base) d

abbrev pub max_event_history : ℕ
max_event_history = 1000

-- `events` and `_eventSequence`.
pub record Log : Type 0 where
  pub events : List Fields
  pub event_sequence : ℕ

abbrev pub empty_log : Log
empty_log = record { events = []; event_sequence = 0 }

abbrev pub event : ℕ → ℕ → String → Fields → Fields
event sequence at_ms type details =
    spread
      (field "sequence" (int (pos sequence))
        (field "atMs" (int (pos at_ms)) (field "type" (str type) end)))
      details

-- `if (events.length > maxEventHistory) events.removeAt(0)`
unfoldable pub bound : List Fields → List Fields
bound [] = []
bound (e ∷ es) = if ltb max_event_history (length (e ∷ es)) then es else e ∷ es

-- `_record` of a fixture that is not disposed, at a time and with the entries of the event.
unfoldable pub log_event : ℕ → String → Fields → Log → Log
unfolding bound
log_event at_ms type details log = record {
  events = bound (log.events ++ event (log.event_sequence + 1) at_ms type details ∷ []);
  event_sequence = log.event_sequence + 1;
}

-- `event['sequence']! as int > after`; the fixture records integers only, and its cast of another
-- value would throw.
unfoldable pub is_after : ℤ → Fields → Bool
is_after after e = elim (as_int (get "sequence" e)) [
  | some n ↦ if leb_ℤ n after then false else true
  | none ↦ false
]

unfoldable pub later : ℤ → List Fields → List Fields
later after [] = []
later after (e ∷ es) = elim (is_after after e) [
  | true ↦ e ∷ later after es
  | false ↦ later after es
]

abbrev pub dict_values : List Fields → List Value
dict_values [] = []
dict_values (e ∷ es) = dict e ∷ dict_values es

-- The response to `GET /events?after=`.
unfoldable pub events_response : ℤ → Log → Value
unfolding later is_after
events_response after log = dict (
    field "events" (list (of_list (dict_values (later after log.events))))
      (field "next" (int (pos log.event_sequence)) end))
