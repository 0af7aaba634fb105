-- ===== src/Fixture/Log/Overwritten.antt =====
-- Traffic events carry an entry `sequence` of their own, which replaces the number of the event.
use local_peer_connections.Prelude.{
  ℕ, ◌+◌, ◌≤◌, ◌<◌, String, ◌≡◌, refl, ◌∙◌, ap, Option, none, some, List, [], ◌∷◌, ◌++◌, str_eq,
  length, arith,
}
use mathlib.Core.List.{append-nil}
use local_peer_connections.Prelude.Int.{ℤ, pos}
use local_peer_connections.Python.Value.{
  put, Value, Fields, null, int, str, list, dict, field, end, get, get_or, of_list, as_int,
}
use local_peer_connections.Api.Cursor.{sequence}
use local_peer_connections.Fixture.Log.{
  spread, max_event_history, Log, event, bound, log_event, later, dict_values, events_response,
}
use local_peer_connections.Fixture.Log.Poll.{length-append}
use local_peer_connections.Fixture.Log.Order.{later-append, later-false, is_after-sequence}

-- The entries of a `trafficMessageSent` event.
unfoldable pub traffic_message_sent : String → ℕ → ℕ → ℕ → String → Fields
traffic_message_sent kind test_id sequence bytes mode = field "kind" (str kind) (
    field "testId" (int (pos test_id)) (
      field "sequence" (int (pos sequence))
        (field "bytes" (int (pos bytes)) (field "deliveryMode" (str mode) end))))

sequence-traffic :
    (n at_ms : ℕ) (kind mode : String) (test_id number bytes : ℕ)
    → sequence
        (event n at_ms "trafficMessageSent" (traffic_message_sent kind test_id number bytes mode))
      ≡ some (pos number)
unfolding traffic_message_sent get_or str_eq spread put
sequence-traffic n at_ms kind mode test_id number bytes = refl

bound-room : (es : List Fields) → length es ≤ max_event_history → bound es ≡ es
unfolding bound
bound-room [] h = refl
bound-room (e ∷ es) h = ground arith

later-nil : (after : ℤ) → later after [] ≡ []
unfolding later
later-nil after = refl

-- The "events" of a response to a poll, and its "next".
abbrev pub answered : Value → Value
answered (dict d) = get "events" d
answered _ = null

abbrev pub next_of : Value → Option ℤ
next_of (dict d) = as_int (get "next" d)
next_of _ = none

same_later :
    (log : Log) (c at_ms : ℕ) (kind mode : String) (test_id number bytes : ℕ)
    → number ≤ c
    → length log.events < max_event_history
    → later
        (pos c)
        (log_event at_ms "trafficMessageSent"
          (traffic_message_sent kind test_id number bytes mode)
          log).events
      ≡ later (pos c) log.events
unfolding log_event
same_later log c at_ms kind mode test_id number bytes passed room =
    ap (later (pos c))
      (bound-room (log.events ++ e ∷ []) (omega (arith, length-append log.events (e ∷ []))))
    ∙ later-append (pos c) log.events (e ∷ [])
    ∙ ap (λ (l : List Fields). later (pos c) log.events ++ l) lost
    ∙ append-nil (later (pos c) log.events)
  where
    e : Fields
    e =
        event (log.event_sequence + 1) at_ms "trafficMessageSent"
          (traffic_message_sent kind test_id number bytes mode)

    lost : later (pos c) (e ∷ []) ≡ []
    lost =
        later-false (pos c) e [] (
          is_after-sequence c number e
            (sequence-traffic (log.event_sequence + 1) at_ms kind mode test_id number bytes)
          ∙ ground arith)
        ∙ later-nil (pos c)

-- If the cursor has passed the number of a sent traffic message in its test, and the history has
-- room, then recording the message raises the "next" of the response to a poll from that cursor by
-- one, but leaves its "events" as they were: the event is not among them.
pub later-traffic :
    (log : Log) (c at_ms : ℕ) (kind mode : String) (test_id number bytes : ℕ)
    → number ≤ c
    → length log.events < max_event_history
    → let recorded =
        log_event at_ms "trafficMessageSent"
          (traffic_message_sent kind test_id number bytes mode)
          log in
      (answered (events_response (pos c) recorded) ≡ answered (events_response (pos c) log))
      × (next_of (events_response (pos c) recorded) ≡ some (pos (log.event_sequence + 1)))
unfolding events_response log_event str_eq get_or
later-traffic log c at_ms kind mode test_id number bytes passed room = (
  ap (λ es. list (of_list (dict_values es)))
      (same_later log c at_ms kind mode test_id number bytes passed room),
  refl,
)
