-- ===== src/Tests/Logs.antt =====
-- The theorems on the fixture's history and on its digests, at concrete inputs.
use local_peer_connections.Prelude.{◌≡◌, ◌≢◌, List, [], ◌∷◌, ◌++◌, arith, some}
use local_peer_connections.Prelude.Int.{pos}
use local_peer_connections.Python.Value.{str, field, end}
use local_peer_connections.Digest.{payload_digest}
use local_peer_connections.Fixture.Payload.{generate, digest_bytes, digest_bytes-generate}
use local_peer_connections.Fixture.Payload.Detects.{digest_bytes_changed}
use local_peer_connections.Fixture.Log.{empty_log, log_event, events_response}
use local_peer_connections.Fixture.Log.Poll.{Entry}
use local_peer_connections.Fixture.Log.Overwritten.{
  traffic_message_sent, answered, next_of, later-traffic,
}

digest_bytes-generate_example : digest_bytes (generate 32 0) ≡ payload_digest 32
digest_bytes-generate_example = digest_bytes-generate 32

digest_bytes_changed_example :
    digest_bytes ((7 ∷ []) ++ 1 ∷ (9 ∷ [])) ≢ digest_bytes ((7 ∷ []) ++ 2 ∷ (9 ∷ []))
digest_bytes_changed_example =
    digest_bytes_changed (7 ∷ []) (9 ∷ []) 1 2 (omega arith) (omega arith) (omega arith)

abbrev entries : List Entry
entries =
    record { at_ms = 5; type = "peerFound"; details = field "peerId" (str "B") end }
    ∷ record { at_ms = 9; type = "connected"; details = end }
    ∷ []

later-traffic_example :
    let recorded =
      log_event 5 "trafficMessageSent" (traffic_message_sent "text" 1 2 64 "reliable") empty_log in
    (answered (events_response (pos 3) recorded) ≡ answered (events_response (pos 3) empty_log))
    × (next_of (events_response (pos 3) recorded) ≡ some (pos 1))
later-traffic_example =
    later-traffic empty_log 3 5 "text" "reliable" 1 2 64 (omega arith) (omega arith)
