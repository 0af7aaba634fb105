-- ===== src/Tests/Commands.antt =====
-- The command lines of the two tools, and the digest, at concrete inputs.
use Prim.Native.String.{count}
use local_peer_connections.Prelude.{String, ◌<>◌, ◌≡◌, ◌^◌, ◌<◌, some, none, refl, ◌⊎◌, inr, true}
use local_peer_connections.Prelude.Int.{pos}
use local_peer_connections.Python.Value.{Value, Fields, dict, end, field, boolean}
use local_peer_connections.Python.Text.{show_int}
use local_peer_connections.Api.{request_to, command_body}
use local_peer_connections.Client.{Arguments, health, snapshot, events, command, request_of}
use local_peer_connections.Client.Requests.{called_for, request_of-DeviceApi}
use local_peer_connections.Main.{parse_device}
use local_peer_connections.Main.Parsing.{parse_device-show_int}
use local_peer_connections.Digest.{payload_hash, payload_digest}
use local_peer_connections.Digest.Width.{payload_digest-width}
use local_peer_connections.Tests.{alpha}

parse_device-show_int_example :
    parse_device ("lab=left" <> ("=" <> show_int (pos 18765)))
    ≡ some (record { label = "lab=left"; port = pos 18765 })
parse_device-show_int_example = parse_device-show_int "lab=left" (pos 18765)

-- Stands for `json.loads`: every text is the object with `quick` set.
abbrev quick : Fields
quick = field "quick" (boolean true) end

abbrev loads : String → String ⊎ Value
loads s = inr (dict quick)

request_of-DeviceApi_example :
    (request_of loads (called_for alpha health) ≡ inr (request_to alpha "GET" "/health" none))
    × (request_of loads (called_for alpha snapshot) ≡ inr (request_to alpha "GET" "/snapshot" none))
    × (request_of loads (called_for alpha (events (pos 7)))
        ≡ inr (request_to alpha "GET" ("/events?after=" <> show_int (pos 7)) none))
    × (request_of loads (called_for alpha (command "connect" "{}"))
        ≡ inr (request_to alpha "POST" "/command" (some (command_body "connect" quick))))
request_of-DeviceApi_example = request_of-DeviceApi loads alpha (pos 7) "connect" "{}" quick refl

abbrev ask_health : Arguments
ask_health = called_for alpha health

payload_digest-width_example :
    (payload_hash 64 < 2 ^ 32)
    × (count (payload_digest 64) ≡ 8)
    × (payload_digest 64 ≡ payload_digest 128 → payload_hash 64 ≡ payload_hash 128)
payload_digest-width_example = payload_digest-width 64 128
