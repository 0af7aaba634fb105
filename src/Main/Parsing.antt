-- ===== src/Main/Parsing.antt =====
-- `parse_device` reads back what a device is written as on the command line.
use local_peer_connections.Prelude.{String, ◌<>◌, ◌≡◌, refl, some}
use local_peer_connections.Prelude.Int.{ℤ}
use local_peer_connections.Python.Text.{show_int}
use local_peer_connections.Python.Text.Decimal.{show_int-Plain, to_int-show_int, rsplit-join}
use local_peer_connections.Main.{parse_device}

-- A label, "=" and the decimal text of an integer port are parsed to this label and port, for every
-- label, one that holds "=" included, and every integer.
pub parse_device-show_int :
    (label : String) (port : ℤ)
    → parse_device (label <> ("=" <> show_int port)) ≡ some (record { label = label; port = port })
unfolding parse_device
parse_device-show_int label port =
    let split = rsplit-join label (show_int port) (show_int-Plain port) in
    let read = to_int-show_int port in rw (split, parse_device) (rw read refl)
