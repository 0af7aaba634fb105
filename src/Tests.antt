-- ===== src/Tests.antt =====
-- Tests on a network of two devices, which are ready with each other once they have been asked to
-- connect. `network` is one lawful environment: its clock is the state of the world.
mod Examples
mod Reports
mod Logs
mod Links
mod Commands
mod Relays
mod Loads
mod Measures
use local_peer_connections.Prelude.{
  inl, inr, ℕ, zero, suc, ◌+◌, ◌≤◌, String, ◌<>◌, Bool, true, false, Option, none, some, List, [],
  ◌∷◌, arith, str_eq, if◌then◌else◌, ltb,
}
use local_peer_connections.Prelude.Int.{ℤ, pos}
use local_peer_connections.Python.Value.{
  Value, Fields, boolean, int, str, list, dict, cons, nil, field, end,
}
use local_peer_connections.Exec.{type_error}
use local_peer_connections.World.{
  Arithmetic, url_error, Device, Request, Reply, response, unavailable, Env, IsEnv, State,
}
use local_peer_connections.Api.{Api}
use local_peer_connections.Runner.{Runner}

abbrev pub snapshot_of : String → String → String → Value
snapshot_of me peer name = dict (
    field "localPeerId" (str me) (
      field "endpoints"
        (list (cons (dict (field "id" (str "e1") (field "localName" (str name) end))) nil))
        (field "connections"
          (list (cons (dict (field "peerId" (str peer) (field "state" (str "ready") end))) nil))
          (field "capabilities" (dict end) (
            field "runtimeState" (str "ready") (
              field "presenceActive" (boolean true)
                (field "knownPeerIds" (list (cons (str peer) nil)) end)))))))

abbrev pub events_of : String → Value
events_of peer = dict (
    field "events"
      (list (
        cons
          (dict (
            field "sequence" (int (pos 7)) (
              field "type" (str "verificationRequired")
                (field "peerId" (str peer) (field "sas" (str "4711") end)))))
          nil))
      end)

abbrev pub health_of : Value → Value
health_of v = dict (field "snapshot" v end)

abbrev pub accepted : Value
accepted = dict (field "ok" (boolean true) (field "result" (dict end) end))

abbrev pub answer : String → Reply
answer url =
    if str_eq url "http://127.0.0.1:1/snapshot"
    then response (snapshot_of "A" "B" "beta")
    else if str_eq url "http://127.0.0.1:2/snapshot"
    then response (snapshot_of "B" "A" "alpha")
    else if str_eq url "http://127.0.0.1:1/events?after=0"
    then response (events_of "B")
    else if str_eq url "http://127.0.0.1:2/events?after=0"
    then response (events_of "A")
    else if str_eq url "http://127.0.0.1:1/health"
    then response (health_of (snapshot_of "A" "B" "beta"))
    else if str_eq url "http://127.0.0.1:2/health"
    then response (health_of (snapshot_of "B" "A" "alpha"))
    else if str_eq url "http://127.0.0.1:1/command"
    then response accepted
    else if str_eq url "http://127.0.0.1:2/command"
    then response accepted
    else if str_eq url "http://127.0.0.1:1/events?after=7"
    then response (dict (field "events" (list nil) end))
    else if str_eq url "http://127.0.0.1:2/events?after=7"
    then response (dict (field "events" (list nil) end))
    else unavailable url_error "refused"

-- No device of the tests reports a number that is no integer.
abbrev pub no_floats : Arithmetic
no_floats = record {
  add = λ v w. inl type_error;
  multiply = λ v w. inl type_error;
  less = λ v w. inl type_error;
  to_float = λ v. inr v;
  divide = λ v w. inl type_error;
  seconds = λ d. int (pos d);
}

abbrev pub network_of : (String → Reply) → Env
network_of replies = record {
  World = ℕ;
  urlopen = λ r t w. (replies r.url, w + 10);
  monotonic = λ w. (w, w);
  sleep = λ d w. w + d;
  second_first = λ w. (false, w);
  lower = λ s. s;
  upper = λ s. s;
  is_alnum = λ c. true;
  repr = λ v. "";
  arithmetic = no_floats;
}

pub network_of-IsEnv : (replies : String → Reply) → IsEnv (network_of replies)
network_of-IsEnv replies = record {
  elapsed = λ w. w;
  urlopen_le = λ r t w. omega arith;
  read_after = λ w. omega arith;
  read_before = λ w. omega arith;
  second_first_le = λ w. omega arith;
  sleep_le = λ d w. omega arith;
}

abbrev pub network : Env
network = network_of answer

-- A network on which no device answers.
abbrev pub silence : Env
silence = network_of (λ url. unavailable url_error "refused")

abbrev pub alpha : Api
alpha = record { index = 0; device = record { label = "alpha"; port = pos 1 }; timeout = 5000 }

abbrev pub beta : Api
beta = record { index = 1; device = record { label = "beta"; port = pos 2 }; timeout = 5000 }

abbrev pub pair : Runner
pair = record { apis = alpha ∷ beta ∷ []; timeout = 30000; soak_seconds = 60 }

abbrev pub start : State network
start = record { world = 0; cursor = λ i. pos 0; metrics = end }

abbrev pub start_silence : State silence
start_silence = record { world = 0; cursor = λ i. pos 0; metrics = end }
