-- ===== src/Api.antt =====
-- `class DeviceApi` of integration_device_app/tool/device_integration_runner.py.
pub mod Cursor
pub mod Polled
pub mod Total
use local_peer_connections.Prelude.{
  ℕ, String, ◌<>◌, Bool, true, false, Option, none, some, List, [], ◌∷◌, ◌++◌, ◌==◌, if◌then◌else◌,
}
use local_peer_connections.Prelude.Int.{ℤ, max_ℤ}
use local_peer_connections.Python.Value.{
  Value, Values, Fields, null, boolean, str, list, dict, nil, field, end, to_list, get_or, get,
  as_dict, as_int, is_true,
}
use local_peer_connections.Python.Text.{show_int}
use local_peer_connections.Exec.{
  Piece, text, shown, Message, Error, failure, builtin, attribute_error, json_error, Result, ok,
  err, Exec, pure, raise, lift, ◌>>=◌, ◌>>◌, raise_unless, or_raise,
}
use local_peer_connections.World.{
  Device, Request, Reply, response, unavailable, garbled, Env, State,
}

-- The object `index` of `Runner.apis`; its cursor is kept in the state.
pub record Api : Type 0 where
  pub index : ℕ
  pub device : Device
  pub timeout : ℕ

abbrev pub label : Api → String
label api = api.device.label

-- `Device.base`
unfoldable pub base : Device → String
base d = "http://127.0.0.1:" <> show_int d.port

-- `v.get(key, default)` on a value that may be no dict.
unfoldable pub value_get : String → Value → Value → Result Value
value_get key default (dict d) = ok (get_or key default d)
value_get key default _ = err (builtin attribute_error)

abbrev pub json_headers : Option Value → List (String × String)
json_headers none = []
json_headers (some v) = ("content-type", "application/json") ∷ []

-- The request that `request` builds.
abbrev pub request_to : Api → String → String → Option Value → Request
request_to api method path body = record {
  url = base api.device <> path;
  body = body;
  method = method;
  headers = json_headers body;
}

-- One event moves the cursor if it is a dict with an integer sequence.
unfoldable pub advance : ℤ → Value → ℤ
advance cursor (dict event) = elim (as_int (get "sequence" event)) [
  | some sequence ↦ max_ℤ cursor sequence
  | none ↦ cursor
]
advance cursor _ = cursor

unfoldable pub advance_all : ℤ → List Value → ℤ
advance_all cursor [] = cursor
advance_all cursor (event ∷ events) = advance_all (advance cursor event) events

-- `[event for event in events if isinstance(event, dict)]`
unfoldable pub dicts : List Value → List Fields
dicts [] = []
dicts (dict d ∷ vs) = d ∷ dicts vs
dicts (_ ∷ vs) = dicts vs

unfoldable pub set_cursor : ℕ → ℤ → (ℕ → ℤ) → ℕ → ℤ
set_cursor i c cursor j = if j == i then c else cursor j

abbrev as_list : Value → Option (List Value)
as_list (list vs) = some (to_list vs)
as_list _ = none

-- The body of a command.
abbrev pub command_body : String → Fields → Value
command_body action arguments =
    dict (field "action" (str action) (field "arguments" (dict arguments) end))

module _ (E : Env) where
  unfoldable pub urlopen : Request → ℕ → Exec (State E) Reply
  urlopen r t s = let (reply, w) = E.urlopen r t s.world in (ok reply, record s { world = w })

  unfoldable pub read_reply : Api → Reply → Exec (State E) Value
  read_reply api (response v) = pure v
  read_reply api (unavailable fault error) =
      raise (failure (text (label api) ∷ text ": control API unavailable: " ∷ text error ∷ []))
  read_reply api garbled = raise (builtin json_error)

  unfoldable pub request : Api → String → String → Option Value → Option ℕ → Exec (State E) Value
  unfolding urlopen read_reply
  request api method path body timeout = do
    reply ←
        urlopen (request_to api method path body) (elim timeout [ none ↦ api.timeout | some t ↦ t ])
    read_reply api reply

  unfoldable pub snapshot : Api → Exec (State E) Fields
  snapshot api = do
    value ← request api "GET" "/snapshot" none none
    or_raise (as_dict value) (failure (text (label api) ∷ text ": invalid snapshot" ∷ []))

  unfoldable pub get_cursor : Api → Exec (State E) ℤ
  get_cursor api s = (ok (s.cursor api.index), s)

  -- The `for` loop over the events of a response.
  unfoldable pub consume : Api → List Value → Exec (State E) Unit
  consume api events s = (
    ok tt,
    record s { cursor = set_cursor api.index (advance_all (s.cursor api.index) events) s.cursor },
  )

  unfoldable pub events : Api → Exec (State E) (List Fields)
  unfolding get_cursor consume
  events api = do
    cursor ← get_cursor api
    value ← request api "GET" ("/events?after=" <> show_int cursor) none none
    found ← lift (value_get "events" (list nil) value)
    listed ←
        or_raise (as_list found) (failure (text (label api) ∷ text ": invalid event response" ∷ []))
    consume api listed
    pure (dicts listed)

  -- `not isinstance(value, dict) or value.get("ok") is not True`
  abbrev accepted : Value → Option Fields
  accepted (dict d) = if is_true (get "ok" d) then some d else none
  accepted _ = none

  unfoldable pub command : Api → String → Fields → Option ℕ → Exec (State E) Fields
  command api action arguments timeout = do
    value ← request api "POST" "/command" (some (command_body action arguments)) timeout
    answer ← or_raise (accepted value) (
        failure (
          text (label api) ∷ text ": command " ∷ text action ∷ text " failed: " ∷ shown value ∷ []))
    or_raise (as_dict (get "result" answer)) (
        failure
          (text (label api) ∷ text ": command " ∷ text action ∷ text " returned no snapshot" ∷ []))
