-- ===== src/Client.antt =====
-- integration_device_app/tool/device_test_client.py: one request to one device from the command
-- line.
pub mod Requests
pub mod Exit
use Prim.Native.Char.{Char, code}
use local_peer_connections.Prelude.{
  ℕ, String, ◌<>◌, Bool, true, false, Option, none, some, List, [], ◌∷◌, ◌⊎◌, inl, inr, ◌==◌,
  if◌then◌else◌,
}
use local_peer_connections.Prelude.Int.{ℤ}
use local_peer_connections.Python.Value.{Value, Fields, str, dict, field, end, as_dict}
use local_peer_connections.Python.Text.{show_int}
use local_peer_connections.Exec.{
  text, Message, builtin, timeout_error, connection_error, json_error, system_exit, Result, ok, err,
  Exec, pure, raise, ◌>>=◌,
}
use local_peer_connections.World.{
  Request, Fault, http_error, url_error, timed_out, connection_reset, Reply, response, unavailable,
  garbled, Env, State,
}
use local_peer_connections.Api.{urlopen, json_headers}

-- The subcommands, with their arguments as `argparse` hands them on.
pub data Operation : Type 0 where
  health snapshot : Operation
  events : ℤ → Operation
  command : String → String → Operation

pub record Arguments : Type 0 where
  pub host : String
  pub port : ℤ
  pub operation : Operation

-- How `main` returns: it prints the JSON of a value and returns 0, or it prints a line to the error
-- stream and returns 1.
pub data Ending : Type 0 where
  printed : Value → Ending
  reported : Message → Ending

-- `s.rstrip("/")`
unfoldable pub rstrip : String → String
rstrip String.[] = String.[]
rstrip (String.◌∷◌ c s) = elim (rstrip s) [
  | String.[] ↦ if code c == b'/' then String.[] else String.◌∷◌ c String.[]
  | String.◌∷◌ d t ↦ String.◌∷◌ c (String.◌∷◌ d t)
]

unfoldable pub base : Arguments → String
base args = "http://" <> (args.host <> (":" <> show_int args.port))

-- The request that `request` builds.
unfoldable pub make_request : String → String → String → Option Value → Request
make_request base method path body = record {
  url = rstrip base <> path;
  body = body;
  method = method;
  headers = json_headers body;
}

-- The value that a command sends.
unfoldable pub command_body : String → Fields → Value
command_body action arguments =
    dict (field "action" (str action) (field "arguments" (dict arguments) end))

-- The end of the `try` block, and its `except` clauses; a `TimeoutError`, a `ConnectionResetError`
-- and a `JSONDecodeError` are no `URLError`, and leave `main`.
unfoldable pub conclude : {S : Type 0} → Reply → Exec S Ending
conclude (response v) = pure (printed v)
conclude (unavailable (http_error body) error) = pure (reported (text body ∷ []))
conclude (unavailable url_error error) =
    pure (reported (text "cannot reach device control API: " ∷ text error ∷ []))
conclude (unavailable timed_out error) = raise (builtin timeout_error)
conclude (unavailable connection_reset error) = raise (builtin connection_error)
conclude garbled = raise (builtin json_error)

-- The exit status of the process: what `main` returns; an exception that leaves it, `SystemExit`
-- with a text too, makes it 1.
abbrev pub exit_status : Result Ending → ℕ
exit_status (ok (printed v)) = 0
exit_status (ok (reported m)) = 1
exit_status (err e) = 1

-- `json.loads` is a parameter; its left side is the text of a `JSONDecodeError`.
module _ (loads : String → String ⊎ Value) where
  -- The request of an operation, or the text with which the program exits before it sends any.
  unfoldable pub request_of : Arguments → Message ⊎ Request
  request_of args = elim args.operation [
    | health ↦ inr (make_request (base args) "GET" "/health" none)
    | snapshot ↦ inr (make_request (base args) "GET" "/snapshot" none)
    | events after ↦
        inr (make_request (base args) "GET" ("/events?" <> ("after=" <> show_int after)) none)
    | command action arguments ↦ elim (loads arguments) [
      | inl error ↦ inl (text "arguments must be JSON: " ∷ text error ∷ [])
      | inr v ↦ elim (as_dict v) [
        | none ↦ inl (text "arguments must be a JSON object" ∷ [])
        | some d ↦ inr (make_request (base args) "POST" "/command" (some (command_body action d)))
      ]
    ]
  ]

  module _ (E : Env) where
    unfoldable pub send : Message ⊎ Request → Exec (State E) Ending
    send (inl m) = raise (builtin (system_exit m))
    send (inr r) = do reply ← urlopen E r 30000; conclude reply

    unfoldable pub main : Arguments → Exec (State E) Ending
    unfolding send
    main args = send (request_of args)
