-- ===== src/Main.antt =====
-- `parse_device` and `main` of integration_device_app/tool/device_integration_runner.py.
pub mod Parsing
pub mod Exit
pub mod Total
use local_peer_connections.Prelude.{
  ℕ, zero, suc, ◌-◌, String, Bool, true, false, ◌&&◌, Option, none, some, List, [], ◌∷◌, length,
  ltb, str_eq, if◌then◌else◌,
}
use local_peer_connections.Prelude.Int.{ℤ, pos}
use local_peer_connections.Python.Value.{Value, Fields, dict, end, get, get_or, as_dict}
use local_peer_connections.Python.Text.{rsplit, to_int}
use local_peer_connections.Exec.{
  Message, Error, failure, blocked, builtin, diverged, message, Result, ok, err, Exec, pure, raise,
  catch, ◌>>=◌, ◌>>◌, lift, fold,
}
use local_peer_connections.World.{Device, Env, State}
use local_peer_connections.Api.{Api}
use local_peer_connections.Runner.{Runner, preflight}
use local_peer_connections.Peers.{provision_known_peers}
use local_peer_connections.Loop.{monotonic}
use local_peer_connections.Report.{Telemetry, Diagnostic, no_notes, read_device, telemetry_lines}

-- `parse_device`; `none` stands for the `ArgumentTypeError`.
unfoldable pub parse_device : String → Option Device
parse_device value = elim (rsplit b'=' value) [
  | none ↦ none
  | some (label, port) ↦ elim (to_int port) [
    | none ↦ none
    | some n ↦ some (record { label = label; port = n })
  ]
]

-- The arguments that `argparse` hands to `main`; times in milliseconds, `soak_seconds` in seconds.
pub record Arguments : Type 0 where
  pub device : List Device
  pub scenario : List String
  pub provision_known_peers : Bool
  pub timeout : ℕ
  pub soak_seconds : ℕ

pub data Status : Type 0 where
  passed was_blocked failed : Status

-- An entry of `results`, and the lines that are printed of the telemetry.
pub record Outcome : Type 0 where
  pub scenario : String
  pub status : Status
  pub detail : Message
  -- In milliseconds.
  pub duration : ℕ
  pub telemetry : List (String × Telemetry)
  pub metrics : Fields
  pub diagnostics : List (String × Diagnostic)
  pub lines : List Message

-- `[DeviceApi(device, timeout=timeout) for device in devices]`
unfoldable pub make_apis : ℕ → ℕ → List Device → List Api
make_apis timeout index [] = []
make_apis timeout index (d ∷ rest) =
    record { index = index; device = d; timeout = timeout } ∷ make_apis timeout (suc index) rest

unfoldable pub make_runner : Arguments → Runner
make_runner args = record {
  apis = make_apis args.timeout 0 args.device;
  timeout = args.timeout;
  soak_seconds = args.soak_seconds;
}

abbrev pub is_failed : Status → Bool
is_failed failed = true
is_failed passed = false
is_failed was_blocked = false

abbrev pub is_passed : Status → Bool
is_passed passed = true
is_passed was_blocked = false
is_passed failed = false

-- `all(result["status"] == "passed" for result in results)`
unfoldable pub all_passed : List Outcome → Bool
all_passed [] = true
all_passed (r ∷ rest) = is_passed r.status && all_passed rest

module _ (E : Env) (run : Runner → String → Exec (State E) (Unit {0})) where
  -- The `DeviceApi` objects of a new `Runner` start from cursor 0.
  new_runner : Exec (State E) (Unit {0})
  new_runner s = (ok tt, record s { cursor = λ _. pos 0; metrics = end })

  -- The `try` block of one scenario.
  unfoldable pub attempt : Arguments → Runner → String → Exec (State E) (Unit {0})
  attempt args runner name = do
    preflight E runner
    if args.provision_known_peers then provision_known_peers E runner else pure tt
    run runner (E.upper name)

  -- `status` and `detail`, from how the block ended; another exception ends the program.
  abbrev pub verdict : Result (Unit {0}) → Exec (State E) (Status × Message)
  verdict (ok _) = pure (passed, [])
  verdict (err (blocked m)) = pure (was_blocked, m)
  verdict (err (failure m)) = pure (failed, m)
  verdict (err (builtin b)) = raise (builtin b)
  verdict (err diverged) = raise diverged

  unfoldable pub judge : Exec (State E) (Unit {0}) → Exec (State E) (Status × Message)
  judge m s = let (r, t) = m s in verdict r t

  metrics_of : Exec (State E) Fields
  metrics_of s = (ok s.metrics, s)

  -- One round of the loop over the scenarios.
  unfoldable pub run_one : Arguments → String → Exec (State E) Outcome
  unfolding new_runner metrics_of
  run_one args name = do
    started ← monotonic E
    new_runner
    let runner = make_runner args
    (status, detail) ← judge (attempt args runner name)
    notes ← fold (read_device E (str_eq (E.upper name) "IT-046")) runner.apis no_notes
    ended ← monotonic E
    metrics ← metrics_of
    lines ← lift (telemetry_lines E.arithmetic notes.telemetry)
    pure (record {
      scenario = E.upper name;
      status = status;
      detail = detail;
      duration = ended - started;
      telemetry = notes.telemetry;
      metrics = metrics;
      diagnostics = notes.diagnostics;
      lines = lines;
    })

  -- The loop, which a failed scenario ends.
  unfoldable pub run_all : Arguments → List String → Exec (State E) (List Outcome)
  run_all args [] = pure []
  run_all args (name ∷ rest) = do
    outcome ← run_one args name
    if is_failed outcome.status
        then pure (outcome ∷ [])
        else (do later ← run_all args rest; pure (outcome ∷ later))

  -- The results, and the exit status; `parser.error` exits with 2.
  unfoldable pub main : Arguments → Exec (State E) (List Outcome × ℕ)
  main args = if ltb (length args.device) 2 then pure ([], 2) else (do
    results ← run_all args args.scenario
    pure (results, if all_passed results then 0 else 1))
