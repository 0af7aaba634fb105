-- ===== src/Runner.antt =====
-- `class Runner` of integration_device_app/tool/device_integration_runner.py: its fields, the steps
-- that its methods share, `drain_events`, `wait_for_event` and `reset_all` with its preflight.
pub mod Total
pub mod Found
pub mod Waited
pub mod Reset
use local_peer_connections.Prelude.{
  ℕ, String, Bool, true, false, not, ◌&&◌, Option, none, some, List, [], ◌∷◌, ◌++◌, if◌then◌else◌,
}
use mathlib.Core.List.{reverse}
use local_peer_connections.Python.Value.{
  Value, Fields, str, dict, list, nil, end, get, get_or, is_str, is_true, is_none, elements,
}
use local_peer_connections.Exec.{
  text, shown, Message, Error, failure, builtin, attribute_error, type_error, assertion_error,
  Result, ok, err, Exec, ok_or, pure, raise, lift, ◌>>=◌, ◌>>◌, raise_if, or_raise, for_each,
  all_of,
}
use local_peer_connections.World.{Env, State}
use local_peer_connections.Loop.{wait}
use local_peer_connections.Api.{Api, label, value_get, request, snapshot, events, command}

-- Times in milliseconds. The dict `metrics` is kept in the state.
pub record Runner : Type 0 where
  pub apis : List Api
  pub timeout : ℕ
  pub soak_seconds : ℕ

-- `for x in v`, over a value that may not be walked.
abbrev pub walk : Value → Result (List Value)
walk v = ok_or (elements v) (builtin type_error)

-- A predicate on events may raise.
abbrev pub Test : Type 0
Test = Fields → Result Bool

-- The first event of a type that passes a test.
unfoldable pub first_match : String → Test → List Fields → Result (Option Fields)
first_match event_type predicate [] = ok none
first_match event_type predicate (event ∷ rest) = elim (is_str event_type (get "type" event)) [
  | false ↦ first_match event_type predicate rest
  | true ↦ elim (predicate event) [
    | ok true ↦ ok (some event)
    | ok false ↦ first_match event_type predicate rest
    | err e ↦ err e
  ]
]

module _ (E : Env) where
  unfoldable pub drain_events : Runner → Exec (State E) Unit
  drain_events runner = for_each (λ api. do events E api; pure tt) runner.apis

  -- `found = event; return True`, or `return False`.
  abbrev seen : Option Fields → Option Fields → Bool × Option Fields
  seen found (some event) = (true, some event)
  seen found none = (false, found)

  -- The nested `check` of `wait_for_event`; it assigns `found`.
  unfoldable pub check_event :
      Api → String → Test → Option Fields → Exec (State E) (Bool × Option Fields)
  check_event api event_type predicate found = do
    polled ← events E api
    hit ← lift (first_match event_type predicate polled)
    pure (seen found hit)

  unfoldable pub wait_for_event : Api → String → Test → ℕ → Exec (State E) Fields
  wait_for_event api event_type predicate timeout = do
    found ←
        wait E (check_event api event_type predicate)
          (text (label api) ∷ text " event " ∷ text event_type ∷ []) timeout none
    or_raise found (builtin assertion_error)

  -- A predicate with no variables of its own.
  abbrev pub plain : Exec (State E) Bool → Unit {0} → Exec (State E) (Bool × Unit {0})
  plain m l = do held ← m; pure (held, tt)

  unfoldable pub wait_until : Exec (State E) Bool → Message → ℕ → Exec (State E) Unit
  wait_until m description timeout = wait E (plain m) description timeout tt

  -- `Runner._presence_started`
  unfoldable pub presence_started : Api → Exec (State E) Bool
  presence_started api = do
    d ← snapshot E api
    events E api
    pure (
        not (is_none (get "capabilities" d))
        && (not (is_none (get "endpoints" d)) && is_true (get "presenceActive" d)))

  abbrev initialization_failed : List Fields → Value
  initialization_failed [] = str "capabilities were not reported"
  initialization_failed (event ∷ rest) =
      if is_str "runtimeInitializationFailed" (get "type" event)
      then dict event
      else initialization_failed rest

  report_presence : Api → Exec (State E) Unit
  report_presence api = do
    diagnostics ← events E api
    raise (
        failure (
          text (label api)
          ∷ text ": presence initialization failed: "
          ∷ shown (initialization_failed (reverse diagnostics))
          ∷ []))

  -- One round of the first loop of `preflight`.
  unfoldable pub check_health : Api → Exec (State E) Unit
  unfolding report_presence
  check_health api = do
    health ← request E api "GET" "/health" none none
    found ← lift (value_get "snapshot" (dict end) health)
    state ← lift (value_get "runtimeState" Value.null found)
    raise_if (not (is_str "ready" state))
        (failure (text (label api) ∷ text ": runtime is not ready: " ∷ shown found ∷ []))
    capabilities ← lift (value_get "capabilities" Value.null found)
    if is_none capabilities then report_presence api else pure tt

  unfoldable pub preflight : Runner → Exec (State E) Unit
  preflight runner = do
    for_each check_health runner.apis
    wait_until (all_of presence_started runner.apis) (text "presence on every device" ∷ [])
        runner.timeout

  unfoldable pub reset_all : Runner → Exec (State E) Unit
  reset_all runner = do
    for_each (λ api. do command E api "resetRuntime" end none; pure tt) runner.apis
    preflight runner
