-- ===== src/Lib.antt =====
-- The device test tools of local-peer-connections: the host-side program
-- integration_device_app/tool/device_integration_runner.py, which drives two or more phones over
-- their control ports and judges the integration scenarios IT-001 to IT-046; the command-line client
-- integration_device_app/tool/device_test_client.py, which sends one request to one phone; and the
-- part of the control fixture (integration_device_app/lib/device_test_controller.dart) that the
-- runner reads.
--
-- The parts, and the files that model them:
-- - Python: the JSON values that the runner receives, with the operations that it applies to values
--   whose type it has not tested (`get`, `isinstance`, `bool`, `in`, iteration, `+`, `*`, `<`, `int`),
--   and the text functions (`rsplit`, `int`, decimal numbers). A float is a fraction over a power of
--   two; NaN and the infinities are no values.
-- - Exec: state and exceptions. An action takes the state and gives a result and the state, also when
--   it raises. `failure` is `RunnerFailure`, `blocked` is `ScenarioBlocked`, `builtin` is any
--   exception that no clause of the program catches, `SystemExit` too, and `diverged` says that a
--   bounded loop of the model ran out of rounds. Exec/Contract has one rule for each way to build an action;
--   Exec/Inversion and Exec/Each go from the end of a run back to its steps; Exec/Still has the steps
--   that change no state.
-- - World: what lies outside, as a parameter: `urllib.request.urlopen` with `json.load`,
--   `time.monotonic`, `time.sleep`, which of two threads is first, `str.lower`, `str.upper`,
--   `str.isalnum`, `repr`, and the arithmetic of floats, of which no law is assumed. `IsEnv` states that the clock does not go back
--   and that `sleep(d)` lasts `d` at least. The state is the world, the cursor of each `DeviceApi`, and
--   the dict `metrics` of the runner.
-- - Loop: `Runner.wait` and the other loops against a deadline. A loop gets one round for each 50 ms
--   of its timeout and two more. Every round that goes on sleeps for 50 ms at least, so that these
--   rounds reach the deadline. Loop/Forward states what every step keeps, Loop/Total that the loops
--   end, Loop/Sound what a loop has seen when it ends,
--   Loop/Invariant what its variables satisfy.
-- - Api: `DeviceApi` (`request`, `snapshot`, `events`, `command`). A cursor is an integer: where an
--   event has a Boolean as its sequence, the source keeps the Boolean, and the model its number.
-- - Runner: `drain_events`, `wait_for_event`, `preflight`, `reset_all`.
-- - Endpoint, Connect, Peers: `endpoint`, `connect`, and `peer_id`, `backend_resource_counts`,
--   `provision_known_peers`, `assert_discovery`.
-- - Links: `_selected_expected_peers`, `_assert_selected_connections_ready`,
--   `_wait_for_selected_connections`, `_assert_selected_stability_window` and
--   `ensure_bidirectional_ready`; Links/Traffic: `_assert_traffic_connections_ready` and
--   `_assert_stable_traffic_window`.
-- - Digest: `payload_digest`.
-- - Scenario: the scenarios, and `run`. Direct, Traffic, Groups and Routed have IT-001 to IT-006,
--   IT-008 to IT-010, IT-017 to IT-019, IT-028, IT-032 to IT-036 and IT-040; Load has IT-021, IT-041
--   and IT-042, Load/Ramp IT-043, Measured IT-044, and Relay IT-046. Two jobs of a thread pool that
--   send one request each run in either order. Of IT-021, the two calls of `connect`, whose steps
--   interleave, are a parameter.
-- - Report: the telemetry and diagnostics that `main` reads from the devices, and `telemetry_line`.
-- - Main: `parse_device` and `main`, which is given `run` as a parameter.
-- - Client: the client's requests, and how it ends; `json.loads` is a parameter.
-- - Trace: an environment that keeps the requests that have been sent, and what the steps keep of
--   them.
-- - Fixture: the fixture's event history (`_record`, `GET /events`), its test payloads and
--   `payloadDigest`.
-- - Tests: networks of two and three devices, runs on them, and the theorems at concrete inputs.
--
-- Times are natural numbers of milliseconds; where the source takes the difference of a deadline and
-- a later time, the difference is cut at 0, below the least value that the source uses of it. A
-- message is the list of the pieces of its f-string, so that the display of a value stays the
-- language's. What the scenarios print, the JSON file and the parsers of the command lines are left
-- out. Not modelled are the rest of the fixture, which is the user interface of the device and calls
-- of the library, and the library that it tests.
pub mod Prelude
pub mod Python
pub mod Exec
pub mod World
pub mod Loop
pub mod Api
pub mod Runner
pub mod Endpoint
pub mod Connect
pub mod Peers
pub mod Digest
pub mod Trace
pub mod Links
pub mod Scenario
pub mod Fixture
pub mod Client
pub mod Report
pub mod Main
pub mod Tests
