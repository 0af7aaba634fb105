-- ===== src/World.antt =====
-- What lies outside the tools: the devices behind their control ports, the clock, and the tables of
-- the language's text functions. `Env` is a parameter of the whole model; `IsEnv` states what the
-- loops rely on. Times are in milliseconds.
use Prim.Native.Char.{Char}
use local_peer_connections.Prelude.{ℕ, ◌+◌, ◌≤◌, String, Bool, Option, List, ◌⊎◌}
use local_peer_connections.Prelude.Int.{ℤ}
use local_peer_connections.Python.Value.{Value, Fields}
use local_peer_connections.Exec.{Builtin}

-- `class Device`
pub record Device : Type 0 where
  pub label : String
  pub port : ℤ

-- `urllib.request.Request`; the body is the value that `json.dumps` was given.
pub record Request : Type 0 where
  pub url : String
  pub body : Option Value
  pub method : String
  pub headers : List (String × String)

-- Which exception `urlopen` raises: an `HTTPError` with its body, another `URLError`, a
-- `TimeoutError` or a `ConnectionResetError`.
pub data Fault : Type 0 where
  http_error : String → Fault
  url_error timed_out connection_reset : Fault

-- How `urlopen` and `json.load` end: with a value, with an exception and its text, or with a
-- response that is not JSON.
pub data Reply : Type 0 where
  response : Value → Reply
  unavailable : Fault → String → Reply
  garbled : Reply

-- The language's arithmetic where an operand is no integer, and where a result is a float: `v + w`,
-- `v * w`, `v < w`, `float(v)`, `v / w`; and `round(d, 3)` of a time in milliseconds as seconds.
-- The left side is the exception.
pub record Arithmetic : Type 0 where
  pub add : Value → Value → Builtin ⊎ Value
  pub multiply : Value → Value → Builtin ⊎ Value
  pub less : Value → Value → Builtin ⊎ Bool
  pub to_float : Value → Builtin ⊎ Value
  pub divide : Value → Value → Builtin ⊎ Value
  pub seconds : ℕ → Value

pub record Env : Type 1 where
  pub World : Type 0
  pub urlopen : Request → ℕ → World → Reply × World
  -- `time.monotonic()`
  pub monotonic : World → ℕ × World
  -- `time.sleep(d)`
  pub sleep : ℕ → World → World
  -- Whether the second of two jobs of a thread pool is the first to reach the network.
  pub second_first : World → Bool × World
  -- `s.lower()`, `s.upper()`, `c.isalnum()`, and `str(v)` of a value that is no text.
  pub lower : String → String
  pub upper : String → String
  pub is_alnum : Char → Bool
  pub repr : Value → String
  pub arithmetic : Arithmetic

-- The clock never goes back, `monotonic` reads it, and `sleep` lasts as long as asked.
pub record IsEnv (E : Env) : Type 0 where
  pub elapsed : E.World → ℕ
  pub urlopen_le : (r : Request) (t : ℕ) (w : E.World) → elapsed w ≤ elapsed (E.urlopen r t w).1
  pub read_after : (w : E.World) → elapsed w ≤ (E.monotonic w).0
  pub read_before : (w : E.World) → (E.monotonic w).0 ≤ elapsed (E.monotonic w).1
  pub second_first_le : (w : E.World) → elapsed w ≤ elapsed (E.second_first w).1
  pub sleep_le : (d : ℕ) (w : E.World) → elapsed w + d ≤ elapsed (E.sleep d w)

-- What the program changes: the devices and the clock, the cursor of each `DeviceApi` object, and
-- the dict `metrics` of the `Runner`.
pub record State (E : Env) : Type 0 where
  pub world : E.World
  pub cursor : ℕ → ℤ
  pub metrics : Fields
