-- ===== src/Report/Total.antt =====
-- Reading the devices ends, whatever they answer, and so does `telemetry_line`.
use local_peer_connections.Prelude.{String, Bool, Option, none, some, List, [], ◌∷◌}
use local_peer_connections.Python.Value.{
  Value, Fields, null, boolean, int, float, str, list, dict, find_field,
}
use local_peer_connections.Exec.{Message, Result, ok}
use local_peer_connections.Exec.Contract.{Keeps}
use local_peer_connections.World.{Arithmetic, Env, IsEnv}
use local_peer_connections.Loop.Forward.{total, ResultEnds, and_then-ResultEnds}
use local_peer_connections.Api.{Api}
use local_peer_connections.Api.Total.{api_rules}
use local_peer_connections.Scenario.Numbers.{settle_ends}
use local_peer_connections.Report.{
  Telemetry, counters, unreachable, Notes, number, rate, join, telemetry_line, telemetry_lines,
  read_device,
}

module _ (A : Arithmetic) where
  number_ends : (v : Value) → ResultEnds (number A v)
  unfolding number
  number_ends (boolean b) = settle_ends _
  number_ends (int n) = settle_ends _
  number_ends (float m k) = settle_ends _
  number_ends null = tt
  number_ends (str s) = tt
  number_ends (list vs) = tt
  number_ends (dict d) = tt

  rate_ends : (key : String) (d : Fields) → ResultEnds (rate A key d)
  unfolding rate
  rate_ends key d = and_then-ResultEnds _ _ (number_ends _) (λ v. tt)

  join_ends :
      (r : Result Message) (rest : List (Result Message))
      → ResultEnds r
      → ResultEnds (join A rest)
      → ResultEnds (join A (r ∷ rest))
  unfolding join
  join_ends r rest h k = and_then-ResultEnds _ _ h (λ m. and_then-ResultEnds _ _ k (λ n. tt))

  said :
      (m : Message) (rest : List (Result Message))
      → ResultEnds (join A rest)
      → ResultEnds (join A (ok m ∷ rest))
  said m rest k = join_ends (ok m) rest tt k

  nothing_said : ResultEnds (join A [])
  unfolding join
  nothing_said = tt

  telemetry_line_ends : (name : String) (d : Fields) → ResultEnds (telemetry_line A name d)
  unfolding telemetry_line
  telemetry_line_ends name d = search (said, join_ends, nothing_said, rate_ends) depth 40

  unless_found :
      {B : Type 0} (o : Option Value) (r q : Result B)
      → ResultEnds r
      → ResultEnds q
      → ResultEnds (elim o [ some v ↦ r | none ↦ q ])
  unless_found none r q h k = k
  unless_found (some v) r q h k = h

  pub telemetry_lines_ends :
      (entries : List (String × Telemetry)) → ResultEnds (telemetry_lines A entries)
  unfolding telemetry_lines
  telemetry_lines_ends [] = tt
  telemetry_lines_ends ((name, unreachable m) ∷ rest) = telemetry_lines_ends rest
  telemetry_lines_ends ((name, counters d) ∷ rest) =
      let later = telemetry_lines_ends rest in
      unless_found (find_field "error" d) _ _ later (
        and_then-ResultEnds _ _ (telemetry_line_ends name d)
          (λ line. and_then-ResultEnds _ _ later (λ lines. tt)))

module _ (E : Env) (laws : IsEnv E) where
  pub Keeps-read_device :
      (diagnose : Bool) (api : Api) (notes : Notes)
      → Keeps (total E laws) (read_device E diagnose api notes)
  unfolding read_device
  Keeps-read_device diagnose api notes = search api_rules depth 14
