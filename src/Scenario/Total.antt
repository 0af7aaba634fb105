-- ===== src/Scenario/Total.antt =====
-- The steps that the scenarios share end and move forward.
use local_peer_connections.Prelude.{ℕ, zero, suc, String, Bool, none, some, List, [], ◌∷◌, ◌==◌}
use local_peer_connections.Python.Value.{Value, Fields, value_length}
use local_peer_connections.Exec.{Message, Exec, ok, err, builtin, type_error}
use local_peer_connections.Exec.Contract.{
  Keeps, Keeps-lift, Keeps-bind, Keeps-if, Keeps-pure, Keeps-for_each, Keeps-all_of,
}
use local_peer_connections.World.{Env, IsEnv, State}
use local_peer_connections.Loop.Forward.{total, ResultEnds, Keeps-sleep, Keeps-monotonic}
use local_peer_connections.Api.{Api}
use local_peer_connections.Api.Total.{api_rules}
use local_peer_connections.Runner.Total.{Keeps-wait_until, Keeps-reset_all, Keeps-drain_events}
use local_peer_connections.Connect.Total.{Keeps-connect}
use local_peer_connections.Peers.Total.{walk_ends, Keeps-peer_id, Keeps-assert_discovery}
use local_peer_connections.Scenario.{
  first_two, nth, act, send_reliable, check_ready, check_state, is_unconnected, has_connections,
  both, has_length,
}

pub first_two_ends : (l : List Api) → ResultEnds (first_two l)
unfolding first_two
first_two_ends [] = tt
first_two_ends (a ∷ []) = tt
first_two_ends (a ∷ b ∷ l) = tt

pub nth_ends : (l : List Api) (i : ℕ) → ResultEnds (nth l i)
unfolding nth
nth_ends [] i = tt
nth_ends (a ∷ l) zero = tt
nth_ends (a ∷ l) (suc i) = nth_ends l i

pub has_length_ends : (n : ℕ) (v : Value) → ResultEnds (has_length n v)
has_length_ends n v =
    elim (value_length v)
      as (λ o.
        ResultEnds {A = Bool} (elim o [ some m ↦ ok (m == n) | none ↦ err (builtin type_error) ])) [
          | some m ↦ tt
          | none ↦ tt
        ]

module _ (E : Env) (laws : IsEnv E) where
  pub Keeps-act :
      (api : Api) (action : String) (arguments : Fields)
      → Keeps (total E laws) (act E api action arguments)
  unfolding act
  Keeps-act api action arguments = search api_rules depth 12

  pub Keeps-send_reliable :
      (api : Api) (peer : String) (size : ℕ) → Keeps (total E laws) (send_reliable E api peer size)
  unfolding send_reliable
  Keeps-send_reliable api peer size = Keeps-act api _ _

  Keeps-check_state : (m : Message) (v : Value) → Keeps (total E laws) (check_state E m v)
  unfolding check_state
  Keeps-check_state m v = search api_rules depth 12

  pub Keeps-check_ready :
      (m : String → Message) (api : Api) → Keeps (total E laws) (check_ready E m api)
  unfolding check_ready
  Keeps-check_ready m api = search (api_rules, Keeps-lift, walk_ends, Keeps-check_state) depth 12

  pub Keeps-is_unconnected : (api : Api) → Keeps (total E laws) (is_unconnected E api)
  unfolding is_unconnected
  Keeps-is_unconnected api = search api_rules depth 12

  pub Keeps-has_connections : (n : ℕ) (api : Api) → Keeps (total E laws) (has_connections E n api)
  unfolding has_connections
  Keeps-has_connections n api = search (api_rules, Keeps-lift, has_length_ends) depth 12

  pub Keeps-both :
      (m n : Exec (State E) Bool)
      → Keeps (total E laws) m
      → Keeps (total E laws) n
      → Keeps (total E laws) (both E m n)
  unfolding both
  Keeps-both m n h k = search api_rules depth 12

  pub ruleset step_rules = (
    api_rules, Keeps-lift, walk_ends, first_two_ends, nth_ends, Keeps-act, Keeps-send_reliable,
    Keeps-check_ready, Keeps-is_unconnected, Keeps-has_connections, Keeps-both, Keeps-wait_until,
    Keeps-reset_all, Keeps-drain_events, Keeps-connect, Keeps-peer_id, Keeps-assert_discovery,
    Keeps-sleep, Keeps-monotonic,
  )
