-- ===== src/Scenario/Load/Ramp/Total.antt =====
-- IT-043 ends, whatever the devices answer.
use local_peer_connections.Prelude.{ℕ, suc, String, Bool, List, [], ◌∷◌, arith, if◌then◌else◌}
use local_peer_connections.Python.Value.{Value, Fields}
use local_peer_connections.Python.Number.{divide}
use local_peer_connections.Exec.{ok}
use local_peer_connections.Exec.Contract.{Keeps, Keeps-lift, Keeps-bind, Keeps-pure, keeps_rules}
use local_peer_connections.World.{Arithmetic, Env, IsEnv}
use local_peer_connections.Prelude.{◌≤◌}
use local_peer_connections.Loop.{min_pause}
use local_peer_connections.Loop.Forward.{total, ResultEnds, ok_or-ResultEnds, if-ResultEnds}
use local_peer_connections.Api.{Api}
use local_peer_connections.Runner.{Runner}
use local_peer_connections.Scenario.Load.{Traffic}
use local_peer_connections.Scenario.Numbers.{settle_ends, add_ends, multiply_ends}
use local_peer_connections.Scenario.Load.Total.{
  load_rules, Keeps-start_both, Keeps-stop_both, Keeps-link_pair, Keeps-load_watch,
}
use local_peer_connections.Scenario.Load.Ramp.{
  Totals, totals_at, check_phase, add_totals, account, ramp_phase, ramp, check_totals,
  scenario_bidirectional_size_ramp,
}

totals_at_ends :
    (name : String) (totals : List (String × Totals)) → ResultEnds (totals_at name totals)
totals_at_ends name totals = ok_or-ResultEnds _ _ tt

loss_ends :
    (A : Arithmetic) (b : Bool) (v w one : Value) → ResultEnds (if b then divide A v w else ok one)
loss_ends A b v w one = if-ResultEnds b _ _ (settle_ends _) tt

module _ (E : Env) (laws : IsEnv E) where
  Keeps-check_phase :
      (phase size : ℕ) (api : Api) (d : Fields)
      → Keeps (total E laws) (check_phase E phase size api d)
  unfolding check_phase
  Keeps-check_phase phase size api d = search (load_rules, totals_at_ends, loss_ends) depth 14

  Keeps-add_totals :
      (size : ℕ) (api : Api) (t : Traffic) (totals : List (String × Totals))
      → Keeps (total E laws) (add_totals E size api t totals)
  unfolding add_totals
  Keeps-add_totals size api t totals =
      search (keeps_rules, Keeps-lift, totals_at_ends, add_ends, multiply_ends) depth 14

  Keeps-account :
      (phase size : ℕ) (api : Api) (d : Fields) (totals : List (String × Totals))
      → Keeps (total E laws) (account E phase size api d totals)
  unfolding account
  Keeps-account phase size api d totals =
      Keeps-bind _ _ (Keeps-check_phase phase size api d) (λ t. Keeps-add_totals size api t totals)

  Keeps-ramp_phase :
      (runner : Runner) (first second : Api × String) (phase size : ℕ)
      (totals : List (String × Totals))
      → Keeps (total E laws) (ramp_phase E runner first second phase size totals)
  unfolding ramp_phase
  Keeps-ramp_phase runner first second phase size totals =
      let h : min_pause ≤ 250 = omega arith in
      search (load_rules, Keeps-start_both, Keeps-stop_both, Keeps-load_watch, Keeps-account) depth
        16

  Keeps-ramp :
      (runner : Runner) (first second : Api × String) (phase : ℕ) (sizes : List ℕ)
      (totals : List (String × Totals))
      → Keeps (total E laws) (ramp E runner first second phase sizes totals)
  unfolding ramp
  Keeps-ramp runner first second phase [] totals = Keeps-pure totals
  Keeps-ramp runner first second phase (size ∷ sizes) totals =
      Keeps-bind _ _ (Keeps-ramp_phase runner first second phase size totals)
        (λ counted. Keeps-ramp runner first second (suc phase) sizes counted)

  Keeps-check_totals :
      (totals : List (String × Totals)) (api : Api)
      → Keeps (total E laws) (check_totals E totals api)
  unfolding check_totals
  Keeps-check_totals totals api = search (load_rules, totals_at_ends, loss_ends) depth 16

  pub Keeps-scenario_bidirectional_size_ramp :
      (runner : Runner) → Keeps (total E laws) (scenario_bidirectional_size_ramp E runner)
  unfolding scenario_bidirectional_size_ramp
  Keeps-scenario_bidirectional_size_ramp runner =
      search (load_rules, Keeps-link_pair, Keeps-ramp, Keeps-check_totals) depth 14
