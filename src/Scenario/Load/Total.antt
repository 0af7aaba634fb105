-- ===== src/Scenario/Load/Total.antt =====
-- The scenarios that use both directions at once end, whatever the devices answer.
use local_peer_connections.Prelude.{ℕ, String, Option, arith}
use local_peer_connections.Python.Value.{
  Value, Fields, null, boolean, int, float, str, list, dict, nil, cons,
}
use local_peer_connections.Exec.{Message, Exec, Result, and_then, ◌>>=◌}
use local_peer_connections.Exec.Contract.{
  Allowed, Keeps, Keeps-lift, Keeps-bind, Keeps-if, Keeps-pure,
}
use local_peer_connections.World.{Env, IsEnv, State}
use local_peer_connections.Prelude.{◌≤◌}
use local_peer_connections.Prelude.Int.{≤ℤ_refl}
use local_peer_connections.Loop.{min_pause}
use local_peer_connections.Loop.Forward.{
  Forward-trans, total, ResultEnds, and_then-ResultEnds, if-ResultEnds,
}
use local_peer_connections.Api.{Api}
use local_peer_connections.Api.Total.{Keeps-command}
use local_peer_connections.Runner.{Runner}
use local_peer_connections.Runner.Found.{Keeps-wait_for_event}
use local_peer_connections.Links.{assert_links, watch}
use local_peer_connections.Links.Total.{
  Keeps-assert_links, Keeps-wait_for_links, Keeps-watch, Keeps-stability_window,
  Keeps-ensure_bidirectional_ready,
}
use local_peer_connections.Scenario.Total.{step_rules, has_length_ends}
use local_peer_connections.Scenario.Traffic.Total.{is_intact-IsTest}
use local_peer_connections.Scenario.Groups.{subscript}
use local_peer_connections.Scenario.Groups.Total.{
  subscript_ends, Keeps-create_group, Keeps-wait_group,
}
use local_peer_connections.Scenario.Load.{
  direct_traffic, read_traffic, item_zero, first_ready, single_ready, capture, scheduled, results,
  in_parallel, start_both, stop_both, check_fixed_rate, link_pair,
  scenario_bidirectional_fixed_rate, has_single_ready, check_single_ready,
  scenario_bidirectional_group, scenario_symmetric_connect,
}
use local_peer_connections.Scenario.Numbers.{
  value_get_ends, settle_ends, add_ends, multiply_ends, less_ends,
}

pub direct_traffic_ends : (d : Fields) → ResultEnds (direct_traffic d)
unfolding direct_traffic
direct_traffic_ends d = value_get_ends _ _ _

pub read_traffic_ends : (v : Value) → ResultEnds (read_traffic v)
unfolding read_traffic
read_traffic_ends (dict d) = tt
read_traffic_ends null = tt
read_traffic_ends _ = tt

item_zero_ends : (v : Value) → ResultEnds (item_zero v)
unfolding item_zero
item_zero_ends (list nil) = tt
item_zero_ends (list (cons v vs)) = tt
item_zero_ends (dict d) = tt
item_zero_ends (str s) = ground arith
item_zero_ends null = tt
item_zero_ends (boolean b) = tt
item_zero_ends (int n) = tt
item_zero_ends (float m k) = tt

pub first_ready_ends : (v : Value) → ResultEnds (first_ready v)
unfolding first_ready
first_ready_ends v =
    and_then-ResultEnds _ _ (item_zero_ends v)
      (λ c. and_then-ResultEnds _ _ (value_get_ends _ _ c) (λ state. tt))

pub single_ready_ends : (v : Value) → ResultEnds (single_ready v)
unfolding single_ready
single_ready_ends v =
    and_then-ResultEnds _ _ (has_length_ends 1 v)
      (λ single. if-ResultEnds single _ _ (first_ready_ends v) tt)

pub single_field_ends :
    (d : Fields) → ResultEnds (and_then (subscript "connections" (dict d)) first_ready)
single_field_ends d = and_then-ResultEnds _ _ (subscript_ends _ (dict d)) first_ready_ends

module _ (E : Env) (laws : IsEnv E) where
  Keeps-capture-bind :
      {A B : Type 0} (m : Exec (State E) A) (f : Result A → Exec (State E) B)
      → Keeps (total E laws) m
      → ((r : Result A) → Allowed (total E laws) r → Keeps (total E laws) (f r))
      → Keeps (total E laws) (capture E m >>= f)
  unfolding capture ◌>>=◌
  Keeps-capture-bind m f k h = record {
    related = λ s.
        Forward-trans E laws s (m s).1 _ (k.related s) ((h (m s).0 (k.allowed s)).related (m s).1);
    allowed = λ s. (h (m s).0 (k.allowed s)).allowed (m s).1;
  }

  Keeps-scheduled : Keeps (total E laws) (scheduled E)
  unfolding scheduled
  Keeps-scheduled = record {
    related =
        λ s. record { clock = laws.second_first_le s.world; cursors = λ i. ≤ℤ_refl (s.cursor i) };
    allowed = λ s. tt;
  }

  Keeps-results :
      {A B : Type 0} (r : Result A) (q : Result B)
      → Allowed (total E laws) r
      → Allowed (total E laws) q
      → Keeps (total E laws) (results E r q)
  unfolding results
  Keeps-results r q h k =
      Keeps-bind _ _ (Keeps-lift r h)
        (λ a. Keeps-bind _ _ (Keeps-lift q k) (λ b. Keeps-pure (a, b)))

  pub Keeps-in_parallel :
      {A B : Type 0} (m : Exec (State E) A) (n : Exec (State E) B)
      → Keeps (total E laws) m
      → Keeps (total E laws) n
      → Keeps (total E laws) (in_parallel E m n)
  unfolding in_parallel
  Keeps-in_parallel m n h k = Keeps-bind _ _ Keeps-scheduled (λ second_first.
      Keeps-if second_first _ _
        (λ _.
          Keeps-capture-bind n _ k
            (λ q kq. Keeps-capture-bind m _ h (λ r hr. Keeps-results r q hr kq)))
        (λ _.
          Keeps-capture-bind m _ h
            (λ r hr. Keeps-capture-bind n _ k (λ q kq. Keeps-results r q hr kq))))

  pub ruleset load_rules = (
    step_rules, has_length_ends, settle_ends, add_ends, multiply_ends, less_ends,
    direct_traffic_ends, read_traffic_ends, first_ready_ends, single_ready_ends, single_field_ends,
    Keeps-in_parallel, Keeps-assert_links, Keeps-wait_for_links, Keeps-stability_window,
    Keeps-ensure_bidirectional_ready, Keeps-create_group, Keeps-wait_group, Keeps-wait_for_event,
    is_intact-IsTest,
  )

  pub Keeps-start_both :
      (first second : Api) (mine yours : Fields)
      → Keeps (total E laws) (start_both E first second mine yours)
  unfolding start_both
  Keeps-start_both first second mine yours =
      Keeps-in_parallel _ _ (Keeps-command E laws _ _ _ _) (Keeps-command E laws _ _ _ _)

  pub Keeps-stop_both :
      (first second : Api) (timeout : Option ℕ)
      → Keeps (total E laws) (stop_both E first second timeout)
  unfolding stop_both
  Keeps-stop_both first second timeout =
      Keeps-in_parallel _ _ (Keeps-command E laws _ _ _ _) (Keeps-command E laws _ _ _ _)

  Keeps-check_fixed_rate :
      (api : Api) (d : Fields) → Keeps (total E laws) (check_fixed_rate E api d)
  unfolding check_fixed_rate
  Keeps-check_fixed_rate api d = search load_rules depth 14

  pub Keeps-link_pair :
      (runner : Runner) (scenario : String) → Keeps (total E laws) (link_pair E runner scenario)
  unfolding link_pair
  Keeps-link_pair runner scenario = search load_rules depth 16

  pub Keeps-load_watch :
      (runner : Runner) (longest duration : ℕ) (scenario : String) (phase : Message)
      → min_pause ≤ longest
      → Keeps (total E laws) (watch E longest duration (assert_links E runner scenario phase))
  Keeps-load_watch runner longest duration scenario phase h =
      Keeps-watch E laws longest duration _ h (Keeps-assert_links E laws runner scenario phase)

  pub Keeps-scenario_bidirectional_fixed_rate :
      (runner : Runner) → Keeps (total E laws) (scenario_bidirectional_fixed_rate E runner)
  unfolding scenario_bidirectional_fixed_rate
  Keeps-scenario_bidirectional_fixed_rate runner =
      let h : min_pause ≤ 500 = omega arith in
      search
        (
          load_rules, Keeps-link_pair, Keeps-start_both, Keeps-stop_both, Keeps-check_fixed_rate,
          Keeps-load_watch,
        )
        depth 16

  Keeps-has_single_ready : (api : Api) → Keeps (total E laws) (has_single_ready E api)
  unfolding has_single_ready
  Keeps-has_single_ready api = search load_rules depth 12

  Keeps-check_single_ready : (api : Api) → Keeps (total E laws) (check_single_ready E api)
  unfolding check_single_ready
  Keeps-check_single_ready api = search load_rules depth 12

  pub Keeps-scenario_bidirectional_group :
      (runner : Runner) → Keeps (total E laws) (scenario_bidirectional_group E runner)
  unfolding scenario_bidirectional_group
  Keeps-scenario_bidirectional_group runner =
      search (load_rules, Keeps-has_single_ready, Keeps-check_single_ready) depth 22

  pub Keeps-scenario_symmetric_connect :
      (dial_both : Runner → Api → Api → Exec (State E) (Unit {0})) (runner : Runner)
      → ((first second : Api) → Keeps (total E laws) (dial_both runner first second))
      → Keeps (total E laws) (scenario_symmetric_connect E dial_both runner)
  unfolding scenario_symmetric_connect
  Keeps-scenario_symmetric_connect dial_both runner k = search (load_rules, k) depth 14
