-- ===== src/Scenario/Load/Delivered.antt =====
-- What IT-041 has seen when it passes.
use local_peer_connections.Prelude.{◌∷◌, []}
use local_peer_connections.Python.Value.{end}
use local_peer_connections.Exec.{shown}
use local_peer_connections.Scenario.Load.{traffic_arguments}
use local_peer_connections.Links.{assert_links}
use local_peer_connections.Prelude.{String, ◌≡◌, ap, ◌∙◌, Bool, true, false, ◌&&◌, none, arith}
use local_peer_connections.Prelude.Int.{pos}
use local_peer_connections.Python.Value.{Value, Fields, int, get, is_false, is_number, same_value}
use local_peer_connections.Python.Number.{less}
use local_peer_connections.Exec.{ok, lift, raise_if, raise_unless}
use local_peer_connections.Exec.Inversion.{bind-ok, lift-ok, raise_if-ok}
use local_peer_connections.Exec.Each.{raise_unless-ok}
use local_peer_connections.World.{Env, State}
use local_peer_connections.Api.{Api}
use local_peer_connections.Runner.{Runner}
use local_peer_connections.Links.{watch, stability_window}
use local_peer_connections.Scenario.Load.{
  direct_traffic, Traffic, read_traffic, start_both, stop_both, check_fixed_rate, link_pair,
  scenario_bidirectional_fixed_rate,
}

module _ (E : Env) where
  -- The counters of one direction: stopped, with the rate and the size of the scenario, at least
  -- 295 messages sent, as many acknowledged, and none timed out.
  pub record Delivered (d : Fields) : Type 0 where
    pub test : Value
    pub counters : Traffic
    pub found : direct_traffic d ≡ ok test
    pub read : read_traffic test ≡ ok counters
    pub stopped : is_false (get "running" counters.fields) ≡ true
    pub size : is_number 64 (get "messageSize" counters.fields) ≡ true
    pub rate : is_number 5 (get "messagesPerSecond" counters.fields) ≡ true
    pub enough : less E.arithmetic counters.sent (int (pos 295)) ≡ ok false
    pub acknowledged : same_value counters.acked counters.sent ≡ true
    pub none_lost : is_number 0 counters.timed_out ≡ true

  both-true : (a b : Bool) → a && b ≡ true → (a ≡ true) × (b ≡ true)
  both-true a b h = (ground arith, ground arith)

  check_fixed_rate-Delivered :
      (api : Api) (d : Fields) (x : Unit {0}) (s t : State E)
      → check_fixed_rate E api d s ≡ (ok x, t)
      → Delivered d
  unfolding check_fixed_rate
  check_fixed_rate-Delivered api d x s t h =
      let (test, u1, found, h1) = bind-ok (lift (direct_traffic d)) _ s x t h in
      let (counters, u2, read, h2) = bind-ok (lift (read_traffic test)) _ u1 x t h1 in
      let (x3, u3, stopped, h3) = bind-ok (raise_unless _ _) _ u2 x t h2 in
      let (x4, u4, configured, h4) = bind-ok (raise_unless _ _) _ u3 x t h3 in
      let (short, u5, compared, h5) = bind-ok (lift (less _ _ _)) _ u4 x t h4 in
      let (x6, u6, enough, h6) = bind-ok (raise_if short _) _ u5 x t h5 in
      let (size, rate) = both-true _ _ (raise_unless-ok _ _ x4 u3 u4 configured).0 in
      let (acknowledged, none_lost) = both-true _ _ (raise_unless-ok _ _ x u6 t h6).0 in
      record {
        test = test;
        counters = counters;
        found = (lift-ok _ test s u1 found).0;
        read = (lift-ok _ counters u1 u2 read).0;
        stopped = (raise_unless-ok _ _ x3 u2 u3 stopped).0;
        size = size;
        rate = rate;
        enough = (lift-ok _ short u4 u5 compared).0 ∙ ap ok (raise_if-ok short _ x6 u5 u6 enough).0;
        acknowledged = acknowledged;
        none_lost = none_lost;
      }

  -- What a run that passes has done from `s` to `t`: its steps in order, the last one the stability
  -- window.
  pub record Passed (runner : Runner) (s t : State E) : Type 0 where
    pub first : Api × String
    pub second : Api × String
    pub after_link : State E
    pub linked : link_pair E runner "IT-041" s ≡ (ok (first, second), after_link)
    pub started : Fields × Fields
    pub after_start : State E
    pub start :
        start_both E first.0 second.0
          (traffic_arguments first.1 64 5 end)
          (traffic_arguments second.1 64 5 end)
          after_link
        ≡ (ok started, after_start)
    pub after_watch : State E
    pub watched :
        watch E 500 60000 (assert_links E runner "IT-041" (shown (int (pos 0)) ∷ [])) after_start
        ≡ (ok tt, after_watch)
    pub mine : Fields
    pub yours : Fields
    pub after_stop : State E
    pub ended : stop_both E first.0 second.0 none after_watch ≡ (ok (mine, yours), after_stop)
    pub sent_there : Delivered mine
    pub sent_back : Delivered yours
    pub before_window : State E
    pub stable : stability_window E runner "IT-041" 30 before_window ≡ (ok tt, t)

  -- If the fixed-rate scenario passes, it has linked its two devices, started both, watched their
  -- links and stopped both; each has then reported a stopped test with the size and the rate of the
  -- scenario, at least 295 messages sent, as many acknowledged and none timed out; and its last step
  -- was the stability window of 30 seconds.
  pub scenario_bidirectional_fixed_rate-Passed :
      (runner : Runner) (x : Unit {0}) (s t : State E)
      → scenario_bidirectional_fixed_rate E runner s ≡ (ok x, t)
      → Passed runner s t
  unfolding scenario_bidirectional_fixed_rate
  scenario_bidirectional_fixed_rate-Passed runner x s t h =
      let (linked, u1, links, h1) = bind-ok (link_pair E runner "IT-041") _ s x t h in
      let (started, u2, start, h2) = bind-ok (start_both E _ _ _ _) _ u1 x t h1 in
      let (x3, u3, watched, h3) = bind-ok (watch E 500 60000 _) _ u2 x t h2 in
      let (snapshots, u4, stopped, h4) = bind-ok (stop_both E _ _ none) _ u3 x t h3 in
      let (x5, u5, there, h5) = bind-ok (check_fixed_rate E _ _) _ u4 x t h4 in
      let (x6, u6, back, h6) = bind-ok (check_fixed_rate E _ _) _ u5 x t h5 in
      record {
        first = linked.0;
        second = linked.1;
        after_link = u1;
        linked = links;
        started = started;
        after_start = u2;
        start = start;
        after_watch = u3;
        watched = watched;
        mine = snapshots.0;
        yours = snapshots.1;
        after_stop = u4;
        ended = stopped;
        sent_there = check_fixed_rate-Delivered _ _ x5 u4 u5 there;
        sent_back = check_fixed_rate-Delivered _ _ x6 u5 u6 back;
        before_window = u6;
        stable = h6;
      }
