-- ===== src/Links/Total.antt =====
-- The checks on links and the stability window end, whatever the devices answer.
use local_peer_connections.Prelude.{
  ℕ, ◌*◌, ◌≤◌, String, false, Option, none, some, List, [], ◌∷◌, arith,
}
use local_peer_connections.Python.Value.{
  Value, Fields, null, boolean, int, float, str, list, dict, get,
}
use local_peer_connections.Exec.{Message, Error, Exec}
use local_peer_connections.Exec.Contract.{Keeps, Keeps-bind, Keeps-pure, Keeps-lift}
use local_peer_connections.World.{Env, IsEnv, State}
use local_peer_connections.Loop.{min_pause, pause_before}
use local_peer_connections.Loop.Forward.{
  total, ResultEnds, and_then-ResultEnds, ok_or-ResultEnds, if-ResultEnds, Keeps-monotonic,
}
use local_peer_connections.Loop.Total.{Paced, Paced-more, Paced-bind, Keeps-loop_for}
use local_peer_connections.Api.{Api}
use local_peer_connections.Api.Total.{api_rules}
use local_peer_connections.Runner.{Runner}
use local_peer_connections.Runner.Total.{Keeps-wait_until, Keeps-drain_events}
use local_peer_connections.Connect.Total.{Keeps-connect, is_ready_with_ends}
use local_peer_connections.Peers.Total.{walk_ends}
use local_peer_connections.Links.{
  in_set, is_unstable, relevant, is_ready, links_ready, relevant_ready, selected_peers,
  check_stable, check_links, assert_links, sees_all, all_linked, wait_for_links, watch_round, watch,
  stability_window, pair_ready, dial_back, ensure_bidirectional_ready,
}

pub in_set_ends : (texts : List String) (v : Value) → ResultEnds (in_set texts v)
unfolding in_set
in_set_ends texts (list vs) = tt
in_set_ends texts (dict d) = tt
in_set_ends texts null = tt
in_set_ends texts (boolean b) = tt
in_set_ends texts (int n) = tt
in_set_ends texts (float m k) = tt
in_set_ends texts (str s) = tt

is_unstable_ends :
    (expected : List String) (event : Fields) → ResultEnds (is_unstable expected event)
unfolding is_unstable
is_unstable_ends expected event =
    and_then-ResultEnds _ _ (in_set_ends _ (get "type" event)) (λ held. tt)

relevant_ends : (expected : List String) (vs : List Value) → ResultEnds (relevant expected vs)
unfolding relevant
relevant_ends expected [] = tt
relevant_ends expected (dict c ∷ rest) =
    and_then-ResultEnds _ _ (in_set_ends expected (get "peerId" c))
      (λ held. and_then-ResultEnds _ _ (relevant_ends expected rest) (λ found. tt))
relevant_ends expected (null ∷ rest) = tt
relevant_ends expected (_ ∷ rest) = tt

links_ready_ends : (expected : List String) (v : Value) → ResultEnds (links_ready expected v)
unfolding links_ready
links_ready_ends expected v =
    and_then-ResultEnds _ _ (walk_ends v)
      (λ vs. and_then-ResultEnds _ _ (relevant_ends expected vs) (λ found. tt))

relevant_ready_ends :
    (expected : List String) (vs : List Value) → ResultEnds (relevant_ready expected vs)
unfolding relevant_ready
relevant_ready_ends expected [] = tt
relevant_ready_ends expected (dict c ∷ rest) =
    and_then-ResultEnds _ _ (in_set_ends expected (get "peerId" c)) (λ held.
      if-ResultEnds held _ _ (if-ResultEnds (is_ready c) _ _ (relevant_ready_ends expected rest) tt)
        (relevant_ready_ends expected rest))
relevant_ready_ends expected (null ∷ rest) = tt
relevant_ready_ends expected (_ ∷ rest) = tt

module _ (E : Env) (laws : IsEnv E) where
  ruleset link_rules = (
    api_rules, Keeps-lift, walk_ends, ok_or-ResultEnds, and_then-ResultEnds, is_unstable_ends,
    relevant_ends, links_ready_ends, relevant_ready_ends, is_ready_with_ends, Keeps-wait_until,
    Keeps-drain_events, Keeps-connect,
  )

  Keeps-selected_peers : (runner : Runner) → Keeps (total E laws) (selected_peers E runner)
  unfolding selected_peers
  Keeps-selected_peers runner = search link_rules depth 12

  Keeps-check_stable :
      (m : Message) (expected : List String) (event : Fields)
      → Keeps (total E laws) (check_stable E m expected event)
  unfolding check_stable
  Keeps-check_stable m expected event = search link_rules depth 12

  Keeps-check_links :
      (scenario : String) (phase : Message) (peers : List (String × String)) (api : Api)
      → Keeps (total E laws) (check_links E scenario phase peers api)
  unfolding check_links
  Keeps-check_links scenario phase peers api = search (link_rules, Keeps-check_stable) depth 14

  pub Keeps-assert_links :
      (runner : Runner) (scenario : String) (phase : Message)
      → Keeps (total E laws) (assert_links E runner scenario phase)
  unfolding assert_links
  Keeps-assert_links runner scenario phase =
      search (link_rules, Keeps-selected_peers, Keeps-check_links) depth 12

  Keeps-sees_all :
      (peers : List (String × String)) (api : Api) → Keeps (total E laws) (sees_all E peers api)
  unfolding sees_all
  Keeps-sees_all peers api = search link_rules depth 14

  Keeps-all_linked : (runner : Runner) → Keeps (total E laws) (all_linked E runner)
  unfolding all_linked
  Keeps-all_linked runner = search (link_rules, Keeps-selected_peers, Keeps-sees_all) depth 12

  pub Keeps-wait_for_links :
      (runner : Runner) (scenario : String)
      → Keeps (total E laws) (wait_for_links E runner scenario)
  unfolding wait_for_links
  Keeps-wait_for_links runner scenario = search (link_rules, Keeps-all_linked) depth 12

  Paced-watch_round :
      (longest : ℕ) (check : Exec (State E) (Unit {0})) (deadline : ℕ) (l : Unit {0})
      → min_pause ≤ longest
      → Keeps (total E laws) check
      → Paced E laws (watch_round E longest check deadline l)
  unfolding watch_round
  Paced-watch_round longest check deadline l h k = Paced-bind E laws _ _ k (λ _.
      Paced-bind E laws _ _ (Keeps-monotonic E laws)
        (λ now. Paced-more E laws (pause_before longest deadline now) tt (ground arith)))

  pub Keeps-watch :
      (longest duration : ℕ) (check : Exec (State E) (Unit {0}))
      → min_pause ≤ longest
      → Keeps (total E laws) check
      → Keeps (total E laws) (watch E longest duration check)
  unfolding watch
  Keeps-watch longest duration check h k =
      Keeps-bind _ _
        (Keeps-loop_for E laws duration _ tt
          (λ deadline l. Paced-watch_round longest check deadline l h k))
        (λ _. Keeps-pure tt)

  pub Keeps-stability_window :
      (runner : Runner) (scenario : String) (seconds : ℕ)
      → Keeps (total E laws) (stability_window E runner scenario seconds)
  unfolding stability_window
  Keeps-stability_window runner scenario seconds =
      Keeps-watch 500 (seconds * 1000) _ (omega arith) (Keeps-assert_links runner scenario _)

  Keeps-pair_ready :
      (first second : Api) (p q : Option String)
      → Keeps (total E laws) (pair_ready E first second p q)
  unfolding pair_ready
  Keeps-pair_ready first second none q = Keeps-pure false
  Keeps-pair_ready first second (some p) none = Keeps-pure false
  Keeps-pair_ready first second (some p) (some q) = search link_rules depth 12

  Keeps-dial_back :
      (runner : Runner) (scenario : String) (first second : Api) (auto error : Error)
      → Keeps (total E laws) (dial_back E runner scenario first second auto error)
  Keeps-dial_back runner scenario first second auto error = search link_rules depth 12

  pub Keeps-ensure_bidirectional_ready :
      (runner : Runner) (scenario : String) (first second : Api)
      → Keeps (total E laws) (ensure_bidirectional_ready E runner scenario first second)
  unfolding ensure_bidirectional_ready
  Keeps-ensure_bidirectional_ready runner scenario first second =
      search (link_rules, Keeps-pair_ready, Keeps-dial_back) depth 16
