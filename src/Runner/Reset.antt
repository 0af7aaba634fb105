-- ===== src/Runner/Reset.antt =====
-- What `reset_all` and its preflight have seen when they return.
use local_peer_connections.Prelude.{
  ◌≡◌, refl, ◌∙◌, ap, Bool, true, false, not, ◌&&◌, none, List, [], ◌∷◌, if◌then◌else◌, arith,
}
use local_peer_connections.Python.Value.{Value, Fields, dict, end, get, is_str, is_true, is_none}
use local_peer_connections.Exec.{text, ok, pure, lift, ◌>>◌, raise_if, for_each, all_of}
use local_peer_connections.Exec.Inversion.{bind-ok, pure-ok, lift-ok, raise_if-ok, raise-ne-ok}
use local_peer_connections.Exec.Each.{Chain, Chain-map, for_each-ok, all_of-true}
use local_peer_connections.Exec.Contract.{Keeps}
use local_peer_connections.World.{Env, IsEnv, State}
use local_peer_connections.Api.{Api, value_get, request, snapshot, events, command}
use local_peer_connections.Api.Total.{api_rules}
use local_peer_connections.Loop.Forward.{total}
use local_peer_connections.Runner.{
  Runner, wait_until, presence_started, report_presence, check_health, preflight, reset_all,
}
use local_peer_connections.Runner.Total.{Keeps-presence_started}
use local_peer_connections.Runner.Waited.{wait_until-Returned}

true_if_not_denied : (b : Bool) → not b ≡ false → b ≡ true
true_if_not_denied b h = ground arith

all_three : (a b c : Bool) → (not a && (not b && c)) ≡ true → (a ≡ false) × (b ≡ false) × (c ≡ true)
all_three false false true h = (refl, refl, refl)
all_three false false false h = cc
all_three false true c h = cc
all_three true b c h = cc

module _ (E : Env) where
  -- The device took the reset.
  abbrev pub WasReset : Api → State E → State E → Type 0
  WasReset api s t = (answer : Fields) × (command E api "resetRuntime" end none s ≡ (ok answer, t))

  -- The health of the device shows a ready runtime, and capabilities.
  pub record IsHealthy (api : Api) (s t : State E) : Type 0 where
    pub health : Value
    pub shown : Value
    pub state : Value
    pub capabilities : Value
    pub asked : request E api "GET" "/health" none none s ≡ (ok health, t)
    pub reported : value_get "snapshot" (dict end) health ≡ ok shown
    pub in_state : value_get "runtimeState" Value.null shown ≡ ok state
    pub is_ready : is_str "ready" state ≡ true
    pub capable : value_get "capabilities" Value.null shown ≡ ok capabilities
    pub has_capabilities : is_none capabilities ≡ false

  -- A snapshot of the device shows capabilities, endpoints and active presence.
  pub record IsPresent (api : Api) (s t : State E) : Type 0 where
    pub d : Fields
    pub after_shot : State E
    pub shot : snapshot E api s ≡ (ok d, after_shot)
    pub has_capabilities : is_none (get "capabilities" d) ≡ false
    pub has_endpoints : is_none (get "endpoints" d) ≡ false
    pub active : is_true (get "presenceActive" d) ≡ true
    pub polled : List Fields
    pub drained : events E api after_shot ≡ (ok polled, t)

  check_health-IsHealthy :
      (api : Api) (s t : State E) → check_health E api s ≡ (ok tt, t) → IsHealthy api s t
  unfolding check_health report_presence
  check_health-IsHealthy api s t h =
      let (health, u, asked, h1) = bind-ok (request E api "GET" "/health" none none) _ s tt t h in
      let (shown, u1, found, h2) = bind-ok (lift _) _ u tt t h1 in
      let (state, u2, in_state, h3) = bind-ok (lift _) _ u1 tt t h2 in
      let (x, u3, ready, h4) = bind-ok (raise_if _ _) _ u2 tt t h3 in
      let (capabilities, u4, capable, h5) = bind-ok (lift _) _ u3 tt t h4 in
      let (reported, e1) = lift-ok _ shown u u1 found in
      let (is_state, e2) = lift-ok _ state u1 u2 in_state in
      let (is_ready, e3) = raise_if-ok _ _ x u2 u3 ready in
      let (is_capable, e4) = lift-ok _ capabilities u3 u4 capable in
      let (some_capabilities, e5) = present (is_none capabilities) u4 h5 in
      record {
        health = health;
        shown = shown;
        state = state;
        capabilities = capabilities;
        asked = asked ∙ ap (λ v. (ok health, v)) (e1 ∙ e2 ∙ e3 ∙ e4 ∙ e5);
        reported = reported;
        in_state = is_state;
        is_ready = true_if_not_denied (is_str "ready" state) is_ready;
        capable = is_capable;
        has_capabilities = some_capabilities;
      }
    where
      present :
          (b : Bool) (u : State E)
          → (if b then report_presence E api else pure tt) u ≡ (ok tt, t)
          → (b ≡ false) × (u ≡ t)
      present false u k = (refl, (pure-ok tt tt u t k).1)
      present true u k =
          let (diagnostics, v, polled, k1) = bind-ok (events E api) _ u tt t k in
          absurd (raise-ne-ok _ tt v t k1)

  presence_started-IsPresent :
      (api : Api) (s t : State E) → presence_started E api s ≡ (ok true, t) → IsPresent api s t
  unfolding presence_started
  presence_started-IsPresent api s t h =
      let (d, u, shot, h1) = bind-ok (snapshot E api) _ s true t h in
      let (polled, v, drained, h2) = bind-ok (events E api) _ u true t h1 in
      let (held, e) = pure-ok _ true v t h2 in
      let (capable, listed, active) = all_three _ _ (is_true (get "presenceActive" d)) held in
      record {
        d = d;
        after_shot = u;
        shot = shot;
        has_capabilities = capable;
        has_endpoints = listed;
        active = active;
        polled = polled;
        drained = drained ∙ ap (λ w. (ok polled, w)) e;
      }

  reset-WasReset :
      (api : Api) (s t : State E)
      → (do command E api "resetRuntime" end none; pure tt) s ≡ (ok tt, t)
      → WasReset api s t
  reset-WasReset api s t h =
      let (answer, u, sent, h1) = bind-ok (command E api "resetRuntime" end none) _ s tt t h in
      (answer, sent ∙ ap (λ v. (ok answer, v)) (pure-ok tt tt u t h1).1)

  -- In a lawful environment, if `reset_all` returns, then each device in turn has taken the command
  -- `resetRuntime`; after that the health of each in turn showed a ready runtime with capabilities;
  -- the wait for presence was made from there; and the last requests were, for each in turn, a snapshot that showed capabilities, endpoints and
  -- active presence, and a poll.
  pub reset_all-Reset :
      IsEnv E
      → (runner : Runner) (x : Unit {0}) (s t : State E) → reset_all E runner s ≡ (ok x, t)
      → (u v w : State E) × Chain WasReset runner.apis s u
        × Chain IsHealthy runner.apis u v
        × (wait_until E
              (all_of (presence_started E) runner.apis)
              (text "presence on every device" ∷ [])
              runner.timeout
              v
            ≡ (ok tt, t))
        × Chain IsPresent runner.apis w t
  unfolding reset_all preflight
  reset_all-Reset laws runner x s t h =
      let (a, u, sent, h1) = bind-ok (for_each _ runner.apis) _ s x t h in
      let (b, v, healthy, h2) = bind-ok (for_each (check_health E) runner.apis) _ u x t h1 in
      let keeps : Keeps (total E laws) (all_of (presence_started E) runner.apis) =
        search (api_rules, Keeps-presence_started) depth 12 in
      let (w, present) = wait_until-Returned E laws _ keeps _ runner.timeout x v t h2 in
      (
        u,
        v,
        w,
        Chain-map reset-WasReset runner.apis s u (for_each-ok _ runner.apis a s u sent),
        Chain-map check_health-IsHealthy runner.apis u v
            (for_each-ok (check_health E) runner.apis b u v healthy),
        h2,
        Chain-map presence_started-IsPresent runner.apis w t
            (all_of-true (presence_started E) runner.apis w t present),
      )
