-- ===== src/Api/Total.antt =====
-- The requests of a `DeviceApi` end, move forward, and touch no other cursor.
use local_peer_connections.Prelude.{ℕ, String, ◌≡◌, Bool-cases, Option, List, arith, ◌==◌, inl, inr}
use local_peer_connections.Prelude.Int.{◌≤ℤ◌, ≤ℤ_refl}
use local_peer_connections.Python.Value.{Value, Fields}
use local_peer_connections.Exec.{lift}
use local_peer_connections.Exec.Contract.{
  Keeps, keeps_rules, Keeps-pure, Keeps-raise, Keeps-bind, Keeps-or_raise, Keeps-lift,
}
use local_peer_connections.World.{Request, Reply, response, unavailable, garbled, Env, IsEnv, State}
use local_peer_connections.Loop.Forward.{total}
use local_peer_connections.Api.{
  Api, urlopen, read_reply, request, snapshot, get_cursor, consume, events, command, value_get,
  set_cursor, advance_all,
}
use local_peer_connections.Api.Cursor.{le-advance_all}

module _ (E : Env) (laws : IsEnv E) where
  Keeps-urlopen : (r : Request) (t : ℕ) → Keeps (total E laws) (urlopen E r t)
  unfolding urlopen
  Keeps-urlopen r t = record {
    related =
        λ s. record { clock = laws.urlopen_le r t s.world; cursors = λ i. ≤ℤ_refl (s.cursor i) };
    allowed = λ s. tt;
  }

  Keeps-read_reply : (api : Api) (r : Reply) → Keeps (total E laws) (read_reply E api r)
  unfolding read_reply
  Keeps-read_reply api (response v) = Keeps-pure v
  Keeps-read_reply api (unavailable fault e) = Keeps-raise _ tt
  Keeps-read_reply api garbled = Keeps-raise _ tt

  pub Keeps-request :
      (api : Api) (method path : String) (body : Option Value) (timeout : Option ℕ)
      → Keeps (total E laws) (request E api method path body timeout)
  unfolding request
  Keeps-request api method path body timeout = search (keeps_rules, Keeps-urlopen, Keeps-read_reply)

  pub Keeps-snapshot : (api : Api) → Keeps (total E laws) (snapshot E api)
  unfolding snapshot
  Keeps-snapshot api = search (keeps_rules, Keeps-request)

  set_cursor-le :
      (i : ℕ) (vs : List Value) (s : State E) (j : ℕ)
      → s.cursor j ≤ℤ set_cursor i (advance_all (s.cursor i) vs) s.cursor j
  unfolding set_cursor
  set_cursor-le i vs s j = elim (Bool-cases (j == i)) [
    | inl same ↦ let e : j ≡ i = ground arith in rw same (rw e (le-advance_all (s.cursor i) vs))
    | inr other ↦ rw other (≤ℤ_refl (s.cursor j))
  ]

  Keeps-consume : (api : Api) (vs : List Value) → Keeps (total E laws) (consume E api vs)
  unfolding consume
  Keeps-consume api vs = record {
    related = λ s. record { clock = omega arith; cursors = set_cursor-le api.index vs s };
    allowed = λ s. tt;
  }

  Keeps-get_cursor : (api : Api) → Keeps (total E laws) (get_cursor E api)
  unfolding get_cursor
  Keeps-get_cursor api = record {
    related = λ s. record { clock = omega arith; cursors = λ i. ≤ℤ_refl (s.cursor i) };
    allowed = λ s. tt;
  }

  pub Keeps-value_get :
      (key : String) (default v : Value) → Keeps (total E laws) (lift (value_get key default v))
  unfolding value_get
  Keeps-value_get key default (Value.dict d) = Keeps-lift _ tt
  Keeps-value_get key default _ = Keeps-lift _ tt

  pub Keeps-events : (api : Api) → Keeps (total E laws) (events E api)
  unfolding events
  Keeps-events api =
      search (keeps_rules, Keeps-request, Keeps-get_cursor, Keeps-consume, Keeps-value_get) depth 12

  pub Keeps-command :
      (api : Api) (action : String) (arguments : Fields) (timeout : Option ℕ)
      → Keeps (total E laws) (command E api action arguments timeout)
  unfolding command
  Keeps-command api action arguments timeout = search (keeps_rules, Keeps-request)

pub ruleset api_rules =
    (keeps_rules, Keeps-request, Keeps-snapshot, Keeps-events, Keeps-command, Keeps-value_get)
