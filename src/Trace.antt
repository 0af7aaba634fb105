-- ===== src/Trace.antt =====
-- An environment that keeps the requests that the tools have sent, the last one first.
pub mod Steps
pub mod Commands
use local_peer_connections.Prelude.{String, Bool, List, ◌∷◌}
use local_peer_connections.World.{Request, Env, State}

abbrev pub traced : Env → Env
traced E = record {
  World = E.World × List Request;
  urlopen = λ r t w. let (reply, v) = E.urlopen r t w.0 in (reply, (v, r ∷ w.1));
  monotonic = λ w. let (now, v) = E.monotonic w.0 in (now, (v, w.1));
  sleep = λ d w. (E.sleep d w.0, w.1);
  second_first = λ w. let (b, v) = E.second_first w.0 in (b, (v, w.1));
  lower = E.lower;
  upper = E.upper;
  is_alnum = E.is_alnum;
  repr = E.repr;
  arithmetic = E.arithmetic;
}

module _ (E : Env) where
  abbrev pub log : State (traced E) → List Request
  log s = s.world.1
