-- ===== src/Connect/Ready.antt =====
-- What the readiness test of a connection attempt has seen, and the comparison of the SAS values.
use local_peer_connections.Prelude.{
  String, ◌≡◌, refl, Bool, true, false, Option, none, some, List, [], ◌∷◌, str_eq, str_eq_iff, all,
  All, Any, arith, if◌then◌else◌,
}
use local_peer_connections.Python.Value.{
  Value, Fields, get, get_or, is_str, elements, list, dict, nil,
}
use local_peer_connections.Exec.{ok}
use local_peer_connections.Exec.Inversion.{and_then-ok, ok_or-ok}
use local_peer_connections.Runner.{walk}
use local_peer_connections.Connect.{
  values_agree, any_ready, is_ready_with, ready_together, local_peer,
}

-- A snapshot shows a ready connection to a peer.
abbrev pub IsReady : String → Value → Type 0
IsReady peer (dict c) =
    (is_str peer (get "peerId" c) ≡ true) × (is_str "ready" (get "state" c) ≡ true)
IsReady peer _ = ⊥

pub record ReadyWith (peer : String) (d : Fields) : Type 0 where
  pub connections : List Value
  pub listed : elements (get_or "connections" (list nil) d) ≡ some connections
  pub ready : Any (IsReady peer) connections

any_ready-IsReady :
    (peer : String) (vs : List Value) → any_ready peer vs ≡ ok true → Any (IsReady peer) vs
unfolding any_ready
any_ready-IsReady peer [] h = cc
any_ready-IsReady peer (dict c ∷ rest) h = ground (arith, any_ready-IsReady peer rest)
any_ready-IsReady peer (Value.null ∷ rest) h = cc
any_ready-IsReady peer (_ ∷ rest) h = cc

is_ready_with-ReadyWith :
    (peer : String) (d : Fields) → is_ready_with peer d ≡ ok true → ReadyWith peer d
unfolding is_ready_with
is_ready_with-ReadyWith peer d h =
    let (vs, walked, ready) =
      and_then-ok (walk (get_or "connections" (list nil) d)) (any_ready peer) true h in
    record {
      connections = vs;
      listed = ok_or-ok (elements (get_or "connections" (list nil) d)) _ vs walked;
      ready = any_ready-IsReady peer vs ready;
    }

-- Each of two snapshots names its own peer id, and shows a ready connection to the other's.
pub record ReadyPair (source target : Fields) : Type 0 where
  pub source_peer : String
  pub target_peer : String
  pub source_is : local_peer target ≡ some source_peer
  pub target_is : local_peer source ≡ some target_peer
  pub at_source : ReadyWith source_peer source
  pub at_target : ReadyWith target_peer target

pub ready_together-ReadyPair :
    (p q : Option String) (source target : Fields)
    → local_peer target ≡ p
    → local_peer source ≡ q
    → ready_together p q source target ≡ ok true
    → ReadyPair source target
unfolding ready_together
ready_together-ReadyPair none q source target e f h = cc
ready_together-ReadyPair (some p) none source target e f h = cc
ready_together-ReadyPair (some p) (some q) source target e f h =
    let (held, first, second) = and_then-ok (is_ready_with p source) _ true h in
    both held first second
  where
    both :
        (held : Bool)
        → is_ready_with p source ≡ ok held
        → (if held then is_ready_with q target else ok false) ≡ ok true
        → ReadyPair source target
    both true a b = record {
      source_peer = p;
      target_peer = q;
      source_is = e;
      target_is = f;
      at_source = is_ready_with-ReadyWith p source a;
      at_target = is_ready_with-ReadyWith q target b;
    }
    both false a b = cc

-- All the SAS values that the devices showed are one.
abbrev pub SameSas : List (String × String) → Type 0
SameSas known = (sas : String) × All (λ (x : String × String). x.1 ≡ sas) known

all-All :
    (s : String) (known : List (String × String))
    → all (λ (x : String × String). str_eq x.1 s) known ≡ true
    → All (λ (x : String × String). x.1 ≡ s) known
all-All s [] h = tt
all-All s ((d, t) ∷ known) h = ground (arith, str_eq_iff t s, all-All s known)

pub values_agree-SameSas :
    (known : List (String × String)) → values_agree known ≡ true → SameSas known
values_agree-SameSas [] h = cc
values_agree-SameSas ((d, s) ∷ known) h = (s, (refl, all-All s known h))
