-- ===== src/Scenario/Numbers.antt =====
-- The arithmetic on reported numbers ends: it gives a value or raises.
use local_peer_connections.Prelude.{arith, ◌⊎◌, inl, inr}
use local_peer_connections.Python.Value.{Value, null, boolean, int, float, str, list, dict}
use local_peer_connections.Python.Number.{settle, add, multiply, less, greatest, int_of}
use local_peer_connections.Prelude.{String}
use local_peer_connections.Exec.{Builtin}
use local_peer_connections.World.{Arithmetic}
use local_peer_connections.Loop.Forward.{ResultEnds}
use local_peer_connections.Api.{value_get}

pub value_get_ends : (key : String) (default v : Value) → ResultEnds (value_get key default v)
unfolding value_get
value_get_ends key default (dict d) = tt
value_get_ends key default null = tt
value_get_ends key default _ = tt

pub settle_ends : {A : Type 0} (r : Builtin ⊎ A) → ResultEnds (settle r)
settle_ends (inl e) = tt
settle_ends (inr a) = tt

pub add_ends : (A : Arithmetic) (v w : Value) → ResultEnds (add A v w)
unfolding add
add_ends A v w = ground (arith, settle_ends (A.add v w))

pub multiply_ends : (A : Arithmetic) (v w : Value) → ResultEnds (multiply A v w)
unfolding multiply
multiply_ends A v w = ground (arith, settle_ends (A.multiply v w))

pub less_ends : (A : Arithmetic) (v w : Value) → ResultEnds (less A v w)
unfolding less
less_ends A v w = ground (arith, settle_ends (A.less v w))

pub greatest_ends : (A : Arithmetic) (v w : Value) → ResultEnds (greatest A v w)
unfolding greatest
greatest_ends A v w = ground (arith, less_ends A v w)

pub int_of_ends : (v : Value) → ResultEnds (int_of v)
unfolding int_of
int_of_ends (int n) = tt
int_of_ends (boolean b) = tt
int_of_ends (float m k) = tt
int_of_ends (str s) = ground arith
int_of_ends null = tt
int_of_ends (list vs) = tt
int_of_ends (dict d) = tt
