-- ===== src/Loop/Forward.antt =====
-- What every step of the tools keeps: it ends, and neither the clock nor a cursor goes back.
use local_peer_connections.Prelude.{
  ℕ, ◌≤◌, Bool, true, false, Option, none, some, arith, if◌then◌else◌,
}
use local_peer_connections.Prelude.Int.{◌≤ℤ◌, ≤ℤ_refl, ≤ℤ_trans}
use local_peer_connections.Exec.{
  Error, failure, blocked, builtin, diverged, Result, ok, err, and_then, ok_or,
}
use local_peer_connections.Exec.Contract.{Contract, Keeps}
use local_peer_connections.World.{Env, IsEnv, State}
use local_peer_connections.Loop.{monotonic, sleep}

-- Any end but a loop of the model that ran out of rounds.
abbrev pub Ends : Error → Type 0
Ends diverged = ⊥
Ends (failure m) = Unit
Ends (blocked m) = Unit
Ends (builtin b) = Unit

abbrev pub ResultEnds : {A : Type 0} → Result A → Type 0
ResultEnds (ok a) = Unit
ResultEnds (err e) = Ends e

pub and_then-ResultEnds :
    {A B : Type 0} (r : Result A) (f : A → Result B)
    → ResultEnds r
    → ((a : A) → ResultEnds (f a))
    → ResultEnds (and_then r f)
unfolding and_then
and_then-ResultEnds (ok a) f h k = k a
and_then-ResultEnds (err e) f h k = h

pub ok_or-ResultEnds : {A : Type 0} (o : Option A) (e : Error) → Ends e → ResultEnds (ok_or o e)
unfolding ok_or
ok_or-ResultEnds (some a) e h = tt
ok_or-ResultEnds none e h = h

pub if-ResultEnds :
    {A : Type 0} (b : Bool) (r q : Result A)
    → ResultEnds r
    → ResultEnds q
    → ResultEnds (if b then r else q)
if-ResultEnds true r q h k = h
if-ResultEnds false r q h k = k

module _ (E : Env) (laws : IsEnv E) where
  abbrev pub elapsed : State E → ℕ
  elapsed s = laws.elapsed s.world

  -- Neither the clock nor a cursor goes back.
  pub record Forward (s t : State E) : Type 0 where
    pub clock : elapsed s ≤ elapsed t
    pub cursors : (i : ℕ) → s.cursor i ≤ℤ t.cursor i

  pub Forward-refl : (s : State E) → Forward s s
  Forward-refl s = record { clock = omega arith; cursors = λ i. ≤ℤ_refl (s.cursor i) }

  pub Forward-trans : (s t u : State E) → Forward s t → Forward t u → Forward s u
  Forward-trans s t u h k = record {
    clock = omega arith;
    cursors = λ i. ≤ℤ_trans (s.cursor i) (t.cursor i) (u.cursor i) (h.cursors i) (k.cursors i);
  }

  -- An action moves forward, and every loop in it ends.
  abbrev pub total : Contract (State E)
  total = record {
    rel = Forward;
    rel_refl = Forward-refl;
    rel_trans = Forward-trans;
    allows = Ends;
  }

  pub Keeps-monotonic : Keeps total (monotonic E)
  unfolding monotonic
  Keeps-monotonic = record {
    related = λ s. record {
      clock = omega (arith, laws.read_after s.world, laws.read_before s.world);
      cursors = λ i. ≤ℤ_refl (s.cursor i);
    };
    allowed = λ s. tt;
  }

  pub Keeps-sleep : (d : ℕ) → Keeps total (sleep E d)
  unfolding sleep
  Keeps-sleep d = record {
    related = λ s. record {
      clock = omega (arith, laws.sleep_le d s.world);
      cursors = λ i. ≤ℤ_refl (s.cursor i);
    };
    allowed = λ s. tt;
  }
