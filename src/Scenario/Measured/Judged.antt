-- ===== src/Scenario/Measured/Judged.antt =====
-- What the phases of IT-044 have seen when they pass.
use Prim.Native.Nat.{max}
use local_peer_connections.Prelude.{
  ℕ, suc, ◌+◌, ◌*◌, ◌/◌, ◌≡◌, ap, ◌∙◌, true, false, some, List, [], ◌∷◌, arith,
}
use local_peer_connections.Prelude.Int.{ℤ, pos, negsuc, ltb_ℤ, ◌≤ℤ◌, ◌+ℤ◌}
use local_peer_connections.Python.Value.{Value, Fields, end, int, float, truthy, as_dict}
use local_peer_connections.Python.Number.{less, divide}
use local_peer_connections.Exec.{text, shown, ok, lift, raise_if, raise_unless, or_raise}
use local_peer_connections.Exec.Inversion.{bind-ok, pure-ok, lift-ok, raise_if-ok, or_raise-ok}
use local_peer_connections.Exec.Each.{raise_unless-ok}
use local_peer_connections.Exec.Still.{IsStill, still_rules}
use local_peer_connections.World.{Env, State}
use local_peer_connections.Loop.{sleep}
use local_peer_connections.Api.{Api}
use local_peer_connections.Runner.{Runner, wait_until}
use local_peer_connections.Links.{assert_links}
use local_peer_connections.Scenario.{act}
use local_peer_connections.Scenario.Load.Ramp.{tenth}
use local_peer_connections.Scenario.Measured.{test_arguments}
use local_peer_connections.Scenario.Measured.{
  Counters, read_counters, at_least_one, active_duration, judge_phase, drained, test_of,
  checkpoint_phase, checkpoint_phases,
}

not_below : (a b : ℤ) → ltb_ℤ a b ≡ false → b ≤ℤ a
not_below a b h = ground arith

not_truthy : (n : ℤ) → truthy (int n) ≡ false → n ≡ pos 0
unfolding truthy
not_truthy (pos n) h = ap pos (ground arith)
not_truthy (negsuc n) h = cc

module _ (E : Env) where
  -- The numbers of a phase: at least 16 publications admitted, none refused for the limit, a quotient
  -- of the durable bytes by the duration that is not less than 200, and one of the failed publications
  -- by all of them that is less than 0.1. A quotient is the one that the language's division gives, a
  -- parameter of the model.
  pub record Judged (size : ℕ) (d : Fields) : Type 0 where
    pub counters : Counters
    pub duration : Value
    pub bandwidth : Value
    pub loss_rate : Value
    pub read : read_counters size d ≡ ok counters
    pub lasted : active_duration E d ≡ ok duration
    pub per_second : divide E.arithmetic (int counters.durable_bytes) duration ≡ ok bandwidth
    pub share :
        divide E.arithmetic
          (int counters.failed)
          (int (at_least_one (counters.accepted +ℤ counters.failed)))
        ≡ ok loss_rate
    pub admitted : pos 16 ≤ℤ counters.accepted
    pub quick : less E.arithmetic bandwidth (float (pos 200) 0) ≡ ok false
    pub few_failed : less E.arithmetic loss_rate tenth ≡ ok true
    pub within_limit : counters.admission_failed ≡ pos 0

  judge_phase-Judged :
      (phase size : ℕ) (d : Fields) (x : Unit {0}) (s t : State E)
      → judge_phase E phase size d s ≡ (ok x, t)
      → Judged size d
  unfolding judge_phase
  judge_phase-Judged phase size d x s t h =
      let (c, u1, read, h1) = bind-ok (lift (read_counters size d)) _ s x t h in
      let (duration, u2, lasted, h2) = bind-ok (lift (active_duration E d)) _ u1 x t h1 in
      let (bandwidth, u3, per_second, h3) = bind-ok (lift _) _ u2 x t h2 in
      let (loss_rate, u4, share, h4) = bind-ok (lift _) _ u3 x t h3 in
      let (x5, u5, admitted, h5) = bind-ok (raise_if _ _) _ u4 x t h4 in
      let (slow, u6, compared, h6) = bind-ok (lift _) _ u5 x t h5 in
      let (x7, u7, quick, h7) = bind-ok (raise_if slow _) _ u6 x t h6 in
      let (low, u8, ranked, h8) = bind-ok (lift _) _ u7 x t h7 in
      let (x9, u9, few, h9) = bind-ok (raise_unless low _) _ u8 x t h8 in
      record {
        counters = c;
        duration = duration;
        bandwidth = bandwidth;
        loss_rate = loss_rate;
        read = (lift-ok _ c s u1 read).0;
        lasted = (lift-ok _ duration u1 u2 lasted).0;
        per_second = (lift-ok _ bandwidth u2 u3 per_second).0;
        share = (lift-ok _ loss_rate u3 u4 share).0;
        admitted = not_below c.accepted (pos 16) (raise_if-ok _ _ x5 u4 u5 admitted).0;
        quick = (lift-ok _ slow u5 u6 compared).0 ∙ ap ok (raise_if-ok slow _ x7 u6 u7 quick).0;
        few_failed = (lift-ok _ low u7 u8 ranked).0 ∙ ap ok (raise_unless-ok low _ x9 u8 u9 few).0;
        within_limit = not_truthy c.admission_failed (raise_if-ok _ _ x u9 t h9).0;
      }

  judge_phase-IsStill :
      (phase size : ℕ) (d : Fields) → IsStill {S = State E} (judge_phase E phase size d)
  unfolding judge_phase
  judge_phase-IsStill phase size d = search still_rules depth 14

  -- A phase from `s` to `t`, step after step, each from the state that the one before it has left: the
  -- test is started at the coordinator, runs for five seconds, is stopped, and is waited for until it
  -- is drained; then a snapshot shows the test with these numbers; and last, the links are checked.
  pub record Measured (runner : Runner) (leader : Api) (phase size : ℕ) (s t : State E)
      : Type 0 where
    pub running : State E
    pub started : act E leader "startCheckpointTest" (test_arguments E size) s ≡ (ok tt, running)
    pub ran : State E
    pub slept : sleep E 5000 running ≡ (ok tt, ran)
    pub stopping : State E
    pub stopped : act E leader "stopCheckpointTest" end ran ≡ (ok tt, stopping)
    pub settled : State E
    pub waited :
        wait_until E
          (drained E leader)
          (text "IT-044 phase " ∷ shown (int (pos phase)) ∷ text " checkpoint drain" ∷ [])
          (max 30000 (((size + 199) / 200 + 2) * 1000))
          stopping
        ≡ (ok tt, settled)
    pub shot : Value
    pub test : Fields
    pub after_shot : State E
    pub taken : test_of E leader settled ≡ (ok shot, after_shot)
    pub reported : as_dict shot ≡ some test
    pub judged : Judged size test
    pub linked :
        assert_links E runner "IT-044" (shown (int (pos phase)) ∷ []) after_shot ≡ (ok tt, t)

  checkpoint_phase-Measured :
      (runner : Runner) (leader : Api) (phase size : ℕ) (x : Unit {0}) (s t : State E)
      → checkpoint_phase E runner leader phase size s ≡ (ok x, t)
      → Measured runner leader phase size s t
  unfolding checkpoint_phase
  checkpoint_phase-Measured runner leader phase size x s t h =
      let (x1, u1, started, h1) = bind-ok (act E leader _ _) _ s x t h in
      let (x2, u2, slept, h2) = bind-ok (sleep E 5000) _ u1 x t h1 in
      let (x3, u3, stopped, h3) = bind-ok (act E leader _ _) _ u2 x t h2 in
      let (x4, u4, waited, h4) = bind-ok (wait_until E (drained E leader) _ _) _ u3 x t h3 in
      let (shot, u5, taken, h5) = bind-ok (test_of E leader) _ u4 x t h4 in
      let (test, u6, reported, h6) = bind-ok (or_raise (as_dict shot) _) _ u5 x t h5 in
      let (x7, u7, judged, h7) = bind-ok (judge_phase E phase size test) _ u6 x t h6 in
      let (is_dict, e6) = or_raise-ok (as_dict shot) _ test u5 u6 reported in
      record {
        running = u1;
        started = started;
        ran = u2;
        slept = slept;
        stopping = u3;
        stopped = stopped;
        settled = u4;
        waited = waited;
        shot = shot;
        test = test;
        after_shot = u5;
        taken = taken;
        reported = is_dict;
        judged = judge_phase-Judged phase size test x7 u6 u7 judged;
        linked =
            ap (assert_links E runner "IT-044" (shown (int (pos phase)) ∷ []))
              (e6 ∙ judge_phase-IsStill phase size test x7 u6 u7 judged)
            ∙ h7;
      }

  -- Every phase, numbered from `phase` on, each from the state that the one before it has left.
  abbrev pub AllMeasured : Runner → Api → ℕ → List ℕ → State E → State E → Type 0
  AllMeasured runner leader phase [] s t = s ≡ t
  AllMeasured runner leader phase (size ∷ rest) s t =
      (u : State E) × Measured runner leader phase size s u
      × AllMeasured runner leader (suc phase) rest u t

  -- If the phases of the checkpoint measurement pass, then for each size in turn, from the state that
  -- the phase before it left, the coordinator's test was started, ran for five seconds, was stopped
  -- and waited for. The snapshot taken next reports at least 16 admitted publications and none refused
  -- for the limit. The quotient that the language gives for the durable bytes and the duration is not
  -- less than 200, and that for the failed publications and all of them is less than 0.1. The check of the links between the devices follows that snapshot at once, and passes.
  pub checkpoint_phases-AllMeasured :
      (runner : Runner) (leader : Api) (phase : ℕ) (sizes : List ℕ) (x : Unit {0}) (s t : State E)
      → checkpoint_phases E runner leader phase sizes s ≡ (ok x, t)
      → AllMeasured runner leader phase sizes s t
  unfolding checkpoint_phases
  checkpoint_phases-AllMeasured runner leader phase [] x s t h = (pure-ok tt x s t h).1
  checkpoint_phases-AllMeasured runner leader phase (size ∷ rest) x s t h =
      let (y, u, ran, later) = bind-ok (checkpoint_phase E runner leader phase size) _ s x t h in
      (
        u,
        checkpoint_phase-Measured runner leader phase size y s u ran,
        checkpoint_phases-AllMeasured runner leader (suc phase) rest x u t later,
      )
