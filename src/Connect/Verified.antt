-- ===== src/Connect/Verified.antt =====
-- What holds when a connection attempt returns, and what is done when it fails.
use Prim.Native.Nat.{min}
use local_peer_connections.Prelude.{
  ℕ, ◌≤◌, String, ◌≡◌, refl, sym, ◌∙◌, ap, subst, Bool, true, false, none, some, [], ◌∷◌, length,
  All, Any, arith, inl, inr,
}
use local_peer_connections.Python.Value.{Fields}
use local_peer_connections.Exec.{
  text, Message, Error, failure, blocked, builtin, diverged, Result, ok, err, Exec, pure, raise,
  lift, catch, recover, continue, ◌>>=◌, raise_if, or_raise, fold,
}
use local_peer_connections.Exec.Inversion.{
  bind-ok, bind-err, lift-ok, pure-ok, raise_if-ok, or_raise-ok, raise-ne-ok, raise-err, catch-ok,
  catch-failure,
}
use local_peer_connections.World.{Env, IsEnv, State}
use local_peer_connections.Loop.{wait}
use local_peer_connections.Loop.Sound.{wait_ends, WaitEnds}
use local_peer_connections.Loop.Invariant.{wait-keeps}
use local_peer_connections.Api.{Api, label, snapshot, command}
use local_peer_connections.Runner.{Runner}
use local_peer_connections.Connect.{
  Pairing, unpaired, handle_events, both_ready, endpoint_arguments, cancel, check_sas,
  await_pairing, endpoint_available, connect,
}
use local_peer_connections.Connect.Paired.{Paired, unpaired-Paired, both_shown, both_ready-Paired}
use local_peer_connections.Connect.Total.{Keeps-both_ready}
use local_peer_connections.Connect.Ready.{
  ReadyPair, ready_together-ReadyPair, SameSas, values_agree-SameSas,
}

module _ (E : Env) where
  check_sas-ok :
      (p : Pairing) (saw : Bool) (s t : State E)
      → check_sas E p s ≡ (ok saw, t)
      → (p.saw_verification ≡ saw)
        × (s ≡ t)
        × (saw ≡ true → (2 ≤ length p.sas_by_device) × SameSas p.sas_by_device)
  unfolding check_sas
  check_sas-ok p saw s t h =
      let (a, u, first, h1) = bind-ok (raise_if _ _) _ s saw t h in
      let (b, v, second, h2) = bind-ok (raise_if _ _) _ u saw t h1 in
      let (few, su) = raise_if-ok _ _ a s u first in
      let (differ, uv) = raise_if-ok _ _ b u v second in
      let (same, vt) = pure-ok p.saw_verification saw v t h2 in
      (
        same,
        su ∙ uv ∙ vt,
        λ shown. (ground arith, values_agree-SameSas p.sas_by_device (ground arith)),
      )

  module _ (source target : Api) where
    -- The two snapshots that a test of the wait compared, with the states between them.
    pub record Compared (t : State E) : Type 0 where
      pub before : State E
      pub between : State E
      pub source_snapshot : Fields
      pub target_snapshot : Fields
      pub first : snapshot E source before ≡ (ok source_snapshot, between)
      pub second : snapshot E target between ≡ (ok target_snapshot, t)
      pub pair : ReadyPair source_snapshot target_snapshot

    both_ready-Compared :
        (p p' : Pairing) (s t : State E)
        → both_ready E source target p s ≡ (ok (true, p'), t)
        → Compared t
    unfolding both_ready
    both_ready-Compared p p' s t h =
        let (q, u, handled, h1) =
          bind-ok (fold (handle_events E) (source ∷ target ∷ []) p) _ s (true, p') t h in
        let (d, v, first, h2) = bind-ok (snapshot E source) _ u (true, p') t h1 in
        let (d', w, second, h3) = bind-ok (snapshot E target) _ v (true, p') t h2 in
        let (b, x, lifted, h4) = bind-ok (lift _) _ w (true, p') t h3 in
        let (ready, wx) = lift-ok _ b w x lifted in
        let (same, xt) = pure-ok (b, q) (true, p') x t h4 in
        record {
          before = u;
          between = v;
          source_snapshot = d;
          target_snapshot = d';
          first = first;
          second = second ∙ ap (λ (y : State E). (ok d', y)) (wx ∙ xt);
          pair = ready_together-ReadyPair _ _ d d' refl refl (ready ∙ cc);
        }

    cancel-ne-ok :
        {A : Type 0} (id : String) (e : Error) (a : A) (s t : State E)
        → cancel E source id e s ≡ (ok a, t)
        → ⊥
    unfolding cancel
    cancel-ne-ok id e a s t h =
        let (x, u, caught, raised) = bind-ok (catch _ _) (λ _. raise e) s a t h in
        raise-ne-ok e a u t raised

  try_once : {A : Type 0} → Exec (State E) A → Exec (State E) (Unit {0})
  try_once m = catch (m >>= λ _. pure tt) (λ _. pure tt)

  attempt_state : {A : Type 0} (m : Exec (State E) A) (s : State E) → (try_once m s).1 ≡ (m s).1
  unfolding try_once catch pure ◌>>=◌
  attempt_state {A} m s = after (m s).0 (m s).1
    where
      after :
          (r : Result A) (t : State E)
          → let (q, u) = continue r (λ _. pure tt) t in
            (recover {A = Unit {0}} (λ _. pure tt) q u).1 ≡ t
      after (ok a) t = refl
      after (err (failure x)) t = refl
      after (err (blocked x)) t = refl
      after (err (builtin x)) t = refl
      after (err diverged) t = refl

  try_once-ne-failure :
      {A : Type 0} (m : Exec (State E) A) (x : Message) (s t : State E)
      → try_once m s ≡ (err (failure x), t)
      → ⊥
  unfolding try_once
  try_once-ne-failure m x s t h =
      let (e, u, failed, handled) = catch-failure _ (λ _. pure tt) x s t h in unfold pure in cc

  cancel-failure :
      {A : Type 0} (source : Api) (id : String) (e : Error) (x : Message) (s t : State E)
      → cancel E {A = A} source id e s ≡ (err (failure x), t)
      → (e ≡ failure x)
        × (t ≡ (command E source "cancelConnect" (endpoint_arguments E id) none s).1)
  unfolding cancel try_once
  cancel-failure source id e x s t h = elim (bind-err (try_once request) _ s (failure x) t h) [
    | inl caught ↦ absurd (try_once-ne-failure request x s t caught)
    | inr (a, u, caught, raised) ↦
        let (same, ut) = raise-err e (failure x) u t raised in
        (
          same,
          sym ut
              ∙ sym (ap (λ (y : Result (Unit {0}) × State E). y.1) caught)
              ∙ attempt_state request s,
        )
  ]
    where
      request : Exec (State E) Fields
      request = command E source "cancelConnect" (endpoint_arguments E id) none

  module _ (laws : IsEnv E) (runner : Runner) (source target : Api) where
    pairing_of : Message
    pairing_of =
        text "authenticated connection "
        ∷ text (label source)
        ∷ text "->"
        ∷ text (label target)
        ∷ []

    await_pairing-ok :
        (id : String) (p : Pairing) (s t : State E)
        → await_pairing E runner source target id s ≡ (ok p, t)
        → wait E (both_ready E source target) pairing_of (min runner.timeout 15000) unpaired s
          ≡ (ok p, t)
    unfolding await_pairing pairing_of
    await_pairing-ok id p s t h = elim (catch-ok _ (cancel E source id) p s t h) [
      | inl waited ↦ waited
      | inr (e, u, handled) ↦ absurd (cancel-ne-ok source target id e p u t handled)
    ]

    wait-Compared :
        (description : Message) (timeout : ℕ) (p : Pairing) (s t : State E)
        → wait E (both_ready E source target) description timeout unpaired s ≡ (ok p, t)
        → Compared source target t
    wait-Compared description timeout p s t h =
        let (q, u, ran) =
          subst
            (λ (x : Result Pairing × State E).
              WaitEnds E laws (both_ready E source target) description timeout s x.0 x.1)
            h
            (wait_ends E laws (both_ready E source target) (Keeps-both_ready E laws source target)
              description timeout unpaired s) in
        both_ready-Compared source target q p u t ran

    -- What the variables of `both_ready` show on the verification: if one was seen, the dict of the
    -- SAS values has the same value under the labels of both devices, and no other value; if none
    -- was seen, they are as they were at first.
    abbrev pub Noted : Bool → Pairing → Type 0
    Noted true p =
        (sas : String) × Any (λ x. x ≡ (label source, sas)) p.sas_by_device
        × Any (λ x. x ≡ (label target, sas)) p.sas_by_device
        × All (λ (x : String × String). x.1 ≡ sas) p.sas_by_device
    Noted false p = p ≡ unpaired

    Paired-Noted :
        (saw : Bool) (p : Pairing)
        → Paired (label source) (label target) p
        → p.saw_verification ≡ saw
        → (saw ≡ true → (2 ≤ length p.sas_by_device) × SameSas p.sas_by_device)
        → Noted saw p
    Paired-Noted false p inv same agreed = inv.untouched same
    Paired-Noted true p inv same agreed =
        let (two, (sas, all_same)) = agreed refl in
        let (first, second) =
          both_shown (label source) (label target) sas p.sas_by_device two inv.one_each inv.of_two
            all_same in
        (sas, first, second, all_same)

    -- An attempt from `s` to `t`: the wait for an endpoint of the target, the request to dial it, and
    -- the wait of `both_ready` from the variables with which it starts; and what `p`, the variables
    -- that this wait leaves, say on the verification.
    pub record Connected (saw : Bool) (s t : State E) : Type 0 where
      pub id : String
      pub available : State E
      pub found :
          wait E
            (endpoint_available E source target)
            (text (label source) ∷ text " endpoint for " ∷ text (label target) ∷ [])
            runner.timeout
            none
            s
          ≡ (ok (some id), available)
      pub answer : Fields
      pub dialled : State E
      pub dialling :
          command E source "connect" (endpoint_arguments E id) none available ≡ (ok answer, dialled)
      pub p : Pairing
      pub waited :
          wait E
            (both_ready E source target)
            (text "authenticated connection "
              ∷ text (label source)
              ∷ text "->"
              ∷ text (label target)
              ∷ [])
            (min runner.timeout 15000)
            unpaired
            dialled
          ≡ (ok p, t)
      pub compared : Compared source target t
      pub noted : Noted saw p

    -- In a lawful environment, if `connect` returns, then it has found an endpoint of the target, has
    -- asked the source to dial it, and has waited from there. Its last two requests were the
    -- snapshots of the source and of the target, and these show that each is ready with the other,
    -- under the peer ids that they name. If it returns that it saw a verification, then this wait
    -- has noted a SAS value under the label of the source and the same under the label of the target,
    -- and no other value. If it returns that it saw none, the wait has noted none.
    pub connect_sound :
        (saw : Bool) (s t : State E)
        → connect E runner source target s ≡ (ok saw, t)
        → Connected saw s t
    unfolding connect pairing_of
    connect_sound saw s t h =
        let (found, u, available, h1) = bind-ok (wait E _ _ _ _) _ s saw t h in
        let (id, v, named, h2) = bind-ok (or_raise found _) _ u saw t h1 in
        let (answer, w, dialled, h3) = bind-ok (command E source _ _ _) _ v saw t h2 in
        let (p, x, paired, checked) =
          bind-ok (await_pairing E runner source target id) (check_sas E) w saw t h3 in
        let (same, xt, agreed) = check_sas-ok p saw x t checked in
        let (is_id, uv) = or_raise-ok found _ id u v named in
        let waited = await_pairing-ok id p w x paired ∙ ap (λ (z : State E). (ok p, z)) xt in
        let paired_there =
          wait-keeps E (Paired (label source) (label target)) (both_ready E source target)
            (λ q q' b. both_ready-Paired E source target q q' b) pairing_of
            (min runner.timeout 15000) unpaired p w t waited
            (unpaired-Paired (label source) (label target)) in
        record {
          id = id;
          available = v;
          found = available ∙ λ i. (ok (is_id i), uv i);
          answer = answer;
          dialled = w;
          dialling = dialled;
          p = p;
          waited = waited;
          compared = wait-Compared pairing_of (min runner.timeout 15000) p w t waited;
          noted = Paired-Noted saw p paired_there same agreed;
        }

    -- If the pairing of an attempt fails with a `RunnerFailure`, this is the failure of the wait,
    -- and the last request is `cancelConnect` for the endpoint that was dialled, sent after that
    -- failure.
    pub await_pairing-failure :
        (id : String) (x : Message) (s t : State E)
        → await_pairing E runner source target id s ≡ (err (failure x), t)
        → (u : State E) × (wait E
              (both_ready E source target)
              (text "authenticated connection "
                ∷ text (label source)
                ∷ text "->"
                ∷ text (label target)
                ∷ [])
              (min runner.timeout 15000)
              unpaired
              s
            ≡ (err (failure x), u))
          × (t ≡ (command E source "cancelConnect" (endpoint_arguments E id) none u).1)
    unfolding await_pairing
    await_pairing-failure id x s t h =
        let (e, u, failed, handled) = catch-failure _ (cancel E source id) x s t h in
        let (same, sent) = cancel-failure source id e x u t handled in
        (u, failed ∙ ap (λ (y : Error). (err y, u)) same, sent)
