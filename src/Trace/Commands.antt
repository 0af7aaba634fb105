-- ===== src/Trace/Commands.antt =====
-- A command sends one request, and if every reply is JSON it raises nothing but a `RunnerFailure`.
use local_peer_connections.Prelude.{ℕ, String, ◌≡◌, ◌≢◌, refl, ◌∙◌, Option, none, some, ◌∷◌}
use local_peer_connections.Python.Value.{Value, Fields}
use local_peer_connections.Exec.{
  Message, Error, failure, Result, ok, err, Exec, pure, raise, lift, continue, ◌>>=◌, or_raise,
}
use local_peer_connections.Exec.Contract.{Contract, Keeps, Allowed, keeps_rules}
use local_peer_connections.World.{Request, Reply, response, unavailable, garbled, Env, State}
use local_peer_connections.Api.{
  Api, request_to, command_body, urlopen, read_reply, request, command,
}
use local_peer_connections.Trace.{traced, log}

module _ (E : Env) where
  -- A step that sends nothing.
  abbrev pub IsSilent : {A : Type 0} → Exec (State (traced E)) A → Type 0
  IsSilent m = (s : State (traced E)) → log E (m s).1 ≡ log E s

  pub bind-log :
      {A B : Type 0} (m : Exec (State (traced E)) A) (f : A → Exec (State (traced E)) B)
      → ((a : A) → IsSilent (f a))
      → (s : State (traced E)) → log E ((m >>= f) s).1 ≡ log E (m s).1
  unfolding ◌>>=◌
  bind-log {A} m f h s = ended (m s).0
    where
      ended : (r : Result A) → log E (continue r f (m s).1).1 ≡ log E (m s).1
      ended (ok a) = h a (m s).1
      ended (err e) = refl

  pub lift-IsSilent : {A : Type 0} (r : Result A) → IsSilent (lift r)
  unfolding lift
  lift-IsSilent r s = refl

  or_raise-IsSilent : {A : Type 0} (o : Option A) (e : Error) → IsSilent (or_raise o e)
  unfolding or_raise pure raise
  or_raise-IsSilent none e s = refl
  or_raise-IsSilent (some a) e s = refl

  read_reply-IsSilent : (api : Api) (r : Reply) → IsSilent (read_reply (traced E) api r)
  unfolding read_reply pure raise
  read_reply-IsSilent api (response v) s = refl
  read_reply-IsSilent api (unavailable fault e) s = refl
  read_reply-IsSilent api garbled s = refl

  pub command-log :
      (api : Api) (action : String) (arguments : Fields) (timeout : Option ℕ) (s : State (traced E))
      → log E (command (traced E) api action arguments timeout s).1
        ≡ request_to api "POST" "/command" (some (command_body action arguments)) ∷ log E s
  unfolding command request urlopen
  command-log api action arguments timeout s =
      bind-log _ _
        (λ value u. bind-log _ _ (λ answer. or_raise-IsSilent _ _) u ∙ or_raise-IsSilent _ _ u) s
      ∙ bind-log _ _ (λ reply. read_reply-IsSilent api reply) s

  -- Nothing but a `RunnerFailure` is raised.
  unfoldable pub failing : Contract (State (traced E))
  failing = record {
    rel = λ s t. Unit;
    rel_refl = λ s. tt;
    rel_trans = λ s t u h k. tt;
    allows = λ e. (m : Message) × (e ≡ failure m);
  }

  module _ (parsed : (r : Request) (t : ℕ) (w : E.World) → (E.urlopen r t w).0 ≢ garbled) where
    read_reply-Allowed :
        (api : Api) (reply : Reply) (s : State (traced E))
        → reply ≢ garbled
        → Allowed failing (read_reply (traced E) api reply s).0
    unfolding read_reply failing pure raise
    read_reply-Allowed api (response v) s h = tt
    read_reply-Allowed api (unavailable fault e) s h = (_, refl)
    read_reply-Allowed api garbled s h = absurd (h refl)

    Keeps-request :
        (api : Api) (method path : String) (body : Option Value) (timeout : Option ℕ)
        → Keeps failing (request (traced E) api method path body timeout)
    unfolding request urlopen ◌>>=◌ failing
    Keeps-request api method path body timeout = record {
      related = λ s. tt;
      allowed = λ s. read_reply-Allowed api _ _ (parsed _ _ s.world.0);
    }

    raised : (m : Message) → failing.allows (failure m)
    unfolding failing
    raised m = (m, refl)

    -- A command that raises raises a `RunnerFailure`.
    pub command-Allowed :
        (api : Api) (action : String) (arguments : Fields) (timeout : Option ℕ)
        → Keeps failing (command (traced E) api action arguments timeout)
    unfolding command
    command-Allowed api action arguments timeout =
        search (keeps_rules, Keeps-request, raised) depth 10
