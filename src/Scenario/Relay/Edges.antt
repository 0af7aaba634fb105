-- ===== src/Scenario/Relay/Edges.antt =====
-- What the requests of IT-046 say of the edges between the devices, and which edges they leave
-- alone.
use local_peer_connections.Prelude.{
  ℕ, String, ◌<>◌, str_eq, ◌≡◌, refl, sym, ap, ◌∙◌, Bool, true, false, ◌&&◌, Option, none, some,
  List, [], ◌∷◌, ◌⊎◌, inl, inr, if◌then◌else◌,
}
use local_peer_connections.Python.Value.{Value, str, dict, get, get_or, is_str, is_true}
use local_peer_connections.Exec.{Exec}
use local_peer_connections.Exec.Contract.{Contract, Keeps}
use local_peer_connections.World.{Request, Env, State}
use local_peer_connections.Api.{Api, base, request_to, command_body}
use local_peer_connections.Runner.{Runner}
use local_peer_connections.Scenario.{reliable}
use local_peer_connections.Trace.{traced, log}
use local_peer_connections.Trace.Steps.{Logged}
use local_peer_connections.Scenario.Relay.{Trio, partitioned}
use local_peer_connections.Scenario.Relay.Steps.{block_request, Keeps-partitioned}

-- What a command says of the edge to a peer: that it be cut, or not.
abbrev arguments_flag : String → Value → Option Bool
arguments_flag peer (dict a) =
    if is_str peer (get "peerId" a) then some (is_true (get "blocked" a)) else none
arguments_flag peer _ = none

abbrev body_flag : String → Option Value → Option Bool
body_flag peer (some (dict d)) =
    if is_str "setDirectPeerBlockedForTesting" (get "action" d)
    then arguments_flag peer (get "arguments" d)
    else none
body_flag peer _ = none

abbrev pub block_of : String → String → Request → Option Bool
block_of url peer r = if str_eq r.url url then body_flag peer r.body else none

-- Whether the last such command to the device with this URL cut its edge to the peer.
abbrev pub is_cut : String → String → List Request → Bool
is_cut url peer [] = false
is_cut url peer (r ∷ rest) = elim (block_of url peer r) [
  | some flag ↦ flag
  | none ↦ is_cut url peer rest
]

abbrev pub is_about : String → String → Api → String → Bool
is_about url peer api other = str_eq (base api.device <> "/command") url && is_str peer (str other)

either_none : (b : Bool) → ◌≡◌ {A = Option Bool} (if b then none else none) none
either_none true = refl
either_none false = refl

pub block_of-get :
    (url peer : String) (api : Api) (path : String)
    → block_of url peer (request_to api "GET" path none) ≡ none
block_of-get url peer api path = either_none _

pub block_of-send :
    (url peer : String) (api : Api) (other : String) (size : ℕ)
    → block_of url peer (
        request_to api "POST" "/command" (some (command_body "sendReliable" (reliable other size))))
      ≡ none
unfolding get_or str_eq is_str
block_of-send url peer api other size = either_none _

nested :
    (a b : Bool) (o : Option Bool)
    → (if a then (if b then o else none) else none) ≡ (if a && b then o else none)
nested true b o = refl
nested false b o = refl

pub block_of-block :
    (url peer : String) (api : Api) (other : String) (flag : Bool)
    → block_of url peer (block_request api other flag)
      ≡ (if is_about url peer api other then some flag else none)
unfolding get_or str_eq is_str
block_of-block url peer api other flag =
    nested (str_eq (base api.device <> "/command") url) _ (some flag)

module _ (E : Env) where
  abbrev Actions : Type 0 → Type 0
  Actions A = Exec (State (traced E)) A

  -- The edge is as it was, or not cut.
  abbrev pub IsHealed : String → String → State (traced E) → State (traced E) → Type 0
  IsHealed url peer s t =
      (is_cut url peer (log E t) ≡ false) ⊎ (is_cut url peer (log E t) ≡ is_cut url peer (log E s))

  pub IsHealed-trans :
      (url peer : String) (s t u : State (traced E))
      → IsHealed url peer s t
      → IsHealed url peer t u
      → IsHealed url peer s u
  IsHealed-trans url peer s t u h (inl e) = inl e
  IsHealed-trans url peer s t u (inl e) (inr k) = inl (k ∙ e)
  IsHealed-trans url peer s t u (inr e) (inr k) = inr (k ∙ e)

  unfoldable pub healing : Contract (State (traced E))
  healing = record {
    rel = λ s t. (url peer : String) → IsHealed url peer s t;
    rel_refl = λ s url peer. inr refl;
    rel_trans = λ s t u h k url peer. IsHealed-trans url peer s t u (h url peer) (k url peer);
    allows = λ e. Unit;
  }

  unfoldable pub IsPlain : Request → Type 0
  IsPlain r = (url peer : String) → block_of url peer r ≡ none

  -- A request that says nothing of an edge leaves it as it was.
  is_cut-plain :
      (url peer : String) (r : Request) (l : List Request)
      → block_of url peer r ≡ none
      → is_cut url peer (r ∷ l) ≡ is_cut url peer l
  is_cut-plain url peer r l h =
      ap
        (λ (o : Option Bool). elim o as (λ _. Bool) [ some flag ↦ flag | none ↦ is_cut url peer l ])
        h

  pub healing-Logged : Logged E healing IsPlain
  unfolding healing IsPlain
  healing-Logged = record {
    any_error = λ e. tt;
    silent = λ s t h url peer. inr (ap (is_cut url peer) (sym h));
    asked = λ r s t h e url peer.
        inr (ap (is_cut url peer) e ∙ is_cut-plain url peer r (log E s) (h url peer));
  }

  module _ (t : Trio) where
    -- The edges but that between the first and the third device.
    unfoldable pub IsOther : String → String → Type 0
    IsOther url peer =
        (is_about url peer t.a t.c_id ≡ false) × (is_about url peer t.c t.a_id ≡ false)

    unfoldable pub cutting : Contract (State (traced E))
    cutting = record {
      rel = λ s u.
          (url peer : String)
          → IsOther url peer
          → is_cut url peer (log E u) ≡ is_cut url peer (log E s);
      rel_refl = λ s url peer o. refl;
      rel_trans = λ s u v h k url peer o. k url peer o ∙ h url peer o;
      allows = λ e. Unit;
    }

    IsCutting : Request → Type 0
    IsCutting r = (url peer : String) → IsOther url peer → block_of url peer r ≡ none

    cutting-Logged : Logged E cutting IsCutting
    unfolding cutting IsCutting
    cutting-Logged = record {
      any_error = λ e. tt;
      silent = λ s u h url peer o. ap (is_cut url peer) (sym h);
      asked = λ r s u h e url peer o.
          ap (is_cut url peer) e ∙ is_cut-plain url peer r (log E s) (h url peer o);
    }

    pub Keeps-cutting :
        (runner : Runner) (blocked_at : ℕ)
        → Keeps cutting (partitioned (traced E) runner t blocked_at)
    unfolding IsCutting IsOther
    Keeps-cutting runner blocked_at =
        Keeps-partitioned E cutting-Logged (λ api path url peer o. block_of-get url peer api path)
          (λ api peer size url p o. block_of-send url p api peer size) runner t
          (λ url peer o.
            block_of-block url peer t.a t.c_id true ∙ ap (λ b. if b then some true else none) o.0)
          (λ url peer o.
            block_of-block url peer t.c t.a_id true ∙ ap (λ b. if b then some true else none) o.1)
          blocked_at
