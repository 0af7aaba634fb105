-- ===== src/Connect.antt =====
-- `Runner.connect`: dial, confirm the verification on both sides, and wait until both are ready.
pub mod Total
pub mod Ready
pub mod Paired
pub mod Verified
use Prim.Native.Nat.{min}
use local_peer_connections.Prelude.{
  ℕ, String, Bool, true, false, not, ◌&&◌, ◌||◌, Option, none, some, List, [], ◌∷◌, str_eq, any,
  all, length, ltb, if◌then◌else◌,
}
use local_peer_connections.Python.Value.{
  Value, Fields, null, boolean, str, list, dict, nil, end, field, get, get_or, is_str, as_str,
}
use local_peer_connections.Exec.{
  text, shown, Message, Error, failure, builtin, attribute_error, assertion_error, Result, ok, err,
  Exec, and_then, pure, raise, lift, catch, ◌>>=◌, ◌>>◌, raise_if, or_raise, fold,
}
use local_peer_connections.World.{Env, State}
use local_peer_connections.Loop.{wait}
use local_peer_connections.Api.{Api, label, snapshot, events, command}
use local_peer_connections.Runner.{Runner, walk}
use local_peer_connections.Endpoint.{endpoint}

-- The variables of `connect` that `both_ready` changes: the set `verified`, the dict
-- `sas_by_device` and `saw_verification`.
pub record Pairing : Type 0 where
  pub verified : List (String × String)
  pub sas_by_device : List (String × String)
  pub saw_verification : Bool

abbrev pub unpaired : Pairing
unpaired = record { verified = []; sas_by_device = []; saw_verification = false }

-- `key in verified`
abbrev pub is_verified : String → String → List (String × String) → Bool
is_verified device peer = any (λ (d, p). str_eq d device && str_eq p peer)

-- `sas_by_device[device] = sas`
unfoldable pub put_sas : String → String → List (String × String) → List (String × String)
put_sas device sas [] = (device, sas) ∷ []
put_sas device sas ((d, s) ∷ rest) =
    if str_eq d device then (d, sas) ∷ rest else (d, s) ∷ put_sas device sas rest

abbrev pub note_sas : String → Value → List (String × String) → List (String × String)
note_sas device v known = elim (as_str v) [ some sas ↦ put_sas device sas known | none ↦ known ]

-- `len(set(d.values())) == 1`
abbrev pub values_agree : List (String × String) → Bool
values_agree [] = false
values_agree ((d, s) ∷ rest) = all (λ (_, t). str_eq t s) rest

abbrev sas_dict : List (String × String) → Fields
sas_dict [] = end
sas_dict ((d, s) ∷ rest) = field d (str s) (sas_dict rest)

-- `any(c.get("peerId") == peer and c.get("state") == "ready" for c in connections)`
unfoldable pub any_ready : String → List Value → Result Bool
any_ready peer [] = ok false
any_ready peer (dict c ∷ rest) =
    if is_str peer (get "peerId" c) && is_str "ready" (get "state" c)
    then ok true
    else any_ready peer rest
any_ready peer (_ ∷ rest) = err (builtin attribute_error)

-- The same over `snapshot.get("connections", [])`.
unfoldable pub is_ready_with : String → Fields → Result Bool
is_ready_with peer d = and_then (walk (get_or "connections" (list nil) d)) (any_ready peer)

-- The value of `both_ready` on the two peer ids and snapshots.
unfoldable pub ready_together : Option String → Option String → Fields → Fields → Result Bool
ready_together (some source_peer) (some target_peer) source target =
    and_then (is_ready_with source_peer source)
      (λ held. if held then is_ready_with target_peer target else ok false)
ready_together _ _ source target = ok false

abbrev pub local_peer : Fields → Option String
local_peer d = as_str (get "localPeerId" d)

abbrev confirmation : String → Fields
confirmation peer = field "peerId" (str peer) (field "accepted" (boolean true) end)

module _ (E : Env) where
  -- The part of the event loop that a `verificationRequired` event reaches.
  unfoldable pub verify : Api → Fields → Pairing → Exec (State E) Pairing
  verify api event p = do
    peer ←
        or_raise (as_str (get "peerId" event))
          (failure (text (label api) ∷ text ": verification event omitted PeerId" ∷ []))
    if is_verified (label api) peer p.verified then pure p else (do
      command E api "confirmVerification" (confirmation peer) none
      pure (record {
        verified = (label api, peer) ∷ p.verified;
        sas_by_device = note_sas (label api) (get "sas" event) p.sas_by_device;
        saw_verification = true;
      }))

  unfoldable pub handle_event : Api → Fields → Pairing → Exec (State E) Pairing
  handle_event api event p =
      if is_str "connectFailed" (get "type" event)
      then raise (
          failure (
            text (label api)
            ∷ text ": connection attempt failed: "
            ∷ shown (get_or "error" (str "unknown connection failure") event)
            ∷ []))
      else if is_str "verificationRequired" (get "type" event)
      then verify api event p
      else pure p

  unfoldable pub handle_events : Api → Pairing → Exec (State E) Pairing
  handle_events api p = do polled ← events E api; fold (handle_event api) polled p

  unfoldable pub both_ready : Api → Api → Pairing → Exec (State E) (Bool × Pairing)
  both_ready source target p = do
    p' ← fold handle_events (source ∷ target ∷ []) p
    source_snapshot ← snapshot E source
    target_snapshot ← snapshot E target
    ready ← lift (
        ready_together (local_peer target_snapshot) (local_peer source_snapshot) source_snapshot
          target_snapshot)
    pure (ready, p')

  -- `endpoint_available`; it assigns `endpoint_id`.
  unfoldable pub endpoint_available :
      Api → Api → Option String → Exec (State E) (Bool × Option String)
  endpoint_available source target found =
      catch (do id ← endpoint E source target; pure (true, some id)) (λ _. pure (false, found))

  abbrev pub endpoint_arguments : String → Fields
  endpoint_arguments id = field "endpointId" (str id) end

  -- `except RunnerFailure: try: cancelConnect except RunnerFailure: pass; raise`
  unfoldable pub cancel : {A : Type 0} → Api → String → Error → Exec (State E) A
  cancel source id error = do
    catch (do command E source "cancelConnect" (endpoint_arguments id) none; pure tt) (λ _. pure tt)
    raise error

  -- The checks behind the wait.
  unfoldable pub check_sas : Pairing → Exec (State E) Bool
  check_sas p = do
    raise_if (p.saw_verification && ltb (length p.sas_by_device) 2)
        (failure (text "IT-006: SAS was not observed on both sides of the connection" ∷ []))
    raise_if (p.saw_verification && not (values_agree p.sas_by_device)) (
        failure (
          text "IT-006: SAS values differed across devices: "
          ∷ shown (dict (sas_dict p.sas_by_device))
          ∷ []))
    pure p.saw_verification

  unfoldable pub await_pairing : Runner → Api → Api → String → Exec (State E) Pairing
  await_pairing runner source target id =
      catch
        (wait E (both_ready source target)
          (text "authenticated connection "
            ∷ text (label source)
            ∷ text "->"
            ∷ text (label target)
            ∷ [])
          (min runner.timeout 15000) unpaired)
        (cancel source id)

  unfoldable pub connect : Runner → Api → Api → Exec (State E) Bool
  connect runner source target = do
    found ←
        wait E (endpoint_available source target)
          (text (label source) ∷ text " endpoint for " ∷ text (label target) ∷ []) runner.timeout
          none
    id ← or_raise found (builtin assertion_error)
    command E source "connect" (endpoint_arguments id) none
    p ← await_pairing runner source target id
    check_sas p
