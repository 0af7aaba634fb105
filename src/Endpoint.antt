-- ===== src/Endpoint.antt =====
-- `Runner.endpoint`: which of the endpoints that a device reports is the other device.
pub mod Choice
use local_peer_connections.Prelude.{
  ℕ, String, Bool, true, false, ◌&&◌, Option, none, some, List, [], ◌∷◌, select, str_eq,
  if◌then◌else◌,
}
use local_peer_connections.Python.Value.{
  Value, Values, Fields, null, str, list, dict, nil, cons, end, field, get, get_or, as_str, truthy,
  characters,
}
use local_peer_connections.Python.Text.{keep}
use local_peer_connections.Exec.{
  text, shown, Message, Error, failure, builtin, key_error, Result, ok, err, Exec, and_then, ok_or,
  lift, ◌>>=◌,
}
use local_peer_connections.World.{Env, State}
use local_peer_connections.Api.{Api, label, snapshot}
use local_peer_connections.Runner.{walk}

module _ (E : Env) where
  -- `"".join(c for c in s.lower() if c.isalnum())`
  unfoldable pub hint : String → String
  hint s = keep E.is_alnum (E.lower s)

  -- `str(v)`
  abbrev pub to_text : Value → String
  to_text (str s) = s
  to_text v = E.repr v

  unfoldable pub is_match : String → Value → Bool
  is_match target (dict d) = str_eq (hint (to_text (get_or "localName" (str "") d))) target
  is_match target _ = false

  -- `endpoints[0]` of a value of one element.
  abbrev pub first_element : Value → Value → Result Value
  first_element (dict d) v = err (builtin key_error)
  first_element _ v = ok v

  -- `if len(matching) == 1 … elif len(endpoints) == 1 … else …`
  unfoldable pub choose : Message → Value → List Value → List Value → Result Value
  choose unclear whole endpoints (one ∷ []) = ok one
  choose unclear whole (only ∷ []) _ = first_element whole only
  choose unclear whole _ _ = err (failure unclear)

  unfoldable pub endpoint_id : Message → Value → Result String
  endpoint_id malformed (dict d) = ok_or (as_str (get "id" d)) (failure malformed)
  endpoint_id malformed _ = err (failure malformed)

  -- What `endpoint` makes of the endpoints of a snapshot, as the devices `here` and `there`.
  unfoldable pub select_endpoint : String → String → Value → Result String
  unfolding endpoint_id and_then ok_or
  select_endpoint here there endpoints =
      if truthy endpoints
      then and_then (walk endpoints) (λ items.
        and_then
          (choose
            (text here
              ∷ text ": cannot select "
              ∷ text there
              ∷ text "; use matching --device labels and LPC_TEST_NAME values"
              ∷ [])
            endpoints items (select (is_match (hint there)) items))
          (λ chosen.
            endpoint_id (text here ∷ text ": malformed endpoint: " ∷ shown chosen ∷ []) chosen))
      else err (failure (text here ∷ text ": no endpoint for " ∷ text there ∷ []))

  unfoldable pub endpoint : Api → Api → Exec (State E) String
  endpoint api other = do
    d ← snapshot E api
    lift (select_endpoint (label api) (label other) (get_or "endpoints" (list nil) d))
