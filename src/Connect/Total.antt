-- ===== src/Connect/Total.antt =====
-- A connection attempt ends, whatever the devices answer.
use local_peer_connections.Prelude.{String, true, ◌&&◌, Option, none, some, List, [], ◌∷◌}
use local_peer_connections.Python.Value.{
  Value, Fields, get, get_or, as_str, elements, is_str, list, dict, nil, truthy,
}
use local_peer_connections.Exec.{Message, Error, ok}
use local_peer_connections.Exec.Contract.{Keeps, Keeps-lift, Keeps-bind, Keeps-catch}
use local_peer_connections.World.{Env, IsEnv}
use local_peer_connections.Loop.Forward.{
  total, Ends, ResultEnds, and_then-ResultEnds, ok_or-ResultEnds, if-ResultEnds,
}
use local_peer_connections.Loop.Total.{Keeps-wait}
use local_peer_connections.Api.{Api}
use local_peer_connections.Api.Total.{api_rules}
use local_peer_connections.Runner.{Runner, walk}
use local_peer_connections.Endpoint.{choose, endpoint_id, select_endpoint, endpoint, first_element}
use local_peer_connections.Connect.{
  Pairing, any_ready, is_ready_with, ready_together, verify, handle_event, handle_events,
  both_ready, endpoint_available, cancel, check_sas, await_pairing, connect,
}

pub walk_ends : (v : Value) → ResultEnds (walk v)
walk_ends v = ok_or-ResultEnds (elements v) _ tt

any_ready_ends : (peer : String) (vs : List Value) → ResultEnds (any_ready peer vs)
unfolding any_ready
any_ready_ends peer [] = tt
any_ready_ends peer (dict c ∷ rest) =
    if-ResultEnds (is_str peer (get "peerId" c) && is_str "ready" (get "state" c)) (ok true)
      (any_ready peer rest) tt (any_ready_ends peer rest)
any_ready_ends peer (_ ∷ rest) = tt

pub is_ready_with_ends : (peer : String) (d : Fields) → ResultEnds (is_ready_with peer d)
unfolding is_ready_with
is_ready_with_ends peer d =
    and_then-ResultEnds (walk (get_or "connections" (list nil) d)) (any_ready peer) (walk_ends _)
      (any_ready_ends peer)

ready_together_ends :
    (p q : Option String) (source target : Fields) → ResultEnds (ready_together p q source target)
unfolding ready_together
ready_together_ends (some p) (some q) source target =
    and_then-ResultEnds (is_ready_with p source) _ (is_ready_with_ends p source)
      (λ held. if-ResultEnds held _ _ (is_ready_with_ends q target) tt)
ready_together_ends none q source target = tt
ready_together_ends (some p) none source target = tt

module _ (E : Env) (laws : IsEnv E) where
  Keeps-verify :
      (api : Api) (event : Fields) (p : Pairing) → Keeps (total E laws) (verify E api event p)
  unfolding verify
  Keeps-verify api event p = search api_rules depth 12

  Keeps-handle_event :
      (api : Api) (event : Fields) (p : Pairing) → Keeps (total E laws) (handle_event E api event p)
  unfolding handle_event
  Keeps-handle_event api event p = search (api_rules, Keeps-verify) depth 12

  Keeps-handle_events : (api : Api) (p : Pairing) → Keeps (total E laws) (handle_events E api p)
  unfolding handle_events
  Keeps-handle_events api p = search (api_rules, Keeps-handle_event) depth 12

  pub Keeps-both_ready :
      (source target : Api) (p : Pairing) → Keeps (total E laws) (both_ready E source target p)
  unfolding both_ready
  Keeps-both_ready source target p =
      search (api_rules, Keeps-handle_events, Keeps-lift, ready_together_ends) depth 16

  first_element_ends : (whole v : Value) → ResultEnds (first_element E whole v)
  first_element_ends (dict d) v = tt
  first_element_ends _ v = tt

  choose_ends :
      (unclear : Message) (whole : Value) (items matching : List Value)
      → ResultEnds (choose E unclear whole items matching)
  unfolding choose
  choose_ends unclear whole items (one ∷ []) = tt
  choose_ends unclear whole [] [] = tt
  choose_ends unclear whole (only ∷ []) [] = first_element_ends whole only
  choose_ends unclear whole (a ∷ b ∷ items) [] = tt
  choose_ends unclear whole [] (a ∷ b ∷ matching) = tt
  choose_ends unclear whole (only ∷ []) (a ∷ b ∷ matching) = first_element_ends whole only
  choose_ends unclear whole (x ∷ y ∷ items) (a ∷ b ∷ matching) = tt

  endpoint_id_ends : (m : Message) (v : Value) → ResultEnds (endpoint_id E m v)
  unfolding endpoint_id
  endpoint_id_ends m (dict d) = ok_or-ResultEnds (as_str (get "id" d)) _ tt
  endpoint_id_ends m _ = tt

  select_endpoint_ends :
      (here there : String) (v : Value) → ResultEnds (select_endpoint E here there v)
  unfolding select_endpoint
  select_endpoint_ends here there v =
      if-ResultEnds (truthy v) _ _
        (and_then-ResultEnds (walk v) _ (walk_ends v) (λ items.
          and_then-ResultEnds _ _ (choose_ends _ v items _) (λ chosen. endpoint_id_ends _ chosen)))
        tt

  pub Keeps-endpoint : (api other : Api) → Keeps (total E laws) (endpoint E api other)
  unfolding endpoint
  Keeps-endpoint api other = search (api_rules, Keeps-lift, select_endpoint_ends) depth 12

  Keeps-endpoint_available :
      (source target : Api) (found : Option String)
      → Keeps (total E laws) (endpoint_available E source target found)
  unfolding endpoint_available
  Keeps-endpoint_available source target found = search (api_rules, Keeps-endpoint) depth 12

  Keeps-cancel :
      {A : Type 0} (source : Api) (id : String) (e : Error)
      → Ends e
      → Keeps (total E laws) (cancel E {A = A} source id e)
  unfolding cancel
  Keeps-cancel source id e h = search api_rules depth 12

  Keeps-check_sas : (p : Pairing) → Keeps (total E laws) (check_sas E p)
  unfolding check_sas
  Keeps-check_sas p = search api_rules depth 12

  Keeps-await_pairing :
      (runner : Runner) (source target : Api) (id : String)
      → Keeps (total E laws) (await_pairing E runner source target id)
  unfolding await_pairing
  Keeps-await_pairing runner source target id =
      Keeps-catch _ _ (Keeps-wait E laws _ _ _ _ (Keeps-both_ready source target))
        (Keeps-cancel source id)

  -- In a lawful environment, a connection attempt ends whatever the devices answer: it returns or
  -- raises, and no loop of the model runs out of rounds. Neither the clock nor any cursor goes
  -- back.
  pub Keeps-connect :
      (runner : Runner) (source target : Api)
      → Keeps (total E laws) (connect E runner source target)
  unfolding connect
  Keeps-connect runner source target =
      Keeps-bind _ _ (Keeps-wait E laws _ _ _ _ (Keeps-endpoint_available source target))
        (λ found. search (api_rules, Keeps-await_pairing, Keeps-check_sas) depth 12)
