-- ===== src/Endpoint/Choice.antt =====
-- What the endpoint is that `Runner.endpoint` returns.
use local_peer_connections.Prelude.{
  String, ◌≡◌, refl, ap, subst, Bool, true, false, some, List, [], ◌∷◌, select, ◌⊎◌, inl, inr,
  if◌then◌else◌,
}
use local_peer_connections.Python.Value.{Value, Fields, dict, get, as_str, elements, truthy}
use local_peer_connections.Exec.{Message, Error, failure, ok, err, and_then, ok_or}
use local_peer_connections.Exec.Inversion.{and_then-ok, ok_or-ok}
use local_peer_connections.World.{Env}
use local_peer_connections.Endpoint.{
  hint, is_match, first_element, choose, endpoint_id, select_endpoint,
}

module _ (E : Env) where
  first_element-ok : (whole v w : Value) → first_element E whole v ≡ ok w → v ≡ w
  first_element-ok (dict d) v w h = cc
  first_element-ok Value.null v w h = cc
  first_element-ok (Value.boolean b) v w h = cc
  first_element-ok (Value.int n) v w h = cc
  first_element-ok (Value.float m k) v w h = cc
  first_element-ok (Value.str s) v w h = cc
  first_element-ok (Value.list vs) v w h = cc

  choose-ok :
      (unclear : Message) (whole : Value) (items matching : List Value) (v : Value)
      → choose E unclear whole items matching ≡ ok v
      → (matching ≡ v ∷ []) ⊎ (items ≡ v ∷ [])
  unfolding choose
  choose-ok unclear whole items (one ∷ []) v h = inl cc
  choose-ok unclear whole (only ∷ []) [] v h =
      inr (ap (λ w. w ∷ []) (first_element-ok whole only v h))
  choose-ok unclear whole (only ∷ []) (m ∷ m' ∷ more) v h =
      inr (ap (λ w. w ∷ []) (first_element-ok whole only v h))
  choose-ok unclear whole [] [] v h = cc
  choose-ok unclear whole [] (m ∷ m' ∷ more) v h = cc
  choose-ok unclear whole (i ∷ i' ∷ items) [] v h = cc
  choose-ok unclear whole (i ∷ i' ∷ items) (m ∷ m' ∷ more) v h = cc

  endpoint_id-ok :
      (malformed : Message) (v : Value) (id : String)
      → endpoint_id E malformed v ≡ ok id
      → (d : Fields) × (v ≡ dict d) × (as_str (get "id" d) ≡ some id)
  unfolding endpoint_id
  endpoint_id-ok malformed (dict d) id h = (d, refl, ok_or-ok (as_str (get "id" d)) _ id h)
  endpoint_id-ok malformed Value.null id h = cc
  endpoint_id-ok malformed (Value.boolean b) id h = cc
  endpoint_id-ok malformed (Value.int n) id h = cc
  endpoint_id-ok malformed (Value.float m k) id h = cc
  endpoint_id-ok malformed (Value.str s) id h = cc
  endpoint_id-ok malformed (Value.list vs) id h = cc

  -- The endpoint that was chosen for the device `there`.
  pub record Chosen (there : String) (endpoints : Value) (id : String) : Type 0 where
    pub items : List Value
    pub listed : elements endpoints ≡ some items
    pub chosen : Fields
    pub named : as_str (get "id" chosen) ≡ some id
    pub unique :
        (select (is_match E (hint E there)) items ≡ dict chosen ∷ []) ⊎ (items ≡ dict chosen ∷ [])

  -- If an endpoint id is selected for a device, it is the id of a reported endpoint, and this is
  -- the only endpoint whose name matches the device's label, or the only endpoint there is.
  pub select_endpoint-Chosen :
      (here there id : String) (endpoints : Value)
      → select_endpoint E here there endpoints ≡ ok id
      → Chosen there endpoints id
  unfolding select_endpoint
  select_endpoint-Chosen here there id endpoints h = present _ _ _ _ (truthy endpoints) h
    where
      present :
          (e : Error) (unclear absent : Message) (malformed : Value → Message) (b : Bool)
          → (if b
              then and_then (ok_or (elements endpoints) e) (λ items.
                and_then
                  (choose E unclear endpoints items (select (is_match E (hint E there)) items))
                  (λ chosen. endpoint_id E (malformed chosen) chosen))
              else err (failure absent))
            ≡ ok id
          → Chosen there endpoints id
      present e u a m false k = cc
      present e u a m true k =
          let (items, walked, k1) = and_then-ok _ _ id k in
          let (v, chose, k2) = and_then-ok _ _ id k1 in
          let (d, same, named) = endpoint_id-ok _ v id k2 in
          record {
            items = items;
            listed = ok_or-ok (elements endpoints) _ items walked;
            chosen = d;
            named = named;
            unique =
                subst
                  (λ (w : Value).
                    (select (is_match E (hint E there)) items ≡ w ∷ []) ⊎ (items ≡ w ∷ []))
                  same (choose-ok _ endpoints items _ v chose);
          }
