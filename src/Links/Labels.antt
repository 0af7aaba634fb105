-- ===== src/Links/Labels.antt =====
-- The checks on links go by the labels of the devices.
use local_peer_connections.Prelude.{
  String, str_eq, str_eq_iff, ◌≡◌, refl, sym, subst, ap, ◌∙◌, true, Bool-cases, inl, inr, Option,
  none, some, List, [], ◌∷◌, ◌++◌, All, ◌⊎◌, false,
}
use local_peer_connections.Python.Value.{Value, Fields, list, nil, get, as_str, is_none, elements}
use local_peer_connections.Exec.{
  text, Message, ok, Exec, and_then, ok_or, map_each, for_each, pure, lift, raise_if, raise_unless,
  ◌>>=◌,
}
use local_peer_connections.Exec.Inversion.{bind-ok, pure-ok, lift-ok, ok_or-ok}
use local_peer_connections.World.{Env, State}
use local_peer_connections.Api.{Api, label, snapshot, events}
use local_peer_connections.Peers.{connections}
use local_peer_connections.Runner.{Runner}
use local_peer_connections.Links.{
  put_label, put_all, relevant, peers_of, all_texts, links_ready, selected_peers, labelled_peer,
  lifecycle, in_set, is_unstable, check_stable, check_links,
}

-- Every entry has the key `name`.
abbrev Under : {A : Type 0} → String → List (String × A) → Type 0
Under name = All (λ entry. entry.0 ≡ name)

put_label-Under :
    {A : Type 0} (name key : String) (v : A) (d : List (String × A))
    → key ≡ name
    → Under name d
    → Under name (put_label key v d)
unfolding put_label
put_label-Under name key v [] e h = (e, tt)
put_label-Under name key v ((k, w) ∷ rest) e (p, h) =
    let later = put_label-Under name key v rest e h in
    elim (Bool-cases (str_eq k key)) [ inl q ↦ rw q (p, h) | inr q ↦ rw q (p, later) ]

put_all-Under :
    {A : Type 0} (name : String) (entries d : List (String × A))
    → Under name entries
    → Under name d
    → Under name (put_all entries d)
unfolding put_all
put_all-Under name [] d h k = k
put_all-Under name ((key, v) ∷ entries) d (e, h) k =
    put_all-Under name entries (put_label key v d) h (put_label-Under name key v d e k)

-- One step of `all_texts`.
joined-Under :
    (name s : String) (q : Option (List (String × String))) (peers : List (String × String))
    → ((found : List (String × String)) → q ≡ some found → Under name found)
    → (elim q as (λ _. Option (List (String × String))) [
      | none ↦ none
      | some found ↦ some ((name, s) ∷ found)
    ])
      ≡ some peers
    → Under name peers
joined-Under name s none peers k h = cc
joined-Under name s (some found) peers k h =
    let e : (name, s) ∷ found ≡ peers = cc in subst (Under name) e (refl, k found refl)

all_texts-Under :
    (name : String) (entries : List (String × Value)) (peers : List (String × String))
    → Under name entries
    → all_texts entries ≡ some peers
    → Under name peers
unfolding all_texts
all_texts-Under name [] [] h e = tt
all_texts-Under name [] (p ∷ peers) h e = cc
all_texts-Under name ((key, v) ∷ entries) peers (k, h) e =
    texts (λ found p. all_texts-Under name entries found h p) (as_str v) refl e
  where
    texts :
        ((found : List (String × String)) → all_texts entries ≡ some found → Under name found)
        → (o : Option String) → as_str v ≡ o
        → (elim o as (λ _. Option (List (String × String))) [
          | none ↦ none
          | some s ↦ elim (all_texts entries) [ none ↦ none | some found ↦ some ((key, s) ∷ found) ]
        ])
          ≡ some peers
        → Under name peers
    texts later none q r = cc
    texts later (some s) q r =
        subst (λ n. Under n peers) k
          (joined-Under key s (all_texts entries) peers
            (λ found p. subst (λ n. Under n found) (sym k) (later found p)) r)

peers_of-Under :
    (name : String) (peers : List (String × String)) → Under name peers → peers_of name peers ≡ []
unfolding peers_of
peers_of-Under name [] h = refl
peers_of-Under name ((other, peer) ∷ rest) (e, h) =
    let same = (str_eq_iff other name).1 e in
    let later = peers_of-Under name rest h in rw same later

nothing_ready : links_ready [] (list nil) ≡ ok true
unfolding links_ready relevant and_then ok_or elements
nothing_ready = refl

-- An event that is none of a lost or regained link or a failed attempt, or that names a peer.
abbrev pub NamesPeer : Fields → Type 0
NamesPeer event =
    (in_set lifecycle (get "type" event) ≡ ok false)
    ⊎ ((in_set lifecycle (get "type" event) ≡ ok true) × (is_none (get "peerId" event) ≡ false))

NamesPeer-stable : (event : Fields) → NamesPeer event → is_unstable [] event ≡ ok false
unfolding is_unstable and_then
NamesPeer-stable event (inl h) = rw h refl
NamesPeer-stable event (inr (h, named)) = rw h (rw named refl)

bind-step :
    {S A B : Type 0} {a : A} (m : Exec S A) (f : A → Exec S B) (s : S)
    → {t : S} → m s ≡ (ok a, t)
    → (m >>= f) s ≡ f a t
unfolding ◌>>=◌
bind-step m f s h = rw h refl

module _ (E : Env) where
  labelled_peers-Under :
      (name : String) (apis : List Api) (entries : List (String × Value)) (s t : State E)
      → All (λ api. label api ≡ name) apis
      → map_each (labelled_peer E) apis s ≡ (ok entries, t)
      → Under name entries
  unfolding map_each
  labelled_peers-Under name [] entries s t h e = subst (Under name) (pure-ok [] entries s t e).0 tt
  labelled_peers-Under name (api ∷ apis) entries s t (k, h) e =
      let (entry, u, one, h1) = bind-ok (labelled_peer E api) _ s entries t e in
      let (d, v, shot, h2) = bind-ok (snapshot E api) _ s entry u one in
      let (there, _) = pure-ok (label api, get "localPeerId" d) entry v u h2 in
      let (rest, w, others, h3) = bind-ok (map_each (labelled_peer E) apis) _ u entries t h1 in
      let (joined, _) = pure-ok (entry ∷ rest) entries w t h3 in
      subst (Under name) joined (
        sym (ap (λ (x : String × Value). x.0) there) ∙ k,
        labelled_peers-Under name apis rest u w h others,
      )

  no_peer_expected :
      (runner : Runner) (name : String) (peers : List (String × String)) (s t : State E)
      → All (λ api. label api ≡ name) runner.apis
      → selected_peers E runner s ≡ (ok peers, t)
      → peers_of name peers ≡ []
  unfolding selected_peers
  no_peer_expected runner name peers s t same h =
      let (entries, u, read, h1) = bind-ok (map_each (labelled_peer E) runner.apis) _ s peers t h in
      let under = labelled_peers-Under name runner.apis entries s u same read in
      let texts = ok_or-ok (all_texts (put_all entries [])) _ peers (lift-ok _ peers u t h1).0 in
      peers_of-Under name peers
        (all_texts-Under name _ peers (put_all-Under name entries [] under tt) texts)

  check_stable-passes :
      (complaint : Message) (event : Fields) (s : State E)
      → NamesPeer event
      → check_stable E complaint [] event s ≡ (ok tt, s)
  unfolding check_stable lift raise_if pure ◌>>=◌
  check_stable-passes complaint event s h = rw (NamesPeer-stable event h) refl

  for_each-passes :
      (complaint : Message) (polled : List Fields) (s : State E)
      → All NamesPeer polled
      → for_each (check_stable E complaint []) polled s ≡ (ok tt, s)
  unfolding for_each pure
  for_each-passes complaint [] s h = refl
  for_each-passes complaint (e ∷ polled) s (h, hs) =
      bind-step (check_stable E complaint [] e) _ s (check_stable-passes complaint e s h)
      ∙ for_each-passes complaint polled s hs

  check_links-passes :
      (scenario : String) (phase : Message) (peers : List (String × String)) (api : Api)
      → (polled : List Fields) (d : Fields) (t u v : State E) → peers_of (label api) peers ≡ []
      → events E api t ≡ (ok polled, u)
      → All NamesPeer polled
      → snapshot E api u ≡ (ok d, v)
      → connections d ≡ list nil
      → check_links E scenario phase peers api t ≡ (ok tt, v)
  unfolding check_links lift raise_unless pure
  check_links-passes scenario phase peers api polled d t u v none_expected got fine shot lone =
      bind-step (events E api) _ t got
      ∙ bind-step (for_each (check_stable E complaint (peers_of (label api) peers)) polled) _ u (
          ap (λ expected. for_each (check_stable E complaint expected) polled u) none_expected
          ∙ for_each-passes complaint polled u fine)
      ∙ bind-step (snapshot E api) _ u shot
      ∙ bind-step (lift (links_ready (peers_of (label api) peers) (connections d))) _ v (
          ap (λ r. (r, v))
            (ap (λ expected. links_ready expected (connections d)) none_expected
              ∙ ap (links_ready []) lone
              ∙ nothing_ready))
    where
      complaint : Message
      complaint =
          text scenario
            ∷ text ": transport instability on "
            ∷ text (label api)
            ∷ text " during phase "
            ∷ phase
          ++ text ": " ∷ []

  -- If all devices are given the same label, then the checks of the links expect no peer of any of
  -- them: the check of a device returns if its poll and its snapshot return, the snapshot lists no
  -- connection, and each event polled either tells of no lost or regained link and no failed
  -- attempt, or names a peer.
  pub equal_labels_expect_nothing :
      (runner : Runner) (name scenario : String) (phase : Message)
      → (peers : List (String × String)) (api : Api) (polled : List Fields) (d : Fields)
      → (s t u v : State E) → All (λ api. label api ≡ name) runner.apis
      → selected_peers E runner s ≡ (ok peers, t)
      → label api ≡ name
      → events E api t ≡ (ok polled, u)
      → All NamesPeer polled
      → snapshot E api u ≡ (ok d, v)
      → connections d ≡ list nil
      → (peers_of name peers ≡ []) × (check_links E scenario phase peers api t ≡ (ok tt, v))
  equal_labels_expect_nothing runner name scenario phase peers api polled d s t u v same h named got
        fine shot lone =
      let none_expected = no_peer_expected runner name peers s t same h in
      (
        none_expected,
        check_links-passes scenario phase peers api polled d t u v
            (ap (λ n. peers_of n peers) named ∙ none_expected) got fine shot lone,
      )
