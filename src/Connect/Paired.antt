-- ===== src/Connect/Paired.antt =====
-- What the variables of `both_ready` hold in each round of the wait of a connection attempt.
use local_peer_connections.Prelude.{
  ◌≤◌, String, ◌≡◌, refl, sym, ◌∙◌, ap, subst, Bool, true, false, Bool-cases, none, some, List, [],
  ◌∷◌, length, str_eq, str_eq_iff, All, Any, arith, ◌⊎◌, inl, inr, if◌then◌else◌,
}
use local_peer_connections.Python.Value.{Value, Fields, get, is_str, as_str}
use local_peer_connections.Exec.{Error, ok, Exec, pure, raise, ◌>>◌, or_raise, fold, lift}
use local_peer_connections.Exec.Inversion.{bind-ok, pure-ok, raise-ne-ok}
use local_peer_connections.World.{Env, State}
use local_peer_connections.Api.{Api, label, snapshot, command, events}
use local_peer_connections.Connect.{
  Pairing, unpaired, is_verified, put_sas, note_sas, confirmation, verify, handle_event,
  handle_events, both_ready,
}

-- No device is a key of the dict.
abbrev Lacks : String → List (String × String) → Type 0
Lacks device = All (λ (x : String × String). str_eq x.0 device ≡ false)

abbrev OneKeyEach : List (String × String) → Type 0
OneKeyEach [] = Unit
OneKeyEach (x ∷ rest) = Lacks x.0 rest × OneKeyEach rest

abbrev IsOf : String → String → String × String → Type 0
IsOf a b x = (x.0 ≡ a) ⊎ (x.0 ≡ b)

not_same_sym : (s t : String) → str_eq s t ≡ false → str_eq t s ≡ false
not_same_sym s t h = elim (Bool-cases (str_eq t s)) [
  | inl e ↦ absurd (let e' = (str_eq_iff s t).1 (sym ((str_eq_iff t s).0 e)) in cc)
  | inr e ↦ e
]

put_sas-Lacks :
    (device key sas : String) (known : List (String × String))
    → str_eq device key ≡ false
    → Lacks key known
    → Lacks key (put_sas device sas known)
unfolding put_sas
put_sas-Lacks device key sas [] e h = (e, tt)
put_sas-Lacks device key sas ((d, s) ∷ rest) e (p, h) =
    let later = put_sas-Lacks device key sas rest e h in
    elim (Bool-cases (str_eq d device)) [ inl q ↦ rw q (p, h) | inr q ↦ rw q (p, later) ]

put_sas-OneKeyEach :
    (device sas : String) (known : List (String × String))
    → OneKeyEach known
    → OneKeyEach (put_sas device sas known)
unfolding put_sas
put_sas-OneKeyEach device sas [] h = (tt, tt)
put_sas-OneKeyEach device sas ((d, s) ∷ rest) (p, h) =
    let later = put_sas-OneKeyEach device sas rest h in
    elim (Bool-cases (str_eq d device)) [
      | inl q ↦ rw q (p, h)
      | inr q ↦ rw q (put_sas-Lacks device d sas rest (not_same_sym d device q) p, later)
    ]

put_sas-IsOf :
    (a b device sas : String) (known : List (String × String))
    → (device ≡ a) ⊎ (device ≡ b)
    → All (IsOf a b) known
    → All (IsOf a b) (put_sas device sas known)
unfolding put_sas
put_sas-IsOf a b device sas [] e h = (e, tt)
put_sas-IsOf a b device sas ((d, s) ∷ rest) e (p, h) =
    let later = put_sas-IsOf a b device sas rest e h in
    elim (Bool-cases (str_eq d device)) [ inl q ↦ rw q (p, h) | inr q ↦ rw q (p, later) ]

note_sas-keeps :
    (Q : List (String × String) → Type 0) (device : String) (v : Value)
    → (known : List (String × String)) → Q known
    → ((sas : String) → Q (put_sas device sas known))
    → Q (note_sas device v known)
note_sas-keeps Q device v known old new =
    elim (as_str v) as (λ o. Q (elim o [ some sas ↦ put_sas device sas known | none ↦ known ])) [
      | some sas ↦ new sas
      | none ↦ old
    ]

-- The dict `sas_by_device` has at most one value of each of the two devices, and no other; before
-- a verification was seen, nothing is kept.
pub record Paired (a b : String) (p : Pairing) : Type 0 where
  pub one_each : OneKeyEach p.sas_by_device
  pub of_two : All (IsOf a b) p.sas_by_device
  pub untouched : p.saw_verification ≡ false → p ≡ unpaired

pub unpaired-Paired : (a b : String) → Paired a b unpaired
unpaired-Paired a b = record { one_each = tt; of_two = tt; untouched = λ _. refl }

-- Two keys of at most two are both of them, and with one value everywhere both have it.
pub both_shown :
    (a b sas : String) (known : List (String × String))
    → 2 ≤ length known
    → OneKeyEach known
    → All (IsOf a b) known
    → All (λ (x : String × String). x.1 ≡ sas) known
    → Any (λ x. x ≡ (a, sas)) known × Any (λ x. x ≡ (b, sas)) known
both_shown a b sas [] two keys of same = absurd (omega (arith, two))
both_shown a b sas (x ∷ []) two keys of same = absurd (omega (arith, two))
both_shown a b sas (x ∷ y ∷ rest) two ((differ, _), _) (of_x, (of_y, _)) (same_x, (same_y, _)) =
    cases of_x of_y
  where
    clash : y.0 ≡ x.0 → {A : Type 0} → A
    clash e = absurd (let e' = (str_eq_iff y.0 x.0).1 e in cc)

    cases :
        IsOf a b x
        → IsOf a b y
        → Any (λ z. z ≡ (a, sas)) (x ∷ y ∷ rest) × Any (λ z. z ≡ (b, sas)) (x ∷ y ∷ rest)
    cases (inl p) (inl q) = clash (q ∙ sym p)
    cases (inr p) (inr q) = clash (q ∙ sym p)
    cases (inl p) (inr q) = (inl (λ i. (p i, same_x i)), inr (inl (λ i. (q i, same_y i))))
    cases (inr p) (inl q) = (inr (inl (λ i. (q i, same_y i))), inl (λ i. (p i, same_x i)))

module _ (E : Env) (a b : String) where
  verify-Paired :
      (api : Api) (event : Fields) (p p' : Pairing) (s t : State E)
      → (label api ≡ a) ⊎ (label api ≡ b)
      → verify E api event p s ≡ (ok p', t)
      → Paired a b p
      → Paired a b p'
  unfolding verify
  verify-Paired api event p p' s t mine h inv =
      let (peer, u, named, h1) = bind-ok (or_raise (as_str (get "peerId" event)) _) _ s p' t h in
      again peer (is_verified (label api) peer p.verified) u h1
    where
      after : (peer : String) → Pairing
      after peer = record {
        verified = (label api, peer) ∷ p.verified;
        sas_by_device = note_sas (label api) (get "sas" event) p.sas_by_device;
        saw_verification = true;
      }

      again :
          (peer : String) (known : Bool) (u : State E)
          → (if known then pure p else (do
            command E api "confirmVerification" (confirmation peer) none
            pure (after peer)))
              u
            ≡ (ok p', t)
          → Paired a b p'
      again peer true u k = subst (Paired a b) (pure-ok p p' u t k).0 inv
      again peer false u k =
          let (x, v, sent, k1) =
            bind-ok (command E api "confirmVerification" (confirmation peer) none) _ u p' t k in
          let note = λ (Q : List (String × String) → Type 0).
            note_sas-keeps Q (label api) (get "sas" event) p.sas_by_device in
          subst (Paired a b) (pure-ok (after peer) p' v t k1).0 (record {
            one_each =
                note OneKeyEach inv.one_each
                  (λ sas. put_sas-OneKeyEach (label api) sas p.sas_by_device inv.one_each);
            of_two =
                note (All (IsOf a b)) inv.of_two
                  (λ sas. put_sas-IsOf a b (label api) sas p.sas_by_device mine inv.of_two);
            untouched = λ seen. cc;
          })

  handle_event-Paired :
      (api : Api) (event : Fields) (p p' : Pairing) (s t : State E)
      → (label api ≡ a) ⊎ (label api ≡ b)
      → handle_event E api event p s ≡ (ok p', t)
      → Paired a b p
      → Paired a b p'
  unfolding handle_event
  handle_event-Paired api event p p' s t mine h inv =
      handled (is_str "connectFailed" (get "type" event))
        (is_str "verificationRequired" (get "type" event)) _ h
    where
      handled :
          (failed required : Bool) (e : Error)
          → (if failed then raise e else if required then verify E api event p else pure p) s
            ≡ (ok p', t)
          → Paired a b p'
      handled true required e k = absurd (raise-ne-ok e p' s t k)
      handled false true e k = verify-Paired api event p p' s t mine k inv
      handled false false e k = subst (Paired a b) (pure-ok p p' s t k).0 inv

  fold-Paired :
      {A : Type 0} (Q : A → Type 0) (m : A → Pairing → Exec (State E) Pairing)
      → ((x : A) (p p' : Pairing) (s t : State E)
          → Q x
          → m x p s ≡ (ok p', t)
          → Paired a b p
          → Paired a b p')
      → (l : List A) (p p' : Pairing) (s t : State E) → All Q l
      → fold m l p s ≡ (ok p', t)
      → Paired a b p
      → Paired a b p'
  unfolding fold
  fold-Paired Q m step [] p p' s t q h inv = subst (Paired a b) (pure-ok p p' s t h).0 inv
  fold-Paired Q m step (x ∷ l) p p' s t (q, qs) h inv =
      let (p1, u, one, h1) = bind-ok (m x p) _ s p' t h in
      fold-Paired Q m step l p1 p' u t qs h1 (step x p p1 s u q one inv)

  any_All : {A : Type 0} (l : List A) → All {A = A} (λ _. Unit {0}) l
  any_All [] = tt
  any_All (x ∷ l) = (tt, any_All l)

  handle_events-Paired :
      (api : Api) (p p' : Pairing) (s t : State E)
      → (label api ≡ a) ⊎ (label api ≡ b)
      → handle_events E api p s ≡ (ok p', t)
      → Paired a b p
      → Paired a b p'
  unfolding handle_events
  handle_events-Paired api p p' s t mine h inv =
      let (polled, u, got, h1) = bind-ok (events E api) _ s p' t h in
      fold-Paired (λ _. Unit {0}) (handle_event E api)
        (λ event q q' v w _. handle_event-Paired api event q q' v w mine) polled p p' u t
        (any_All polled) h1 inv

pub both_ready-Paired :
    (E : Env) (source target : Api) (p p' : Pairing) (b : Bool) (s t : State E)
    → both_ready E source target p s ≡ (ok (b, p'), t)
    → Paired (label source) (label target) p
    → Paired (label source) (label target) p'
unfolding both_ready
both_ready-Paired E source target p p' b s t h inv =
    let (q, u, handled, h1) =
      bind-ok (fold (handle_events E) (source ∷ target ∷ []) p) _ s (b, p') t h in
    let (d, v, first, h2) = bind-ok (snapshot E source) _ u (b, p') t h1 in
    let (d', w, second, h3) = bind-ok (snapshot E target) _ v (b, p') t h2 in
    let (ready, x, lifted, h4) = bind-ok (lift _) _ w (b, p') t h3 in
    let (same, xt) = pure-ok (ready, q) (b, p') x t h4 in
    subst (Paired (label source) (label target)) (ap (λ (y : Bool × Pairing). y.1) same) (
      fold-Paired E (label source) (label target)
        (λ api. (label api ≡ label source) ⊎ (label api ≡ label target)) (handle_events E)
        (λ api q q' v w mine.
          handle_events-Paired E (label source) (label target) api q q' v w mine)
        (source ∷ target ∷ []) p q s u (inl refl, (inr refl, tt)) handled inv)
