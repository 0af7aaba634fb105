-- ===== src/Api/Cursor.antt =====
-- The event cursor of a `DeviceApi`, and the events that a poll hands on.
use local_peer_connections.Prelude.{
  ◌≡◌, refl, ◌∙◌, Option, none, some, List, [], ◌∷◌, arith, All, Any, ◌⊎◌, inl, inr,
}
use local_peer_connections.Prelude.Int.{
  ℤ, max_ℤ, ◌≤ℤ◌, ≤ℤ_refl, ≤ℤ_trans, le-max_left, le-max_right,
}
use local_peer_connections.Python.Value.{Value, Fields, null, dict, get, as_int}
use local_peer_connections.Api.{advance, advance_all, dicts}

-- The sequence number of an event, if it has an integer one.
abbrev pub sequence : Fields → Option ℤ
sequence event = as_int (get "sequence" event)

abbrev pub Within : ℤ → Option ℤ → Type 0
Within c none = Unit
Within c (some n) = n ≤ℤ c

pub le-advance : (c : ℤ) (v : Value) → c ≤ℤ advance c v
unfolding advance
le-advance c (dict event) =
    elim (as_int (get "sequence" event)) as (λ o. c ≤ℤ (elim o [ some n ↦ max_ℤ c n | none ↦ c ])) [
      | some n ↦ le-max_left c n
      | none ↦ ≤ℤ_refl c
    ]
le-advance c null = ≤ℤ_refl c
le-advance c _ = ≤ℤ_refl c

pub le-advance_all : (c : ℤ) (vs : List Value) → c ≤ℤ advance_all c vs
unfolding advance_all
le-advance_all c [] = ≤ℤ_refl c
le-advance_all c (v ∷ vs) =
    ≤ℤ_trans c (advance c v) _ (le-advance c v) (le-advance_all (advance c v) vs)

Within-trans : (c d : ℤ) (o : Option ℤ) → c ≤ℤ d → Within c o → Within d o
Within-trans c d none h k = tt
Within-trans c d (some n) h k = ≤ℤ_trans n c d k h

Within-advance : (c : ℤ) (event : Fields) → Within (advance c (dict event)) (sequence event)
unfolding advance
Within-advance c event =
    elim (as_int (get "sequence" event))
      as (λ o. Within (elim o [ some n ↦ max_ℤ c n | none ↦ c ]) o) [
        | some n ↦ le-max_right c n
        | none ↦ tt
      ]

pub Within-advance_all :
    (c : ℤ) (vs : List Value) → All (λ e. Within (advance_all c vs) (sequence e)) (dicts vs)
unfolding advance_all dicts advance
Within-advance_all c [] = tt
Within-advance_all c (dict e ∷ vs) = (
  Within-trans _ _ (sequence e) (le-advance_all (advance c (dict e)) vs) (Within-advance c e),
  Within-advance_all (advance c (dict e)) vs,
)
Within-advance_all c (null ∷ vs) = Within-advance_all c vs
Within-advance_all c (_ ∷ vs) = Within-advance_all c vs

advance_cases :
    (c : ℤ) (event : Fields)
    → (advance c (dict event) ≡ c) ⊎ (sequence event ≡ some (advance c (dict event)))
unfolding advance max_ℤ
advance_cases c event = ground arith

-- Where the cursor may be after a poll that handed on the events.
abbrev pub Reached : ℤ → ℤ → List Fields → Type 0
Reached c c' events = (c' ≡ c) ⊎ Any (λ e. sequence e ≡ some c') events

Reached-cons :
    (c c' : ℤ) (e : Fields) (events : List Fields)
    → Reached (advance c (dict e)) c' events
    → Reached c c' (e ∷ events)
Reached-cons c c' e events (inr h) = inr (inr h)
Reached-cons c c' e events (inl h) = elim (advance_cases c e) [
  | inl same ↦ inl (h ∙ same)
  | inr new ↦ inr (inl (rw h new))
]

pub Reached-advance_all : (c : ℤ) (vs : List Value) → Reached c (advance_all c vs) (dicts vs)
unfolding advance_all dicts advance
Reached-advance_all c [] = inl refl
Reached-advance_all c (dict e ∷ vs) =
    Reached-cons c _ e (dicts vs) (Reached-advance_all (advance c (dict e)) vs)
Reached-advance_all c (null ∷ vs) = Reached-advance_all c vs
Reached-advance_all c (_ ∷ vs) = Reached-advance_all c vs
