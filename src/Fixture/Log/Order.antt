-- ===== src/Fixture/Log/Order.antt =====
-- The sequence numbers of the recorded events, where no entry of an event overwrites its number.
use local_peer_connections.Prelude.{
  ℕ, suc, ◌+◌, ◌≤◌, String, ◌≡◌, refl, sym, ◌∙◌, ap, true, false, Bool-cases, leb, some, List, [],
  ◌∷◌, ◌++◌, length, arith, str_eq, str_eq_iff, inl, inr, if◌then◌else◌,
}
use local_peer_connections.Prelude.Int.{ℤ, pos}
use local_peer_connections.Python.Value.{put, Value, Fields, int, field, end, get, get_or, as_int}
use local_peer_connections.Api.Cursor.{sequence}
use local_peer_connections.Fixture.Log.{spread, event, is_after, later}

abbrev pub Lacks : String → Fields → Type 0
Lacks key end = Unit
Lacks key (field k v d) = (str_eq k key ≡ false) × Lacks key d

get-put :
    (key k : String) (v : Value) (d : Fields)
    → str_eq k key ≡ false
    → get key (put k v d) ≡ get key d
unfolding get_or put
get-put key k v end h = rw h refl
get-put key k v (field j w d) h = elim (Bool-cases (str_eq j k)) [
  | inl same ↦ let e : j ≡ k = (str_eq_iff j k).0 same in rw same (rw e (rw h refl))
  | inr other ↦ rw other (ground (arith, get-put key k v d h))
]

get-spread :
    (key : String) (base details : Fields)
    → Lacks key details
    → get key (spread base details) ≡ get key base
unfolding spread
get-spread key base end h = refl
get-spread key base (field k v d) (h, t) =
    get-spread key (put k v base) d t ∙ get-put key k v base h

pub sequence-event :
    (n at_ms : ℕ) (type : String) (details : Fields)
    → Lacks "sequence" details
    → sequence (event n at_ms type details) ≡ some (pos n)
unfolding get_or str_eq spread
sequence-event n at_ms type details h = ap as_int (get-spread "sequence" _ details h ∙ numbered)
  where
    numbered : get "sequence" (event n at_ms type end) ≡ int (pos n)
    numbered = refl

-- The events are numbered one by one, from the number after `n` on.
abbrev pub Chain : ℕ → List Fields → Type 0
Chain n [] = Unit
Chain n (e ∷ es) = (sequence e ≡ some (pos (suc n))) × Chain (suc n) es

pub Chain-snoc :
    (n m : ℕ) (es : List Fields) (e : Fields)
    → Chain n es
    → n + length es ≡ m
    → sequence e ≡ some (pos (suc m))
    → Chain n (es ++ e ∷ [])
Chain-snoc n m [] e h k s = (let same : n ≡ m = omega arith in rw same s, tt)
Chain-snoc n m (x ∷ es) e h k s = (h.0, Chain-snoc (suc n) m es e h.1 (omega arith) s)

later-true :
    (after : ℤ) (e : Fields) (es : List Fields)
    → is_after after e ≡ true
    → later after (e ∷ es) ≡ e ∷ later after es
unfolding later
later-true after e es h = λ i. elim (h i) [ true ↦ e ∷ later after es | false ↦ later after es ]

pub later-false :
    (after : ℤ) (e : Fields) (es : List Fields)
    → is_after after e ≡ false
    → later after (e ∷ es) ≡ later after es
unfolding later
later-false after e es h = λ i. elim (h i) [ true ↦ e ∷ later after es | false ↦ later after es ]

pub is_after-sequence :
    (c n : ℕ) (e : Fields)
    → sequence e ≡ some (pos n)
    → is_after (pos c) e ≡ (if leb n c then false else true)
unfolding is_after
is_after-sequence c n e h = ground arith

pub later-append :
    (after : ℤ) (xs ys : List Fields) → later after (xs ++ ys) ≡ later after xs ++ later after ys
unfolding later
later-append after [] ys = refl
later-append after (x ∷ xs) ys = elim (Bool-cases (is_after after x)) [
  | inl h ↦
      later-true after x (xs ++ ys) h
      ∙ ap (λ (l : List Fields). x ∷ l) (later-append after xs ys)
      ∙ ap (λ (l : List Fields). l ++ later after ys) (sym (later-true after x xs h))
  | inr h ↦
      later-false after x (xs ++ ys) h
      ∙ later-append after xs ys
      ∙ ap (λ (l : List Fields). l ++ later after ys) (sym (later-false after x xs h))
]

-- What was numbered up to `c` is not sent again.
pub later-old :
    (c n : ℕ) (es : List Fields) → Chain n es → n + length es ≤ c → later (pos c) es ≡ []
unfolding later
later-old c n [] h k = refl
later-old c n (e ∷ es) (s, h) k =
    later-false (pos c) e es (is_after-sequence c (suc n) e s ∙ ground arith)
    ∙ later-old c (suc n) es h (omega arith)

-- What was numbered after `c` is sent.
pub later-new : (c n : ℕ) (es : List Fields) → Chain n es → c ≤ n → later (pos c) es ≡ es
unfolding later
later-new c n [] h k = refl
later-new c n (e ∷ es) (s, h) k =
    later-true (pos c) e es (is_after-sequence c (suc n) e s ∙ ground arith)
    ∙ ap (λ (l : List Fields). e ∷ l) (later-new c (suc n) es h (omega arith))
