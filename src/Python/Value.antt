-- ===== src/Python/Value.antt =====
-- The values that `json.load` returns, and the operations that the tools apply to a value whose
-- type they have not tested. A dict keeps its entries in order, one for each key.
use local_peer_connections.Prelude.{
  ℕ, ◌+◌, ◌-◌, ◌*◌, ◌^◌, String, Bool, true, false, Option, none, some, List, [], ◌∷◌, ◌==◌, str_eq,
  any, length, ◌&&◌, if◌then◌else◌,
}
use text.Mathlib.Text.{find?}
use local_peer_connections.Prelude.Int.{ℤ, pos, negsuc}

mutual
  pub data Value : Type 0 where
    null : Value
    boolean : Bool → Value
    int : ℤ → Value
    -- `float m k` is m / 2 ^ k: every finite double is of this form.
    float : ℤ → ℕ → Value
    str : String → Value
    list : Values → Value
    dict : Fields → Value

  pub data Values : Type 0 where
    nil : Values
    cons : Value → Values → Values

  pub data Fields : Type 0 where
    end : Fields
    field : String → Value → Fields → Fields

abbrev pub to_list : Values → List Value
to_list nil = []
to_list (cons v vs) = v ∷ to_list vs

abbrev pub of_list : List Value → Values
of_list [] = nil
of_list (v ∷ vs) = cons v (of_list vs)

-- `d.get(key, default)`
unfoldable pub get_or : String → Value → Fields → Value
get_or key default end = default
get_or key default (field k v d) = if str_eq k key then v else get_or key default d

-- `d.get(key)`
abbrev pub get : String → Fields → Value
get key d = get_or key null d

-- `isinstance(v, str)`, `isinstance(v, dict)`, with the value.
abbrev pub as_str : Value → Option String
as_str (str s) = some s
as_str _ = none

abbrev pub as_dict : Value → Option Fields
as_dict (dict d) = some d
as_dict _ = none

-- `isinstance(v, int)`: a Boolean is the integer 0 or 1.
abbrev pub as_int : Value → Option ℤ
as_int (int n) = some n
as_int (boolean true) = some (pos 1)
as_int (boolean false) = some (pos 0)
as_int _ = none

abbrev pub same_int : ℤ → ℤ → Bool
same_int (pos a) (pos b) = a == b
same_int (negsuc a) (negsuc b) = a == b
same_int _ _ = false

-- `v == "literal"`
unfoldable pub is_str : String → Value → Bool
is_str s v = elim v [ str t ↦ str_eq t s | _ ↦ false ]

-- `v == 64`: integers, Booleans and floats compare by value.
unfoldable pub is_number : ℕ → Value → Bool
is_number n (int m) = same_int m (pos n)
is_number n (boolean b) = same_int (if b then pos 1 else pos 0) (pos n)
is_number n (float m k) = same_int m (pos (n * 2 ^ k))
is_number n _ = false

-- `v is True`, `v is False`, `v is None`
abbrev pub is_true : Value → Bool
is_true (boolean b) = b
is_true _ = false

abbrev pub is_false : Value → Bool
is_false (boolean true) = false
is_false (boolean false) = true
is_false _ = false

abbrev pub is_none : Value → Bool
is_none null = true
is_none _ = false

-- `bool(v)`
unfoldable pub truthy : Value → Bool
truthy null = false
truthy (boolean b) = b
truthy (int (pos n)) = if n == 0 then false else true
truthy (int (negsuc n)) = true
truthy (float (pos n) k) = if n == 0 then false else true
truthy (float (negsuc n) k) = true
truthy (str s) = if str_eq s "" then false else true
truthy (list nil) = false
truthy (list (cons v vs)) = true
truthy (dict end) = false
truthy (dict (field k v d)) = true

abbrev pub keys : Fields → List Value
keys end = []
keys (field k v d) = str k ∷ keys d

-- The characters of a text, each a text.
abbrev pub characters : String → List Value
characters String.[] = []
characters (String.◌∷◌ c s) = str (String.◌∷◌ c String.[]) ∷ characters s

-- What `for x in v` walks, if `v` can be walked.
unfoldable pub elements : Value → Option (List Value)
elements (list vs) = some (to_list vs)
elements (dict d) = some (keys d)
elements (str s) = some (characters s)
elements _ = none

-- `text in v`, where `v` may be a text, a list or a dict.
unfoldable pub holds_text : String → Value → Option Bool
holds_text t (str s) = some (elim (find? s t) [ none ↦ false | some i ↦ true ])
holds_text t (list vs) = some (any (is_str t) (to_list vs))
holds_text t (dict d) = some (any (is_str t) (keys d))
holds_text t _ = none

-- `d[key]`, if the key is there.
unfoldable pub find_field : String → Fields → Option Value
find_field key end = none
find_field key (field k v d) = if str_eq k key then some v else find_field key d

-- `d[key] = v`
unfoldable pub put : String → Value → Fields → Fields
put key v end = field key v end
put key v (field k w d) = if str_eq k key then field k v d else field k w (put key v d)

-- `len(v)`, if `v` has a length.
unfoldable pub value_length : Value → Option ℕ
value_length v = elim (elements v) [ some vs ↦ some (length vs) | none ↦ none ]

-- A number as m / 2 ^ k.
abbrev pub as_number : Value → Option (ℤ × ℕ)
as_number (int m) = some (m, 0)
as_number (boolean true) = some (pos 1, 0)
as_number (boolean false) = some (pos 0, 0)
as_number (float m k) = some (m, k)
as_number _ = none

abbrev pub scaled_int : ℤ → ℕ → ℤ
scaled_int (pos n) k = pos (n * 2 ^ k)
scaled_int (negsuc n) k = negsuc ((n + 1) * 2 ^ k - 1)

abbrev pub same_number : ℤ → ℕ → Value → Bool
same_number m k v = elim (as_number v) [
  | some (n, j) ↦ same_int (scaled_int m j) (scaled_int n k)
  | none ↦ false
]

-- `v == w`: numbers by value, lists element by element, dicts with the same entries in any order.
unfoldable mutual
  pub same_value : Value → Value → Bool
  same_value null w = is_none w
  same_value (boolean true) w = same_number (pos 1) 0 w
  same_value (boolean false) w = same_number (pos 0) 0 w
  same_value (int m) w = same_number m 0 w
  same_value (float m k) w = same_number m k w
  same_value (str s) w = is_str s w
  same_value (list vs) w = elim w [ list ws ↦ same_values vs ws | _ ↦ false ]
  same_value (dict d) w = elim w [
    | dict e ↦ (length (keys d) == length (keys e)) && has_fields d e
    | _ ↦ false
  ]

  pub same_values : Values → Values → Bool
  same_values nil ws = elim ws [ nil ↦ true | cons w rest ↦ false ]
  same_values (cons v vs) ws = elim ws [
    | nil ↦ false
    | cons w rest ↦ same_value v w && same_values vs rest
  ]

  pub has_fields : Fields → Fields → Bool
  has_fields end e = true
  has_fields (field k v d) e =
      elim (find_field k e) [ some w ↦ same_value v w | none ↦ false ] && has_fields d e
