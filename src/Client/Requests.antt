-- ===== src/Client/Requests.antt =====
-- The client sends the requests that the runner's `DeviceApi` sends.
use Prim.Native.Char.{Char, code}
use text.Mathlib.TextLemmas.{nil-append, cons-append, append_assoc, append-ne-nil_of_right_ne-nil}
use local_peer_connections.Prelude.{
  String, ◌<>◌, ◌≡◌, ◌≢◌, refl, sym, ap, true, arith, ◌∙◌, false, Option, none, some, ◌⊎◌, inl, inr,
  ◌==◌, if◌then◌else◌,
}
use local_peer_connections.Prelude.Int.{ℤ}
use local_peer_connections.Python.Value.{Value, Fields, dict}
use local_peer_connections.Python.Text.{show_int, to_int, is_digit, signed, skip_spaces, trim_end}
use local_peer_connections.Python.Text.Decimal.{Plain, is_plain, show_int-Plain, to_int-show_int}
use local_peer_connections.Api.{
  Api, base as device_base, json_headers, request_to, command_body as device_command,
}
use local_peer_connections.Client.{
  Arguments, Operation, base, command_body, health, snapshot, events, command, rstrip, make_request,
  request_of,
}

-- What `rstrip` does with a character before the stripped rest.
keep_end :
    (c : Char) (s : String)
    → s ≢ "" ⊎ ((code c == b'/') ≡ false)
    → (elim s as (λ _. String) [
      | String.[] ↦ if code c == b'/' then String.[] else String.◌∷◌ c String.[]
      | String.◌∷◌ d t ↦ String.◌∷◌ c (String.◌∷◌ d t)
    ])
      ≡ String.◌∷◌ c s
keep_end c String.[] (inl h) = absurd (h refl)
keep_end c String.[] (inr e) = rw e refl
keep_end c (String.◌∷◌ d t) h = refl

not_slash : (c : Char) → is_plain c ≡ true → (code c == b'/') ≡ false
unfolding is_digit
not_slash c h = ground arith

rstrip-Plain : (s : String) → Plain s → rstrip s ≡ s
unfolding rstrip
rstrip-Plain String.[] h = refl
rstrip-Plain (String.◌∷◌ c s) (p, h) =
    keep_end c (rstrip s) (inr (not_slash c p)) ∙ ap (String.◌∷◌ c) (rstrip-Plain s h)

-- A text that ends with one that `rstrip` keeps.
rstrip-join : (left s : String) → s ≢ "" → rstrip s ≡ s → rstrip (left <> s) ≡ left <> s
unfolding rstrip
rstrip-join String.[] s h k = ap rstrip (nil-append s) ∙ k ∙ sym (nil-append s)
rstrip-join (String.◌∷◌ c left) s h k =
    let rest = rstrip-join left s h k in
    ap rstrip (cons-append c left s)
    ∙ keep_end c (rstrip (left <> s))
        (inl (λ e. append-ne-nil_of_right_ne-nil left h (sym rest ∙ e)))
    ∙ ap (String.◌∷◌ c) rest
    ∙ sym (cons-append c left s)

show_int-ne-empty : (n : ℤ) → show_int n ≢ ""
unfolding to_int skip_spaces trim_end signed
show_int-ne-empty n e = let h : none ≡ some n = ap to_int (sym e) ∙ to_int-show_int n in cc

-- A port's text is neither empty nor ends with a slash, so that the client's base stays as it is.
rstrip-base :
    (host : String) (n : ℤ) → let s = "http://" <> (host <> (":" <> show_int n)) in rstrip s ≡ s
rstrip-base host n =
    let e = show_int-ne-empty n in
    let e1 = append-ne-nil_of_right_ne-nil ":" e in
    rstrip-join _ _ (append-ne-nil_of_right_ne-nil host e1)
      (rstrip-join _ _ e1 (rstrip-join _ _ e (rstrip-Plain _ (show_int-Plain n))))

local_base :
    (n : ℤ) → "http://" <> ("127.0.0.1" <> (":" <> show_int n)) ≡ "http://127.0.0.1:" <> show_int n
local_base n =
    sym (append_assoc "http://" "127.0.0.1" (":" <> show_int n))
    ∙ sym (append_assoc "http://127.0.0.1" ":" (show_int n))

-- The arguments with which the client is called for the device of `api`.
abbrev pub called_for : Api → Operation → Arguments
called_for api operation = record {
  host = "127.0.0.1";
  port = api.device.port;
  operation = operation;
}

same_request :
    (api : Api) (method path : String) (body : Option Value) (operation : Operation)
    → make_request (base (called_for api operation)) method path body
      ≡ request_to api method path body
unfolding make_request base device_base
same_request api method path body operation =
    ap (λ u. record { url = u <> path; body = body; method = method; headers = json_headers body })
      (rstrip-base "127.0.0.1" api.device.port ∙ local_base api.device.port)

module _ (loads : String → String ⊎ Value) (api : Api) where
  -- For a device on this machine, the client sends the requests of `DeviceApi` for the health, for
  -- a snapshot, and for the events behind a cursor; and if its text is the JSON of an object, that
  -- of `DeviceApi.command` with this object.
  pub request_of-DeviceApi :
      (cursor : ℤ) (action arguments : String) (d : Fields)
      → loads arguments ≡ inr (dict d)
      → (request_of loads (called_for api health) ≡ inr (request_to api "GET" "/health" none))
        × (request_of loads (called_for api snapshot) ≡ inr (request_to api "GET" "/snapshot" none))
        × (request_of loads (called_for api (events cursor))
            ≡ inr (request_to api "GET" ("/events?after=" <> show_int cursor) none))
        × (request_of loads (called_for api (command action arguments))
            ≡ inr (request_to api "POST" "/command" (some (device_command action d))))
  unfolding request_of command_body
  request_of-DeviceApi cursor action arguments d h = (
    ap inr (same_request api "GET" "/health" none health),
    ap inr (same_request api "GET" "/snapshot" none snapshot),
    ap inr (
        same_request api "GET" _ none (events cursor)
        ∙ ap (λ path. request_to api "GET" path none)
            (sym (append_assoc "/events?" "after=" (show_int cursor)))),
    rw h (ap inr (same_request api "POST" "/command" _ (command action arguments))),
  )
