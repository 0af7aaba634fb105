-- ===== src/Client/Exit.antt =====
-- How a run of the client ends, and what has been sent.
use local_peer_connections.Prelude.{◌≡◌, [], ◌∷◌, ◌⊎◌, inl, inr, String}
use local_peer_connections.Python.Value.{Value}
use local_peer_connections.Exec.{
  text, Message, Error, builtin, timeout_error, connection_error, json_error, system_exit, Result,
  ok, err,
}
use local_peer_connections.World.{
  Request, http_error, url_error, timed_out, connection_reset, Reply, response, unavailable,
  garbled, Env, State,
}
use local_peer_connections.Client.{Arguments, Ending, printed, reported, exit_status, request_of}
use local_peer_connections.Api.{urlopen}

-- The replies for which the client ends with an exception, and which one.
abbrev pub Uncaught : Reply → Error → Type 0
Uncaught reply e =
    ((x : String) × (reply ≡ unavailable timed_out x) × (e ≡ builtin timeout_error))
    ⊎ ((x : String) × (reply ≡ unavailable connection_reset x) × (e ≡ builtin connection_error))
    ⊎ ((reply ≡ garbled) × (e ≡ builtin json_error))

-- What the end of a run owes to the reply.
pub record Concluded (reply : Reply) (result : Result Ending) : Type 0 where
  pub answered : (v : Value) → reply ≡ response v → result ≡ ok (printed v)
  pub rejected :
      (body x : String)
      → reply ≡ unavailable (http_error body) x
      → result ≡ ok (reported (text body ∷ []))
  pub unreachable :
      (x : String)
      → reply ≡ unavailable url_error x
      → result ≡ ok (reported (text "cannot reach device control API: " ∷ text x ∷ []))
  pub uncaught : (e : Error) → result ≡ err e → Uncaught reply e
  pub zero_only : exit_status result ≡ 0 → (v : Value) × (reply ≡ response v)

module _ (loads : String → String ⊎ Value) (E : Env) where
  -- How a run of the client may end, from `s`.
  abbrev pub ClientEnds : Arguments → State E → Result Ending → State E → Type 0
  ClientEnds args s result t =
      ((m : Message) × (request_of loads args ≡ inl m)
        × (result ≡ err (builtin (system_exit m)))
        × (t ≡ s))
      ⊎ ((r : Request) × (request_of loads args ≡ inr r)
          × (t ≡ record s { world = (E.urlopen r 30000 s.world).1 })
          × Concluded (E.urlopen r 30000 s.world).0 result)
