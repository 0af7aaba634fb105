-- ===== src/Tests/Examples.antt =====
-- The theorems at concrete inputs.
use local_peer_connections.Prelude.{◌≡◌, refl, true, [], ◌∷◌, str_eq}
use local_peer_connections.Python.Value.{get_or, is_str, truthy, elements}
use local_peer_connections.Python.Text.{keep, show, show_int}
use local_peer_connections.Exec.{
  ok, err, pure, raise, lift, catch, raise_if, or_raise, fold, and_then, ok_or, ◌>>=◌,
}
use local_peer_connections.World.{url_error, State}
use local_peer_connections.Loop.{monotonic, sleep, while_before, loop_for, poll, wait}
use local_peer_connections.Api.{
  base, value_get, advance, advance_all, dicts, set_cursor, request, snapshot, events, command,
}
use local_peer_connections.Endpoint.{hint, is_match, choose, endpoint_id, select_endpoint, endpoint}
use local_peer_connections.Connect.{
  put_sas, any_ready, is_ready_with, ready_together, verify, handle_event, handle_events,
  both_ready, endpoint_available, check_sas, await_pairing, connect,
}
use local_peer_connections.Exec.{Message, text, failure}
use local_peer_connections.Exec.Contract.{Keeps}
use local_peer_connections.Prelude.{none}
use local_peer_connections.Python.Value.{Value, list, cons, nil, dict, field, end, str}
use local_peer_connections.World.{unavailable}
use local_peer_connections.Loop.Forward.{total}
use local_peer_connections.Loop.Sound.{WaitEnds, wait_ends}
use local_peer_connections.Prelude.{List}
use local_peer_connections.Prelude.Int.{pos, max_ℤ}
use local_peer_connections.Python.Value.{Fields, int}
use local_peer_connections.Api.Polled.{Polled, events-Polled}
use local_peer_connections.Exec.{for_each, all_of}
use local_peer_connections.Exec.Each.{Chain}
use local_peer_connections.Runner.{
  Test, wait_for_event, wait_until, presence_started, check_health, preflight, reset_all,
}
use local_peer_connections.Runner.Reset.{WasReset, IsHealthy, IsPresent, reset_all-Reset}
use local_peer_connections.Runner.Found.{EventEnds, wait_for_event_ends}
use local_peer_connections.Endpoint.Choice.{Chosen, select_endpoint-Chosen}
use local_peer_connections.Connect.{unpaired, endpoint_arguments, cancel}
use local_peer_connections.Connect.Total.{Keeps-both_ready, Keeps-connect}
use local_peer_connections.Connect.Verified.{Connected, connect_sound, await_pairing-failure}
use local_peer_connections.Tests.{
  network, silence, answer, network_of-IsEnv, alpha, beta, pair, start, start_silence,
}

connected : State network
connected = (connect network pair alpha beta start).1

connect_run : connect network pair alpha beta start ≡ (ok true, connected)
unfolding str_eq get_or is_str truthy elements keep show show_int pure raise lift catch raise_if
    or_raise fold and_then ok_or ◌>>=◌ monotonic sleep while_before loop_for poll wait base
    value_get advance advance_all dicts set_cursor request snapshot events command hint is_match
    choose endpoint_id select_endpoint endpoint put_sas any_ready is_ready_with ready_together
    verify handle_event handle_events both_ready endpoint_available check_sas await_pairing connect
    connected
connect_run = refl

connect_sound_example :
    Connected network (network_of-IsEnv answer) pair alpha beta true start connected
connect_sound_example =
    connect_sound network (network_of-IsEnv answer) pair alpha beta true start connected connect_run

Keeps-connect_example :
    Keeps (total network (network_of-IsEnv answer)) (connect network pair alpha beta)
Keeps-connect_example = Keeps-connect network (network_of-IsEnv answer) pair alpha beta

polled : List Fields
polled =
    field "sequence" (int (pos 7)) (
      field "type" (str "verificationRequired")
        (field "peerId" (str "B") (field "sas" (str "4711") end)))
    ∷ []

polled_at : State network
polled_at = (events network alpha start).1

poll_run : events network alpha start ≡ (ok polled, polled_at)
unfolding str_eq get_or is_str truthy elements keep show show_int pure raise lift or_raise and_then
    ok_or ◌>>=◌ base value_get advance advance_all dicts set_cursor request events max_ℤ polled
    polled_at
poll_run = refl

events-Polled_example : Polled network alpha polled start polled_at
events-Polled_example = events-Polled network alpha polled start polled_at poll_run

fresh : State network
fresh = (reset_all network pair start).1

reset_run : reset_all network pair start ≡ (ok tt, fresh)
unfolding str_eq get_or is_str truthy elements keep show show_int pure raise lift or_raise raise_if
    and_then ok_or ◌>>=◌ base value_get advance advance_all dicts set_cursor request snapshot events
    command max_ℤ monotonic sleep while_before loop_for poll wait wait_until for_each all_of
    presence_started check_health preflight reset_all fresh
reset_run = refl

reset_all-Reset_example :
    (u v w : State network) × Chain (WasReset network) pair.apis start u
    × Chain (IsHealthy network) pair.apis u v
    × (wait_until network
          (all_of (presence_started network) pair.apis)
          (text "presence on every device" ∷ [])
          30000
          v
        ≡ (ok tt, fresh))
    × Chain (IsPresent network) pair.apis w fresh
reset_all-Reset_example =
    reset_all-Reset network (network_of-IsEnv answer) pair tt start fresh reset_run

description : Message
description = text "the pair" ∷ []

wait_ends_example :
    WaitEnds network
      (network_of-IsEnv answer)
      (both_ready network alpha beta)
      description
      1000
      start
      (wait network (both_ready network alpha beta) description 1000 unpaired start).0
      (wait network (both_ready network alpha beta) description 1000 unpaired start).1
wait_ends_example =
    wait_ends network (network_of-IsEnv answer) (both_ready network alpha beta)
      (Keeps-both_ready network (network_of-IsEnv answer) alpha beta) description 1000 unpaired
      start

abbrev any_event : Test
any_event d = ok true

wait_for_event_ends_example :
    EventEnds network
      (network_of-IsEnv answer)
      alpha
      "verificationRequired"
      any_event
      (λ d. tt)
      1000
      start
      (wait_for_event network alpha "verificationRequired" any_event 1000 start).0
      (wait_for_event network alpha "verificationRequired" any_event 1000 start).1
wait_for_event_ends_example =
    wait_for_event_ends network (network_of-IsEnv answer) alpha "verificationRequired" any_event
      (λ d. tt) 1000 start

refused : Message
refused = text "alpha" ∷ text ": control API unavailable: " ∷ text "refused" ∷ []

unanswered : State silence
unanswered = (await_pairing silence pair alpha beta "e1" start_silence).1

unanswered_run :
    await_pairing silence pair alpha beta "e1" start_silence ≡ (err (failure refused), unanswered)
unfolding str_eq get_or is_str truthy elements keep show show_int pure raise lift catch raise_if
    or_raise fold and_then ok_or ◌>>=◌ monotonic sleep while_before loop_for poll wait base
    value_get advance advance_all dicts set_cursor request snapshot events command hint is_match
    choose endpoint_id select_endpoint endpoint put_sas any_ready is_ready_with ready_together
    verify handle_event handle_events both_ready endpoint_available check_sas cancel await_pairing
    connect unanswered refused
unanswered_run = refl

await_pairing-failure_example :
    (u : State silence) × (wait silence
        (both_ready silence alpha beta)
        (text "authenticated connection " ∷ text "alpha" ∷ text "->" ∷ text "beta" ∷ [])
        15000
        unpaired
        start_silence
      ≡ (err (failure refused), u))
    × (unanswered
        ≡ (command silence alpha "cancelConnect" (endpoint_arguments silence "e1") none u).1)
await_pairing-failure_example =
    await_pairing-failure silence (network_of-IsEnv (λ url. unavailable url_error "refused")) pair
      alpha beta "e1" refused start_silence unanswered unanswered_run

two_endpoints : Value
two_endpoints = list (
    cons (dict (field "id" (str "e1") (field "localName" (str "beta") end)))
      (cons (dict (field "id" (str "e2") (field "localName" (str "gamma") end))) nil))

chosen_e2 : select_endpoint network "alpha" "gamma" two_endpoints ≡ ok "e2"
unfolding str_eq get_or is_str truthy elements keep show show_int pure raise lift catch raise_if
    or_raise fold and_then ok_or ◌>>=◌ monotonic sleep while_before loop_for poll wait base
    value_get advance advance_all dicts set_cursor request snapshot events command hint is_match
    choose endpoint_id select_endpoint endpoint put_sas any_ready is_ready_with ready_together
    verify handle_event handle_events both_ready endpoint_available check_sas await_pairing connect
    two_endpoints
chosen_e2 = refl

select_endpoint-Chosen_example : Chosen network "gamma" two_endpoints "e2"
select_endpoint-Chosen_example =
    select_endpoint-Chosen network "alpha" "gamma" "e2" two_endpoints chosen_e2
