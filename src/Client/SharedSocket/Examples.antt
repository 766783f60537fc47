-- ===== src/Client/SharedSocket/Examples.antt =====
-- src/shared-websocket.ts on a concrete run.
use vip_real_time_collaborat.Base.{
  ◌+◌, ◌≤◌, ◌<◌, ◌≡◌, ◌⊎◌, refl, inl, inr, false, Option, none, some, List, [], ◌∷◌,
}
use vip_real_time_collaborat.Base.Text.{Text, text, ◌===◌}
use vip_real_time_collaborat.Packages.{closed, connecting, opened, closing}
use vip_real_time_collaborat.Packages.Sample.{put, sample_laws, sample_lib0, sample_ws}
use vip_real_time_collaborat.Protocol.{
  ProtocolMessage, subscribe, unsubscribe, encode_message, write_string, write_fields,
  decode_message, read_fields,
}
use vip_real_time_collaborat.Protocol.Reader.{ok, read_var_uint, read_string, assert_done}
use vip_real_time_collaborat.Client.SharedSocket.{
  Physical, Shared, new_shared, parse_room_url, detached_ready, Notice, on_open, on_error, on_close,
  Calls, returns, closes,
}
use vip_real_time_collaborat.Client.SharedSocket.Listeners.{
  Event, constructed, close_called, signalled, Signal, signal_open, signal_message, signal_error,
  signal_close, step, run,
}
use vip_real_time_collaborat.Client.SharedSocket.Idle.{IsTidy, CloseStops}
use vip_real_time_collaborat.Client.SharedSocket.Asked.{run-decode_message}
use vip_real_time_collaborat.Protocol.RoundTrip.{TextsWellFormed}
use vip_real_time_collaborat.Client.SharedSocket.Heard.{closes_of, step-closes_of}
use vip_real_time_collaborat.Client.SharedSocket.Counts.{sockets_of}
use vip_real_time_collaborat.Client.SharedSocket.Once.{run-closes_of}
use vip_real_time_collaborat.Client.SharedSocket.Runs.{run-IsTidy}

abbrev search_get : Text → Option Text
search_get query = some (text "t")

room_url :
    parse_room_url search_get (text "ws://h/r/1?auth=t") (text "ws://h/")
    ≡ some (text "t", text "r/1")
unfolding parse_room_url
room_url = refl

-- Two rooms over one socket; the first is accepted (version 1, wire id 1), then both are closed.
abbrev events : List Event
events =
    constructed (text "r") (text "t")
    ∷ constructed (text "q") (text "t")
    ∷ signalled 0 signal_open
    ∷ signalled 0 (signal_message (1 ∷ 1 ∷ 1 ∷ 114 ∷ []) returns)
    ∷ close_called (text "r") 1 1000 returns
    ∷ close_called (text "q") 2 1000 returns
    ∷ []

abbrev ended : Shared
ended = run sample_lib0 sample_ws events (new_shared [])

notices :
    ended.notices ≡ on_close 2 (some 1000) false ∷ on_close 1 (some 1000) false ∷ on_open 1 ∷ []
unfolding run new_shared encode_message write_string write_fields ◌===◌ decode_message read_var_uint
    read_string read_fields assert_done
notices = refl

abbrev physical_end : Physical
physical_end = record {
  id = 0;
  grant = text "t";
  ready = closing;
  sent =
      (1 ∷ 0 ∷ 1 ∷ 114 ∷ 1 ∷ 116 ∷ [])
      ∷ (1 ∷ 0 ∷ 1 ∷ 113 ∷ 1 ∷ 116 ∷ [])
      ∷ (1 ∷ 3 ∷ 1 ∷ 114 ∷ [])
      ∷ (1 ∷ 3 ∷ 1 ∷ 113 ∷ [])
      ∷ [];
  close_codes = none ∷ [];
}

CloseStops-sample_ws : CloseStops sample_ws
CloseStops-sample_ws = elim [ closed ↦ refl | connecting ↦ refl | opened ↦ refl | closing ↦ refl ]

run-IsTidy_example : IsTidy (run sample_lib0 sample_ws events (new_shared []))
run-IsTidy_example = run-IsTidy sample_lib0 sample_ws CloseStops-sample_ws [] events

-- What the calls ask for.
abbrev Asked : ProtocolMessage → Type 0
Asked m =
    (m ≡ subscribe (text "r") (text "t"))
    ⊎ ((m ≡ subscribe (text "q") (text "t"))
        ⊎ ((m ≡ unsubscribe (text "r")) ⊎ (m ≡ unsubscribe (text "q"))))

Asked-TextsWellFormed : (m : ProtocolMessage) → Asked m → TextsWellFormed sample_lib0 m
Asked-TextsWellFormed m (inl e) = rw e (refl, refl)
Asked-TextsWellFormed m (inr (inl e)) = rw e (refl, refl)
Asked-TextsWellFormed m (inr (inr (inl e))) = rw e refl
Asked-TextsWellFormed m (inr (inr (inr e))) = rw e refl

run-decode_message_example :
    (m : ProtocolMessage) × (Asked m
      × ((encode_message sample_lib0 m ≡ ok (1 ∷ 3 ∷ 1 ∷ 114 ∷ []))
          × (decode_message sample_lib0 (1 ∷ 3 ∷ 1 ∷ 114 ∷ []) ≡ ok m)))
unfolding run new_shared encode_message write_string write_fields put ◌===◌ decode_message
    read_var_uint read_string read_fields assert_done
run-decode_message_example =
    run-decode_message sample_lib0 sample_ws Asked sample_laws [] events physical_end
      (1 ∷ 3 ∷ 1 ∷ 114 ∷ []) Asked-TextsWellFormed
      (
        inl refl,
        (
          inr (inl refl),
          (
            tt,
            ((tt, λ room h. tt), ((inr (inr (inl refl)), tt), ((inr (inr (inr refl)), tt), tt))),
          ),
        ),
      )
      refl (inr (inr (inl refl)))

-- Where `onerror` of the first socket closes the second, that one hears of the error after its close. Where
-- `onclose` of the first closes the second, the physical close leaves the second out.
abbrev two_opened : List Event
two_opened =
    constructed (text "r") (text "t")
    ∷ constructed (text "q") (text "t")
    ∷ signalled 0 signal_open
    ∷ []

abbrev close_second : List Calls
close_second = closes (text "q") 2 1000 returns returns ∷ []

abbrev opened_end : Physical
opened_end = record {
  id = 0;
  grant = text "t";
  ready = opened;
  sent = (1 ∷ 0 ∷ 1 ∷ 114 ∷ 1 ∷ 116 ∷ []) ∷ (1 ∷ 0 ∷ 1 ∷ 113 ∷ 1 ∷ 116 ∷ []) ∷ [];
  close_codes = [];
}

abbrev after : Signal → List Notice
after signal =
    (run sample_lib0 sample_ws (signalled 0 signal ∷ [])
      (run sample_lib0 sample_ws two_opened (new_shared []))).notices

error_after_close :
    after (signal_error close_second) ≡ on_error 2 ∷ on_close 2 (some 1000) false ∷ on_error 1 ∷ []
unfolding run new_shared encode_message write_string write_fields put ◌===◌
error_after_close = refl

closed_once :
    after (signal_close (some 1006) close_second)
    ≡ on_close 2 (some 1000) false ∷ on_close 1 (some 1006) false ∷ []
unfolding run new_shared encode_message write_string write_fields put ◌===◌
closed_once = refl

step-closes_of_example :
    let s = run sample_lib0 sample_ws two_opened (new_shared []) in
    closes_of 2 s.notices
    < closes_of 2
        (step sample_lib0 sample_ws (signalled 0 (signal_close (some 1006) close_second)) s).notices
unfolding run new_shared encode_message write_string write_fields put ◌===◌ detached_ready
step-closes_of_example =
    step-closes_of sample_lib0 sample_ws (some 1006) close_second 2 opened_end
      (run sample_lib0 sample_ws two_opened (new_shared [])) refl refl

abbrev reentrant_events : List Event
reentrant_events =
    constructed (text "r") (text "t")
    ∷ constructed (text "q") (text "t")
    ∷ signalled 0 signal_open
    ∷ signalled 0 (signal_close (some 1006) close_second)
    ∷ []

run-closes_of_example :
    let s = run sample_lib0 sample_ws reentrant_events (new_shared []) in
    closes_of 2 s.notices + (sockets_of 2 s.virtual_sockets + sockets_of 2 s.detached) ≤ 1
run-closes_of_example = run-closes_of sample_lib0 sample_ws 2 [] reentrant_events
