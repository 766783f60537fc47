-- ===== src/Session/Examples.antt =====
-- websocket-server/multiplex-session.ts: runs of a session, and the theorems at concrete inputs.
use vip_real_time_collaborat.Base.{ℕ, ◌≡◌, refl, true, false, none, some, List, [], ◌∷◌}
use vip_real_time_collaborat.Base.Text.{Text, text, ◌===◌}
use vip_real_time_collaborat.Base.Maps.{lookup, has, set, delete}
use vip_real_time_collaborat.Packages.{
  Jwt, claims, token_expired, jwt_error, number, string, undefined, Claims,
}
use vip_real_time_collaborat.Packages.Sample.{sample_lib0, sample_ws, sample_ws_laws, put}
use vip_real_time_collaborat.Auth.{
  SyncTokenPayload, verify_token_grant, as_sync_token_payload, is_sync_token_payload,
}
use vip_real_time_collaborat.Protocol.Reader.{ok, read_var_uint, read_string, assert_done}
use vip_real_time_collaborat.Protocol.{subscribe, encode_message, decode_message}
use vip_real_time_collaborat.Session.State.{Session, new_session}
use vip_real_time_collaborat.Session.Closing.{IsConsistent}
use vip_real_time_collaborat.Session.Attempts.{two_attempts_end}
use vip_real_time_collaborat.Session.Heartbeat.{pong, on_session}
use vip_real_time_collaborat.Session.Heartbeat.{
  Connection, message, adapter_close, heartbeat, handle, step, run, new_connection,
}
use vip_real_time_collaborat.Session.Grants.{Grants, Granted}
use vip_real_time_collaborat.Session.Authorization.{run-IsConsistent, run-Granted}
use vip_real_time_collaborat.Session.Behaviour.{HasEnded}
use vip_real_time_collaborat.Session.{
  handle_physical_message, handle_message, subscribe_room, authorize, admit, add_room,
  register_room, send_physical_message, physical_send, put_sent, matches_physical_identity,
}
use vip_real_time_collaborat.Protocol.{write_string, write_fields, read_fields, read_subscribe}
use vip_real_time_collaborat.Session.{
  handle_physical_message, handle_message, authorize, admit, add_room, register_room,
  send_physical_message, physical_send, put_sent, reject_authorization_bypass, unsubscribe_room,
  receive_data,
}
use vip_real_time_collaborat.Session.Heartbeat.{handle, step, handle_interval}
use vip_real_time_collaborat.Session.Behaviour.{unsubscribe_room_late, handle_interval_unanswered}

abbrev secret : Text
secret = text "s"

abbrev room_a : Text
room_a = text "a"

abbrev editor_claims : Claims
editor_claims = record {
  blog_id = number 1;
  user_id = number 7;
  username = string (text "ed");
  room_name = string room_a;
  wp_client_id = string (text "tab");
  connection_id = undefined;
}

abbrev editor : SyncTokenPayload
editor = as_sync_token_payload editor_claims

-- The token "g" grants room "a", the token "e" did so until it expired, and no other is valid.
abbrev sample_jwt : Jwt
sample_jwt = record {
  verify = λ token key ignore. elim (token === text "g") [
    | true ↦ claims editor_claims
    | false ↦ elim (token === text "e") [
      | true ↦ elim ignore [ true ↦ claims editor_claims | false ↦ token_expired ]
      | false ↦ jwt_error
    ]
  ];
}

-- subscribe "a" with grant "g", as bytes.
abbrev subscribe_bytes : List ℕ
subscribe_bytes = 1 ∷ 0 ∷ 1 ∷ 97 ∷ 1 ∷ 103 ∷ []

decoded_subscribe : decode_message sample_lib0 subscribe_bytes ≡ ok (subscribe room_a (text "g"))
unfolding decode_message read_fields read_subscribe read_var_uint read_string assert_done
decoded_subscribe = refl

start_a : Connection
start_a = new_connection []

after_subscribe : Connection
unfolding start_a
after_subscribe =
    run sample_lib0 sample_ws sample_jwt secret editor (message subscribe_bytes true ∷ []) start_a

has_a : has room_a after_subscribe.session.rooms ≡ true
unfolding after_subscribe run step handle handle_physical_message handle_message subscribe_room
    authorize admit add_room register_room send_physical_message physical_send put_sent
    matches_physical_identity verify_token_grant encode_message write_string write_fields put
    decode_message read_fields read_subscribe read_var_uint read_string assert_done lookup set has
    delete ◌===◌ new_connection new_session is_sync_token_payload
has_a = refl

after_subscribe-IsConsistent : IsConsistent after_subscribe.session
unfolding after_subscribe start_a
after_subscribe-IsConsistent =
    run-IsConsistent sample_lib0 sample_ws sample_ws_laws sample_jwt secret editor []
      (message subscribe_bytes true ∷ [])

run-IsConsistent_example :
    IsConsistent
      (run sample_lib0 sample_ws sample_jwt secret editor
        (message subscribe_bytes true ∷ adapter_close 0 ∷ heartbeat false ∷ [])
        (new_connection (false ∷ true ∷ []))).session
run-IsConsistent_example =
    run-IsConsistent sample_lib0 sample_ws sample_ws_laws sample_jwt secret editor
      (false ∷ true ∷ []) (message subscribe_bytes true ∷ adapter_close 0 ∷ heartbeat false ∷ [])

run-Granted_example :
    Granted sample_lib0 sample_jwt secret editor (message subscribe_bytes true ∷ []) room_a
unfolding after_subscribe start_a
run-Granted_example =
    run-Granted sample_lib0 sample_ws sample_ws_laws sample_jwt secret editor []
      (message subscribe_bytes true ∷ []) room_a has_a

-- The session of room "a" with one attempt counted.
abbrev warned : Session
warned = record (after_subscribe.session) { bypass_attempts = 1 }

found_a : lookup room_a after_subscribe.session.rooms ≡ some 0
unfolding after_subscribe run step handle handle_physical_message handle_message subscribe_room
    authorize admit add_room register_room send_physical_message physical_send put_sent
    matches_physical_identity verify_token_grant encode_message write_string write_fields put
    decode_message read_fields read_subscribe read_var_uint read_string assert_done lookup set has
    delete ◌===◌ new_connection new_session is_sync_token_payload
found_a = refl

unsubscribe_room_late_example :
    let s = after_subscribe.session in
    (lookup room_a (unsubscribe_room sample_lib0 sample_ws room_a s).rooms ≡ none)
    × (unsubscribe_room sample_lib0 sample_ws room_a
          (unsubscribe_room sample_lib0 sample_ws room_a s)
        ≡ unsubscribe_room sample_lib0 sample_ws room_a s)
    × (receive_data sample_lib0 sample_ws room_a
          (1 ∷ [])
          (unsubscribe_room sample_lib0 sample_ws room_a s)
        ≡ unsubscribe_room sample_lib0 sample_ws room_a s)
unsubscribe_room_late_example =
    unsubscribe_room_late sample_lib0 sample_ws room_a 0 (1 ∷ []) after_subscribe.session
      after_subscribe-IsConsistent found_a

a-Grants : Grants sample_jwt secret editor (text "g") room_a
unfolding verify_token_grant matches_physical_identity is_sync_token_payload ◌===◌
a-Grants = record { payload = editor; verified = refl; same_room = refl; same_identity = refl }

handle_interval_unanswered_example :
    HasEnded
      (handle_interval sample_ws false (handle_interval sample_ws false after_subscribe)).session
    × ((handle_interval sample_ws false (handle_interval sample_ws false after_subscribe)).stopped
        ≡ true)
unfolding after_subscribe run step handle handle_physical_message handle_message subscribe_room
    authorize admit add_room register_room send_physical_message physical_send put_sent
    matches_physical_identity verify_token_grant encode_message write_string write_fields put
    decode_message read_fields read_subscribe read_var_uint read_string assert_done lookup set has
    delete ◌===◌ new_connection new_session is_sync_token_payload
handle_interval_unanswered_example =
    handle_interval_unanswered sample_ws sample_ws_laws false false after_subscribe
      after_subscribe-IsConsistent refl refl (λ e. cc)

two_attempts_end_example : HasEnded (
    reject_authorization_bypass sample_lib0 sample_ws
      (text "c")
      (run sample_lib0 sample_ws sample_jwt secret editor
        (message subscribe_bytes true ∷ pong ∷ [])
        (on_session
          (reject_authorization_bypass sample_lib0 sample_ws (text "b"))
          after_subscribe)).session)
two_attempts_end_example =
    two_attempts_end sample_lib0 sample_ws sample_ws_laws sample_jwt secret editor (text "b")
      (text "c") (message subscribe_bytes true ∷ pong ∷ []) after_subscribe
      after_subscribe-IsConsistent
