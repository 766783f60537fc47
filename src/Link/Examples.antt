-- ===== src/Link/Examples.antt =====
-- src/shared-websocket.ts over a connection to websocket-server/multiplex-session.ts, on a concrete room.
use vip_real_time_collaborat.Base.{ℕ, ap, ◌∙◌, ◌≡◌, refl, true, false, some, List, [], ◌∷◌, ◌++◌}
use vip_real_time_collaborat.Base.Text.{Text, text, ◌===◌}
use vip_real_time_collaborat.Base.Maps.{lookup}
use vip_real_time_collaborat.Packages.{
  Jwt, claims, number, string, undefined, Claims, connecting, opened,
}
use vip_real_time_collaborat.Packages.Sample.{
  sample_lib0, sample_ws, sample_laws, sample_ws_laws, put,
}
use vip_real_time_collaborat.Auth.{
  SyncTokenPayload, as_sync_token_payload, verify_token_grant, is_sync_token_payload,
}
use vip_real_time_collaborat.Protocol.{subscribed, encode_message, write_string, write_fields}
use vip_real_time_collaborat.Session.State.{Session, new_session, adapter_room}
use vip_real_time_collaborat.Session.{matches_physical_identity, room_send}
use vip_real_time_collaborat.Session.Heartbeat.{
  Connection, on_session, new_connection, start as start_session,
}
use vip_real_time_collaborat.Session.Grants.{Grants}
use vip_real_time_collaborat.Client.SharedSocket.{
  SharedWebSocket, Physical, Shared, new_shared, on_message, notify, send, Calls, returns, sends,
  perform,
}
use vip_real_time_collaborat.Client.SharedSocket.Listeners.{
  constructed, signalled, signal_open, run,
}
use vip_real_time_collaborat.Link.{
  Link, message_at, carry_up, carry_down, Event, editor_acts, arrives_up, arrives_down, new_link,
  step, run as run_link,
}
use vip_real_time_collaborat.Link.Authority.{HasGrant, run-HasGrant}
use vip_real_time_collaborat.Link.Exchange.{
  HasOpened, carry_down-carry_up-HasOpened, carry-delivered,
}

abbrev room : Text
room = text "a"

abbrev editor_claims : Claims
editor_claims = record {
  blog_id = number 1;
  user_id = number 7;
  username = string (text "ed");
  room_name = string room;
  wp_client_id = string (text "tab");
  connection_id = undefined;
}

abbrev payload : SyncTokenPayload
payload = as_sync_token_payload editor_claims

abbrev jwt : Jwt
jwt = record { verify = λ token key ignore. claims editor_claims }

room-Grants : Grants jwt (text "s") payload (text "g") room
unfolding verify_token_grant matches_physical_identity is_sync_token_payload ◌===◌
room-Grants = record { payload = payload; verified = refl; same_room = refl; same_identity = refl }

-- The editor made a virtual socket and its physical socket has opened; nothing has arrived yet.
abbrev start : Link
start = record {
  editor =
      run sample_lib0 sample_ws (constructed room (text "g") ∷ signalled 0 signal_open ∷ [])
        (new_shared []);
  connection = new_connection [];
  read_up = 0;
  read_down = 0;
}

abbrev socket : SharedWebSocket
socket = record { id = 1; grant = text "g"; ready = connecting }

abbrev subscribe_bytes : List ℕ
subscribe_bytes = 1 ∷ 0 ∷ 1 ∷ 97 ∷ 1 ∷ 103 ∷ []

abbrev physical : Physical
physical = record {
  id = 0;
  grant = text "g";
  ready = opened;
  sent = subscribe_bytes ∷ [];
  close_codes = [];
}

-- `onopen` sends a payload at once.
abbrev send_back : Calls
send_back = sends room 1 (5 ∷ []) returns

carry_down-carry_up-HasOpened_example :
    let arrived = carry_up sample_lib0 sample_ws jwt (text "s") payload start in
    (arrived.connection.session.rooms
      ≡ start.connection.session.rooms ++ (room, start.connection.session.next_adapter) ∷ [])
    × (arrived.connection.session.set_up
        ≡ start.connection.session.next_adapter ∷ start.connection.session.set_up)
    × ((t : Shared) × (HasOpened room socket start.editor t
          × ((carry_down sample_lib0 sample_ws send_back arrived).editor
              ≡ perform sample_lib0 sample_ws send_back t)))
unfolding run new_shared new_connection start_session new_session encode_message write_string
    write_fields put ◌===◌ lookup message_at
carry_down-carry_up-HasOpened_example =
    carry_down-carry_up-HasOpened sample_lib0 sample_ws sample_laws jwt (text "s") payload room
      (text "g") subscribe_bytes socket physical send_back start refl refl refl (refl, refl) refl
      refl refl refl refl refl refl room-Grants

-- The room is open on both sides and everything has arrived.
abbrev open_editor : Shared
open_editor = record (new_shared []) {
  physical = some physical;
  virtual_sockets = (room, record socket { ready = opened }) ∷ [];
  next_id = 2;
}

abbrev open_session : Session
open_session = record (new_session []) {
  started = true;
  physical = record { ready = opened; sent = subscribed room ∷ []; close_codes = []; faults = [] };
  rooms = (room, 0) ∷ [];
  open_adapters = (0, room) ∷ [];
  next_adapter = 1;
}

abbrev open_connection : Connection
open_connection = record {
  session = open_session;
  pong_received = true;
  stopped = false;
  pings = 0;
  empty_timeouts = 0;
}

abbrev linked : Link
linked = record { editor = open_editor; connection = open_connection; read_up = 1; read_down = 1 }

carry-delivered_example :
    ((carry_up sample_lib0 sample_ws jwt (text "s") payload (record linked {
      editor = (send sample_lib0 sample_ws room 1 (7 ∷ 8 ∷ []) open_editor).0;
    })).connection.session.delivered
      ≡ (0, 7 ∷ 8 ∷ []) ∷ [])
    × ((carry_down sample_lib0 sample_ws send_back (record linked {
      connection = on_session (room_send sample_lib0 sample_ws 0 (9 ∷ [])) open_connection;
    })).editor
        ≡ perform sample_lib0 sample_ws send_back (notify (on_message 1 (9 ∷ [])) open_editor))
unfolding new_shared new_session encode_message write_string write_fields put ◌===◌ lookup
    adapter_room
carry-delivered_example =
    carry-delivered sample_lib0 sample_ws sample_laws jwt (text "s") payload room (7 ∷ 8 ∷ [])
      (9 ∷ []) (1 ∷ 2 ∷ 1 ∷ 97 ∷ 7 ∷ 8 ∷ []) (1 ∷ 2 ∷ 1 ∷ 97 ∷ 9 ∷ [])
      (record socket { ready = opened }) physical 0 send_back linked refl refl refl refl refl refl
      refl refl refl refl refl refl refl refl refl

abbrev events : List Event
events =
    editor_acts (constructed room (text "g"))
    ∷ editor_acts (signalled 0 signal_open)
    ∷ arrives_up
    ∷ arrives_down returns
    ∷ []

room_opens :
    lookup room
      (run_link sample_lib0 sample_ws jwt
        (text "s")
        payload
        events
        (new_link [] [])).editor.virtual_sockets
    ≡ some (record socket { ready = opened })
unfolding run_link step new_link run new_shared new_connection start_session new_session
    encode_message write_string write_fields put ◌===◌ lookup message_at perform
room_opens =
    let (t, (opens, is)) =
      (carry_down-carry_up-HasOpened sample_lib0 sample_ws sample_laws jwt (text "s") payload room
        (text "g") subscribe_bytes socket physical returns start refl refl refl (refl, refl) refl
        refl refl refl refl refl refl room-Grants).2 in
    ap (λ x. lookup room x.virtual_sockets) is ∙ opens.0

run-HasGrant_example : HasGrant jwt (text "s") payload room
run-HasGrant_example =
    run-HasGrant sample_lib0 sample_ws sample_laws sample_ws_laws jwt (text "s") payload [] []
      events room (record socket { ready = opened }) room_opens refl
