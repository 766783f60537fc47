-- ===== src/Session/Wire.antt =====
-- websocket-server/multiplex-session.ts: what a message and a send of an adapter do to a session that has
-- the room.
use vip_real_time_collaborat.Base.{ℕ, ◌≡◌, refl, ap, true, some, List, [], ◌∷◌, ◌++◌}
use vip_real_time_collaborat.Base.Text.{Text}
use vip_real_time_collaborat.Base.Maps.{lookup}
use vip_real_time_collaborat.Packages.{Lib0, Ws, Jwt, is_open}
use vip_real_time_collaborat.Auth.{SyncTokenPayload}
use vip_real_time_collaborat.Protocol.{
  ProtocolMessage, subscribe, room_data, encode_message, decode_message,
}
use vip_real_time_collaborat.Protocol.Reader.{ok}
use vip_real_time_collaborat.Session.State.{Session, adapter_room}
use vip_real_time_collaborat.Session.Behaviour.{send_accepted}
use vip_real_time_collaborat.Session.{
  put_sent, receive_data, subscribe_room, handle_message, handle_physical_message, room_send,
}

module _ (l : Lib0) (w : Ws) (j : Jwt) (secret : Text) (initial : SyncTokenPayload) where
  pub handle_physical_message-decoded :
      (bytes : List ℕ) (m : ProtocolMessage) (s : Session)
      → is_open s.physical.ready ≡ true
      → decode_message l bytes ≡ ok m
      → handle_physical_message l w j secret initial bytes true s
        ≡ handle_message l w j secret initial m s
  unfolding handle_physical_message
  handle_physical_message-decoded bytes m s o d = rw (o, d, handle_physical_message) refl

  pub handle_message-subscribe :
      (room grant : Text) (s : Session)
      → handle_message l w j secret initial (subscribe room grant) s
        ≡ subscribe_room l w j secret initial room grant s
  unfolding handle_message
  handle_message-subscribe room grant s = refl

  pub handle_message-data :
      (room : Text) (payload : List ℕ) (id : ℕ) (s : Session)
      → lookup room s.rooms ≡ some id
      → (handle_message l w j secret initial (room_data room payload) s).delivered
        ≡ (id, payload) ∷ s.delivered
  unfolding handle_message receive_data
  handle_message-data room payload id s e = rw (e, receive_data) refl

module _ (l : Lib0) (w : Ws) where
  pub room_send-sent :
      (room : Text) (payload bytes : List ℕ) (id : ℕ) (s : Session)
      → adapter_room id s.open_adapters ≡ some room
      → encode_message l (room_data room payload) ≡ ok bytes
      → s.physical.faults ≡ []
      → (room_send l w id payload s).physical.sent ≡ s.physical.sent ++ room_data room payload ∷ []
  unfolding room_send put_sent
  room_send-sent room payload bytes id s a e f =
      rw (a, room_send)
        (ap (λ r. r.0.physical.sent) (send_accepted l w (room_data room payload) bytes s e f))
