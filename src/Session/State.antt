-- ===== src/Session/State.antt =====
-- websocket-server/multiplex-session.ts and room-websocket.ts: the state of a session.
use vip_real_time_collaborat.Base.{
  ℕ, Bool, true, false, Option, none, some, List, [], ◌∷◌, ◌==◌, if◌then◌else◌,
}
use vip_real_time_collaborat.Base.Text.{Text}
use vip_real_time_collaborat.Packages.{ReadyState, opened}
use vip_real_time_collaborat.Protocol.{ProtocolMessage}

-- RoomConnectionCloseReason of metrics.ts.
pub data CloseReason : Type 0 where
  authorization_rejected grant_expired client_unsubscribe : CloseReason
  server_room_close physical_connection_close : CloseReason

abbrev pub is_server_room_close : CloseReason → Bool
is_server_room_close server_room_close = true
is_server_room_close authorization_rejected = false
is_server_room_close grant_expired = false
is_server_room_close client_unsubscribe = false
is_server_room_close physical_connection_close = false

-- The physical socket: what was handed to `send` in order, the codes given to `close`, and what the
-- next sends do, `true` for one that throws or fails at once (no entry: it succeeds).
pub record Physical : Type 0 where
  pub ready : ReadyState
  pub sent : List ProtocolMessage
  pub close_codes : List ℕ
  pub faults : List Bool

-- The room metrics: the two counts that the gauge is the difference of, the reasons counted (newest
-- first), and the observed peaks.
pub record Stats : Type 0 where
  pub room_opens : ℕ
  pub room_closes : ℕ
  pub close_reasons : List CloseReason
  pub peaks : List ℕ

-- A RoomWebSocket is named by a number. `open_adapters` holds those whose readyState is OPEN, each with
-- the room that its listeners captured; any other is CLOSED. `set_up` are those given to
-- setupWSConnection, `delivered` the payloads emitted on adapters.
pub record Session : Type 0 where
  pub physical : Physical
  pub stats : Stats
  pub started : Bool
  pub rooms : List (Text × ℕ)
  pub closed_rooms : List Text
  pub expected : List (ℕ × CloseReason)
  pub bypass_attempts : ℕ
  pub peak_room_count : ℕ
  pub open_adapters : List (ℕ × Text)
  pub next_adapter : ℕ
  pub set_up : List ℕ
  pub delivered : List (ℕ × List ℕ)

-- A new session on an open socket.
unfoldable pub new_session : List Bool → Session
new_session faults = record {
  physical = record { ready = opened; sent = []; close_codes = []; faults = faults };
  stats = record { room_opens = 0; room_closes = 0; close_reasons = []; peaks = [] };
  started = false;
  rooms = [];
  closed_rooms = [];
  expected = [];
  bypass_attempts = 0;
  peak_room_count = 0;
  open_adapters = [];
  next_adapter = 0;
  set_up = [];
  delivered = [];
}

-- The Map expectedRoomCloses.
unfoldable pub expected_reason : ℕ → List (ℕ × CloseReason) → CloseReason
expected_reason id [] = server_room_close
expected_reason id ((i, r) ∷ m) = if i == id then r else expected_reason id m

unfoldable pub expect_reason : ℕ → CloseReason → List (ℕ × CloseReason) → List (ℕ × CloseReason)
expect_reason id reason [] = (id, reason) ∷ []
expect_reason id reason ((i, r) ∷ m) =
    if i == id then (id, reason) ∷ m else (i, r) ∷ expect_reason id reason m

unfoldable pub forget_reason : ℕ → List (ℕ × CloseReason) → List (ℕ × CloseReason)
forget_reason id [] = []
forget_reason id ((i, r) ∷ m) = if i == id then m else (i, r) ∷ forget_reason id m

unfoldable pub adapter_room : ℕ → List (ℕ × Text) → Option Text
adapter_room id [] = none
adapter_room id ((i, room) ∷ m) = if i == id then some room else adapter_room id m

unfoldable pub drop_adapter : ℕ → List (ℕ × Text) → List (ℕ × Text)
drop_adapter id [] = []
drop_adapter id ((i, room) ∷ m) = if i == id then m else (i, room) ∷ drop_adapter id m

abbrev pub holds : Option ℕ → ℕ → Bool
holds none id = false
holds (some i) id = i == id

unfoldable pub record_room_close : CloseReason → Session → Session
record_room_close reason s = record s {
  stats = record (s.stats) { close_reasons = reason ∷ s.stats.close_reasons };
}
