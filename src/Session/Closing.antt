-- ===== src/Session/Closing.antt =====
-- websocket-server/multiplex-session.ts: the invariant of a session, and what closing a room does to it.
use vip_real_time_collaborat.Base.{
  ℕ, ◌+◌, ◌≤◌, ◌≡◌, refl, ap, ◌∙◌, false, some, List, [], ◌∷◌, arith, length, if◌then◌else◌,
}
use vip_real_time_collaborat.Base.Text.{Text, ===_refl}
use vip_real_time_collaborat.Base.Maps.{
  lookup, remove, Distinct, lookup-has, Distinct-remove, length-remove,
}
use vip_real_time_collaborat.Packages.{is_open}
use vip_real_time_collaborat.Session.State.{
  CloseReason, server_room_close, physical_connection_close, is_server_room_close, Session,
  expected_reason, expect_reason, forget_reason, adapter_room, drop_adapter,
}
use vip_real_time_collaborat.Session.Rooms.{
  adapters_of, Rising, Apart, Rising-remove, adapters_of-remove, Apart-remove, lookup-adapter_room,
}
use vip_real_time_collaborat.Session.{
  release_room, close_listener, close_adapter, close_room, close_all, cleanup_rooms, unsent,
}

-- Between events: the open adapters are those of the rooms, numbered in order; no room is both open
-- and closed; no close is expected; the gauge and the peak count the rooms.
pub record IsConsistent (s : Session) : Type 0 where
  pub adapters : s.open_adapters ≡ adapters_of s.rooms
  pub distinct : Distinct s.rooms
  pub rising : Rising 0 s.next_adapter s.rooms
  pub apart : Apart s.rooms s.closed_rooms
  pub nothing_expected : s.expected ≡ []
  pub gauge : s.stats.room_opens ≡ s.stats.room_closes + length s.rooms
  pub peak : length s.rooms ≤ s.peak_room_count

-- A session without its room, whose adapter `id` is closed.
abbrev pub released : Text → ℕ → CloseReason → Session → Session
released room id reason s =
    release_room room reason
      (record s { open_adapters = drop_adapter id s.open_adapters; expected = [] })

pub released-IsConsistent :
    (room : Text) (id : ℕ) (reason : CloseReason) (s : Session)
    → IsConsistent s
    → lookup room s.rooms ≡ some id
    → IsConsistent (released room id reason s)
unfolding release_room
released-IsConsistent room id reason s v e = record {
  adapters = rw v.adapters (adapters_of-remove room id 0 s.next_adapter s.rooms v.rising e).1;
  distinct = Distinct-remove room s.rooms v.distinct;
  rising = Rising-remove room 0 s.next_adapter s.rooms v.rising;
  apart = Apart-remove room s.rooms s.closed_rooms v.distinct v.apart;
  nothing_expected = refl;
  gauge = omega (arith, v.gauge, length-remove room s.rooms (lookup-has room s.rooms id e));
  peak = omega (arith, v.peak, length-remove room s.rooms (lookup-has room s.rooms id e));
}

adapter_found :
    (room : Text) (id : ℕ) (s : Session)
    → IsConsistent s
    → lookup room s.rooms ≡ some id
    → adapter_room id s.open_adapters ≡ some room
adapter_found room id s v e =
    rw v.adapters (adapters_of-remove room id 0 s.next_adapter s.rooms v.rising e).0

module _ (send_closed : Text → Session → Session) where
  -- A close with a reason other than the server's takes the room off, and sends nothing.
  pub close_room_lem :
      (room : Text) (id : ℕ) (reason : CloseReason) (s : Session)
      → IsConsistent s
      → lookup room s.rooms ≡ some id
      → is_server_room_close reason ≡ false
      → close_room send_closed id reason s ≡ released room id reason s
  unfolding close_room close_adapter close_listener expected_reason expect_reason forget_reason
  close_room_lem room id reason s v e n =
      ground (arith, adapter_found room id s v e, v.nothing_expected)

  -- A close by the server takes the room off, and tells the client while the socket is open.
  pub close_adapter_lem :
      (room : Text) (id : ℕ) (s : Session)
      → IsConsistent s
      → adapter_room id s.open_adapters ≡ some room
      → close_adapter send_closed id s ≡ (
          if is_open s.physical.ready
          then send_closed room (released room id server_room_close s)
          else released room id server_room_close s)
  unfolding close_adapter close_listener expected_reason forget_reason
  close_adapter_lem room id s v e = ground (
    arith,
    e,
    lookup-adapter_room room id s.rooms v.distinct (rw v.adapters at e),
    v.nothing_expected,
  )

head_found : (room : Text) (id : ℕ) (m : List (Text × ℕ)) → lookup room ((room, id) ∷ m) ≡ some id
unfolding lookup
head_found room id m = ground (arith, ===_refl room)

removed :
    (room : Text) (id : ℕ) (m : List (Text × ℕ)) (s : Session)
    → s.rooms ≡ (room, id) ∷ m
    → (released room id physical_connection_close s).rooms ≡ m
unfolding release_room remove
removed room id m s e = rw (e, remove) (ground (arith, ===_refl room))

-- What a cleanup keeps, and that no room is left.
pub record Cleaned (s t : Session) : Type 0 where
  pub consistent : IsConsistent t
  pub no_rooms : t.rooms ≡ []
  pub no_adapters : t.open_adapters ≡ []
  pub same_physical : t.physical ≡ s.physical
  pub same_attempts : t.bypass_attempts ≡ s.bypass_attempts
  pub same_peak : t.peak_room_count ≡ s.peak_room_count
  pub same_opens : t.stats.room_opens ≡ s.stats.room_opens
  pub same_delivered : t.delivered ≡ s.delivered

Cleaned-released :
    (room : Text) (id : ℕ) (s t : Session)
    → Cleaned (released room id physical_connection_close s) t
    → Cleaned s t
unfolding release_room
Cleaned-released room id s t c = record {
  consistent = c.consistent;
  no_rooms = c.no_rooms;
  no_adapters = c.no_adapters;
  same_physical = c.same_physical;
  same_attempts = c.same_attempts;
  same_peak = c.same_peak;
  same_opens = c.same_opens;
  same_delivered = c.same_delivered;
}

close_all-Cleaned :
    (m : List (Text × ℕ)) (s : Session) → IsConsistent s → s.rooms ≡ m → Cleaned s (close_all m s)
unfolding close_all
close_all-Cleaned [] s v e = record {
  consistent = v;
  no_rooms = e;
  no_adapters = v.adapters ∙ ap adapters_of e;
  same_physical = refl;
  same_attempts = refl;
  same_peak = refl;
  same_opens = refl;
  same_delivered = refl;
}
close_all-Cleaned ((room, id) ∷ m) s v e =
    let found : lookup room s.rooms ≡ some id = rw e (head_found room id m) in
    rw (close_room_lem unsent room id physical_connection_close s v found refl) (
      Cleaned-released room id s _ (
        close_all-Cleaned m (released room id physical_connection_close s)
          (released-IsConsistent room id physical_connection_close s v found)
          (removed room id m s e)))

-- Cleaning up closes every room, and leaves the physical socket and the counters alone.
pub cleanup_rooms-Cleaned : (s : Session) → IsConsistent s → Cleaned s (cleanup_rooms s)
unfolding cleanup_rooms
cleanup_rooms-Cleaned s v = close_all-Cleaned s.rooms s v refl
