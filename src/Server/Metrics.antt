-- ===== src/Server/Metrics.antt =====
-- websocket-server/metrics.ts: the reconnection times, for a window in seconds that is not negative.
pub mod Disconnects
pub mod Maintenance
mod Examples
use vip_real_time_collaborat.Base.{
  ℕ, ◌+◌, ◌*◌, Bool, true, false, Option, none, some, List, [], ◌∷◌, ◌==◌, leb, ltb, length,
  if◌then◌else◌,
}
use vip_real_time_collaborat.Base.Text.{Text}
use vip_real_time_collaborat.Base.Maps.{lookup, set, remove}
use vip_real_time_collaborat.Base.Integers.{ℤ, pos, minus_ℤ}

-- The Map recentDisconnects, and the times observed in milliseconds, newest first.
pub record Reconnections : Type 0 where
  pub recent_disconnects : List (Text × ℕ)
  pub observed : List ℤ

unfoldable pub no_reconnections : Reconnections
no_reconnections = record { recent_disconnects = []; observed = [] }

-- `! wpClientId`: null or empty.
abbrev pub is_missing : Option Text → Bool
is_missing none = true
is_missing (some t) = length t == 0

abbrev pub value_of : Option Text → Text
value_of none = []
value_of (some t) = t

unfoldable pub track_disconnection : Option Text → ℕ → Reconnections → Reconnections
unfolding set
track_disconnection wp_client_id timestamp s = if is_missing wp_client_id then s else record s {
  recent_disconnects = set (value_of wp_client_id) timestamp s.recent_disconnects;
}

module _ (metrics_track_reconnects_window : ℕ) where
  -- `disconnectTime && now - disconnectTime <= window * 1000`.
  unfoldable pub is_recent : ℕ → ℕ → Bool
  is_recent disconnect_time now =
      if disconnect_time == 0
      then false
      else leb now (disconnect_time + metrics_track_reconnects_window * 1000)

  unfoldable pub check_known : Text → ℕ → Reconnections → Reconnections
  unfolding lookup remove is_recent
  check_known wp_client_id now s = elim (lookup wp_client_id s.recent_disconnects) [
    | none ↦ s
    | some disconnect_time ↦
        if is_recent disconnect_time now
        then record {
          observed = minus_ℤ (pos now) (pos disconnect_time) ∷ s.observed;
          recent_disconnects = remove wp_client_id s.recent_disconnects;
        }
        else s
  ]

  unfoldable pub check_reconnection : Option Text → ℕ → Reconnections → Reconnections
  unfolding check_known
  check_reconnection wp_client_id now s =
      if is_missing wp_client_id then s else check_known (value_of wp_client_id) now s

  -- `now - disconnectTime > cleanupThreshold`.
  unfoldable pub drop_old : ℕ → List (Text × ℕ) → List (Text × ℕ)
  drop_old now [] = []
  drop_old now ((k, t) ∷ m) =
      let rest = drop_old now m in
      if ltb (t + (metrics_track_reconnects_window + 10) * 1000) now then rest else (k, t) ∷ rest

  unfoldable pub cleanup_old_disconnects : ℕ → Reconnections → Reconnections
  unfolding drop_old
  cleanup_old_disconnects now s = record s {
    recent_disconnects = drop_old now s.recent_disconnects;
  }

-- A connection opens or closes, or the maintenance loop ticks, each at a time of the clock.
pub data Event : Type 0 where
  disconnected : Option Text → ℕ → Event
  connected : Option Text → ℕ → Event
  maintained : ℕ → Event

abbrev pub time_of : Event → ℕ
time_of (disconnected wp_client_id t) = t
time_of (connected wp_client_id t) = t
time_of (maintained t) = t

module _ (window : ℕ) where
  unfoldable pub step : Event → Reconnections → Reconnections
  unfolding track_disconnection check_reconnection cleanup_old_disconnects
  step (disconnected wp_client_id t) s = track_disconnection wp_client_id t s
  step (connected wp_client_id t) s = check_reconnection window wp_client_id t s
  step (maintained t) s = cleanup_old_disconnects window t s

  unfoldable pub run : List Event → Reconnections → Reconnections
  unfolding step
  run [] s = s
  run (e ∷ es) s = run es (step e s)
