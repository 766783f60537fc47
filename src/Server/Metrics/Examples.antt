-- ===== src/Server/Metrics/Examples.antt =====
-- websocket-server/metrics.ts on a concrete run.
use vip_real_time_collaborat.Base.{◌≡◌, refl, arith, some, List, [], ◌∷◌}
use vip_real_time_collaborat.Base.Text.{text, ◌===◌}
use vip_real_time_collaborat.Base.Integers.{pos}
use vip_real_time_collaborat.Server.Metrics.{
  no_reconnections, Event, disconnected, connected, maintained, run,
}
use vip_real_time_collaborat.Server.Metrics.Maintenance.{
  without_maintenance, run-without_maintenance,
}

-- One client comes back in time; another is cleaned up and comes back later.
abbrev events : List Event
events =
    disconnected (some (text "a")) 1000
    ∷ disconnected (some (text "b")) 2000
    ∷ connected (some (text "a")) 5000
    ∷ maintained 80000
    ∷ connected (some (text "b")) 80001
    ∷ []

observations : (run 60 events no_reconnections).observed ≡ pos 4000 ∷ []
unfolding run no_reconnections ◌===◌
observations = refl

run-without_maintenance_example :
    (run 60 events no_reconnections).observed
    ≡ (run 60 (without_maintenance events) no_reconnections).observed
run-without_maintenance_example =
    run-without_maintenance 60 events
      (omega arith, (omega arith, (omega arith, (omega arith, (omega arith, tt)))))
