-- ===== src/Gateway/HealthMonitor/Tests.antt =====
-- A channel restarted once, asked again after five and after ten minutes.
use frankclaw.Prelude.{◌≡◌, refl, true, false, [], ◌∷◌, from_secs}
use frankclaw.Gateway.HealthMonitor.{ChannelHealth, new, try_restart}
use frankclaw.Gateway.HealthMonitor.Restarts.{attempts}

abbrev once : ChannelHealth
once = attempts new (5 ∷ [])

asked_again :
    ((try_restart (from_secs 300) once).0 ≡ false) × ((try_restart (from_secs 601) once).0 ≡ true)
unfolding attempts new try_restart
asked_again = (refl, refl)
