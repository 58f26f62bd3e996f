-- ===== src/Stats/Due.antt =====
-- A report of the statistics is sent when it is due, and begins the interval again.
use hardware_mediatek.Base.{ℕ, ◌-◌, ◌/◌, Bool, leb}
use hardware_mediatek.Floats.{Float}
use hardware_mediatek.Stats.State.{StatsHelper, update_interval_ms}
use hardware_mediatek.Stats.Sent.{Sent}

module _ {ℓ} {W : Type ℓ} ⦃f : Float W⦄ where
  -- A report is due when its interval has passed since the last one.
  abbrev pub is_due : ℕ → StatsHelper W → Bool
  is_due now t = leb update_interval_ms ((now - t.last_total_stats_report_time) / 1_000_000)
