-- ===== src/Telemetry/Monitoring/Balance.antt =====
-- The totals of internal/telemetry/monitoring.go: each record of a window is counted once.
use pogu.Prelude.{◌+◌, ◌<◌, ◌≤◌, ◌≡◌, List, none, some, length}
use pogu.Telemetry.{MonitoringRecord}
use pogu.Telemetry.Monitoring.Figures.{Counts, Totals}

abbrev pub IsBalanced : Counts → Type 0
IsBalanced c = (c.requests ≡ c.succeeded + c.failed + c.cancelled) × (c.latency_count ≤ c.requests)

-- The success rate is a proper fraction of the requests that were not cancelled; there is none where all were.
abbrev pub IsRate : Totals → Type 0
IsRate t = elim t.success_rate [
  | none ↦ t.figures.counts.cancelled ≡ t.figures.counts.requests
  | some rate ↦
      (0 < rate.1)
      × (rate.0 ≤ rate.1)
      × (rate.0 ≡ t.figures.counts.succeeded)
      × (rate.1 ≡ t.figures.counts.succeeded + t.figures.counts.failed)
]

abbrev pub AccountsFor : List MonitoringRecord → Totals → Type 0
AccountsFor recs t =
    (t.figures.counts.requests ≡ length recs) × IsBalanced t.figures.counts × IsRate t
