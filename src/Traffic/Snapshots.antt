-- ===== src/Traffic/Snapshots.antt =====
-- Store.Snapshot and Store.Metrics of internal/traffic/store.go.
use chi_jie.Prelude.{
  ℕ, ℤ, pos, is_not_positive, int_lt, magnitude, ◌||◌, List, reverse, take, length, if◌then◌else◌,
}
use chi_jie.Traffic.Types.{Trace, TrafficConfig}
use chi_jie.Traffic.Group.{UrlApi}
use chi_jie.Traffic.Store.{Store, Calendar, prune_expired, stored_config}
use chi_jie.Traffic.Metrics.{Metrics, metrics_of}
use chi_jie.Traffic.Display.{DisplayTrace, display_traces}
use chi_jie.Traffic.Series.{Bucket, build_series}

pub record Snapshot : Type 0 where
  pub metrics : Metrics
  pub traces : List Trace
  pub display : List DisplayTrace
  pub series : List Bucket
  pub config : TrafficConfig

-- A limit that is not positive, or beyond the number of traces, is that number.
unfoldable pub limit_of : ℤ → ℕ → ℕ
limit_of limit held =
    if is_not_positive limit || int_lt (pos held) limit then held else magnitude limit

-- The newest traces, the newest first.
unfoldable pub newest_first : ℕ → List Trace → List Trace
newest_first limit traces = take limit (reverse traces)

module _ (urls : UrlApi) (days_before : Calendar) where
  unfoldable pub metrics : ℕ → Store → Store × Metrics
  unfolding prune_expired metrics_of
  metrics now s =
      let s' = prune_expired days_before now s in
      (s', metrics_of urls s'.config s'.traces s'.active_tunnels)

  unfoldable pub snapshot : ℤ → ℕ → Store → Store × Snapshot
  unfolding prune_expired limit_of newest_first metrics_of display_traces build_series stored_config
  snapshot limit now s =
      let s' = prune_expired days_before now s in
      let traces = newest_first (limit_of limit (length s'.traces)) s'.traces in
      (
        s',
        record {
          metrics = metrics_of urls s'.config s'.traces s'.active_tunnels;
          traces = traces;
          display = display_traces urls s'.config traces;
          series = build_series urls s'.config s'.traces now;
          config = stored_config s';
        },
      )
