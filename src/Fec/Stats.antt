-- ===== src/Fec/Stats.antt =====
-- harness/include/fec.h: the statistics of the recovery latencies.
use low_latency_udp_fanout.Common.{ℕ, ◌-◌, List, ◌==◌, if◌then◌else◌, length, get_or}
use low_latency_udp_fanout.Metrics.{Floats, rank_of}
use low_latency_udp_fanout.Fec.Decoder.{Decoder}

pub record RecoveryStats : Type 0 where
  pub p50 : ℕ
  pub p99 : ℕ
  pub p999 : ℕ
  pub p9999 : ℕ
  pub max : ℕ

pub record SplitRecoveryStats : Type 0 where
  pub by_k : RecoveryStats
  pub by_timeout : RecoveryStats
  pub by_flush : RecoveryStats

module _ (floats : Floats) where
  unfoldable pub percentile : List ℕ → floats.Double → ℕ
  percentile values p = get_or values (rank_of floats (length values) p - 1) 0

  unfoldable pub recovery_stats_for : List ℕ → RecoveryStats
  recovery_stats_for source =
      let values = floats.sort source in
      if length source == 0
      then record { p50 = 0; p99 = 0; p999 = 0; p9999 = 0; max = 0 }
      else record {
        p50 = percentile values floats.p50_share;
        p99 = percentile values floats.p99_share;
        p999 = percentile values floats.p999_share;
        p9999 = percentile values floats.p9999_share;
        max = get_or values (length values - 1) 0;
      }

  unfoldable pub split_recovery_stats : Decoder → SplitRecoveryStats
  split_recovery_stats d = record {
    by_k = recovery_stats_for d.recovery_by_k;
    by_timeout = recovery_stats_for d.recovery_by_timeout;
    by_flush = recovery_stats_for d.recovery_by_flush;
  }
