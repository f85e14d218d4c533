-- ===== src/Reader/Pacing.antt =====
-- sillage-reader/src/pacing.rs: when a message is due, and what a late one leads to.
--
-- Instants and durations are nanoseconds. `scale` is the division by the speed multiplier, a
-- computation in f64.
use sillage.Prelude.{
  ℕ, ◌+◌, ◌-◌, ◌*◌, Option, none, some, Bool, true, false, not, ltb, leb, if◌then◌else◌,
}
pub mod Targets

abbrev pub warn_gap : ℕ
warn_gap = 10_000_000_000

pub record PacingConfig : Type 0 where
  pub enabled : Bool
  pub lag_warn_ms : ℕ
  pub lag_drop_ms : ℕ

pub record Pacer : Type 0 where
  pub enabled : Bool
  pub lag_warn : ℕ
  pub lag_drop : ℕ
  pub anchor : Option (ℕ × ℕ)
  pub last_warn : Option ℕ

pub data LagAction : Type 0 where
  on_time : LagAction
  warn : (lag : ℕ) → LagAction
  drop_client : (lag : ℕ) → LagAction

unfoldable pub from_config : PacingConfig → Pacer
from_config cfg = record {
  enabled = cfg.enabled;
  lag_warn = cfg.lag_warn_ms * 1_000_000;
  lag_drop = cfg.lag_drop_ms * 1_000_000;
  anchor = none;
  last_warn = none;
}

-- `Pacer::target`, with what the clock shows.
unfoldable pub target : (scale : ℕ → ℕ) → ℕ → Option ℕ → Pacer → ℕ × Pacer
target scale now source_ns p = if not p.enabled then (now, p) else elim source_ns [
  | none ↦ (now, p)
  | some ts ↦ elim p.anchor [
    | none ↦ (now, record p { anchor = some (ts, now) })
    | some (anchor_ts, anchor_real) ↦ (anchor_real + scale (ts - anchor_ts), p)
  ]
]

-- `is_none_or(|t| now.duration_since(t) > 10 s)`; the duration is 0 for a later `t`.
may_warn : Option ℕ → ℕ → Bool
may_warn none now = true
may_warn (some t) now = ltb warn_gap (now - t)

unfoldable pub observe_emit : ℕ → ℕ → Pacer → LagAction × Pacer
unfolding may_warn
observe_emit now due p =
    if not p.enabled
    then (on_time, p)
    else if leb now due
    then (on_time, p)
    else if leb p.lag_drop (now - due)
    then (drop_client (now - due), p)
    else if leb p.lag_warn (now - due)
    then (if may_warn p.last_warn now
        then (warn (now - due), record p { last_warn = some now })
        else (on_time, p))
    else (on_time, p)
