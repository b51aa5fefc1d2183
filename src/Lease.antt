-- ===== src/Lease.antt =====
-- The lease columns that several tables share, and the conditions on them in the statements of
-- internal/payout, internal/chain/tron/indexer and internal/outbox. Times are milliseconds of the
-- database's clock.
use stablecoin_gateway.Prelude.{
  ℕ, ◌/◌, String, Bool, true, false, Option, none, some, ltb, leb, ℤ, pos, negsuc, text_eq,
}

-- `execution_lease_owner` and `execution_lease_until`: a check keeps both null or neither.
pub record Lease : Type 0 where
  pub owner : String
  pub until : ℕ

-- `execution_lease_owner IS NULL OR execution_lease_until <= clock_timestamp()`
abbrev pub is_free : ℕ → Option Lease → Bool
is_free now none = true
is_free now (some l) = leb l.until now

abbrev pub owned_by : String → Option Lease → Bool
owned_by worker none = false
owned_by worker (some l) = text_eq l.owner worker

-- `execution_lease_until > clock_timestamp()`
abbrev pub is_live : ℕ → Option Lease → Bool
is_live now none = false
is_live now (some l) = ltb now l.until

-- `duration.Milliseconds()` of a duration in nanoseconds; 0 stands for every value below 1.
abbrev pub milliseconds : ℤ → ℕ
milliseconds (pos n) = n / 1000000
milliseconds (negsuc n) = 0
