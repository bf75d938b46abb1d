-- ===== src/Media/Stats.antt =====
-- `Stats` of internal/media/media.go and the counting methods of the forwarder. A time is a number
-- of nanoseconds, and `none` is Go's zero time.
use ngntun.Base.{ℕ, ◌+◌, ◌%◌, ◌^◌, Option, none, some}

pub record Stats : Type 0 where
  pub tx_packets : ℕ
  pub tx_bytes : ℕ
  pub rx_packets : ℕ
  pub rx_bytes : ℕ
  pub drop_unexpected_src : ℕ
  pub drop_malformed : ℕ
  pub tun_write_errors : ℕ
  pub first_tx : Option ℕ
  pub last_tx : Option ℕ
  pub first_rx : Option ℕ
  pub last_rx : Option ℕ

-- `a + b` in uint64.
abbrev pub add64 : ℕ → ℕ → ℕ
add64 a b = (a + b) % 2 ^ 64

abbrev pub no_stats : Stats
no_stats = record {
  tx_packets = 0;
  tx_bytes = 0;
  rx_packets = 0;
  rx_bytes = 0;
  drop_unexpected_src = 0;
  drop_malformed = 0;
  tun_write_errors = 0;
  first_tx = none;
  last_tx = none;
  first_rx = none;
  last_rx = none;
}

-- `if t.IsZero() { t = now }`
abbrev pub first_time : Option ℕ → ℕ → Option ℕ
first_time none now = some now
first_time (some t) now = some t

unfoldable pub count_tx : ℕ → ℕ → Stats → Stats
count_tx n now s = record s {
  tx_packets = add64 s.tx_packets 1;
  tx_bytes = add64 s.tx_bytes n;
  first_tx = first_time s.first_tx now;
  last_tx = some now;
}

unfoldable pub count_rx : ℕ → ℕ → Stats → Stats
count_rx n now s = record s {
  rx_packets = add64 s.rx_packets 1;
  rx_bytes = add64 s.rx_bytes n;
  first_rx = first_time s.first_rx now;
  last_rx = some now;
}

unfoldable pub count_malformed : Stats → Stats
count_malformed s = record s { drop_malformed = add64 s.drop_malformed 1 }

unfoldable pub count_tun_write_error : Stats → Stats
count_tun_write_error s = record s { tun_write_errors = add64 s.tun_write_errors 1 }

unfoldable pub count_unexpected_src : Stats → Stats
count_unexpected_src s = record s { drop_unexpected_src = add64 s.drop_unexpected_src 1 }
