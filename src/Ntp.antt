-- ===== src/Ntp.antt =====
-- The clock's times of firmware/chiyocore/src/ntp.rs: what the crate sntpc is given, and what is set from
-- its answer. The loops that wait for the network are not modelled.
use chiyocore.Base.{ℕ, ◌+◌, ◌*◌, ◌/◌, ◌%◌, ◌<◌, ◌≤◌, ◌≡◌, arith}

abbrev pub usec_in_sec : ℕ
usec_in_sec = 1000000

-- `Timestamp`, of the clock's microseconds.
unfoldable pub timestamp_sec : ℕ → ℕ
timestamp_sec current_time_us = current_time_us / 1000000

-- The cast to `u32` keeps it.
unfoldable pub timestamp_subsec_micros : ℕ → ℕ
timestamp_subsec_micros current_time_us = current_time_us % 1000000 % 4294967296

-- What `set_current_time_us` is given, of an answer in seconds and 2^32th parts; in a `u64`.
unfoldable pub new_time_us : ℕ → ℕ → ℕ
new_time_us sec sec_fraction =
    (sec * usec_in_sec + sec_fraction * usec_in_sec / 4294967296) % 18446744073709551616

-- The time that a clock is set to from an answer of 32-bit numbers does not wrap: it splits into the seconds
-- of the answer, and its fraction in microseconds, rounded down, which is below 10^6.
pub new_time_us_lem :
    (sec sec_fraction : ℕ)
    → sec < 4294967296
    → sec_fraction < 4294967296
    → (timestamp_sec (new_time_us sec sec_fraction) ≡ sec)
      × (timestamp_subsec_micros (new_time_us sec sec_fraction) * 4294967296
          ≤ sec_fraction * 1000000)
      × (sec_fraction * 1000000
          < (timestamp_subsec_micros (new_time_us sec sec_fraction) + 1) * 4294967296)
      × (timestamp_subsec_micros (new_time_us sec sec_fraction) < 1000000)
unfolding timestamp_sec timestamp_subsec_micros new_time_us
new_time_us_lem sec sec_fraction h k = (omega arith, omega arith, omega arith, omega arith)
