-- ===== src/Types/Clock.antt =====
-- crates/crewd-core/src/types.rs: RFC 3339 text from seconds since the epoch. The reading of the
-- system clock, in seconds, is an argument. `civil_from_days` is called with `secs / 86400`, which
-- is not negative, so that its branch for a negative day is never taken and is left out.
use Prim.Native.String.{◌++◌}
pub mod Calendar
use mcp_crewd_rs.Base.{
  ℕ, zero, suc, ◌+◌, ◌-◌, ◌*◌, ◌/◌, ◌%◌, ◌^◌, min, String, ◌≡◌, refl, ltb, leb, if◌then◌else◌,
}

pub record Civil : Type 0 where
  pub year : ℕ
  pub month : ℕ
  pub day : ℕ

abbrev year_of_era : ℕ → ℕ
year_of_era doe = (doe - doe / 1460 + doe / 36524 - doe / 146096) / 365

abbrev day_of_year : ℕ → ℕ
day_of_year doe = let yoe = year_of_era doe in doe - (365 * yoe + yoe / 4 - yoe / 100)

-- The month and the day, counting the year's days from March 1.
pub date_in_year : ℕ → ℕ → Civil
date_in_year y doy =
    let mp = (5 * doy + 2) / 153 in
    let m = if ltb mp 10 then mp + 3 else mp - 9 in
    record { year = if leb m 2 then y + 1 else y; month = m; day = doy - (153 * mp + 2) / 5 + 1 }

pub civil_from_days : ℕ → Civil
unfolding date_in_year
civil_from_days days =
    let z = days + 719468 in
    let era = z / 146097 in
    let doe = z - era * 146097 in date_in_year (year_of_era doe + era * 400) (day_of_year doe)

digit : ℕ → String
digit zero = "0"
digit (suc zero) = "1"
digit (suc (suc zero)) = "2"
digit (suc (suc (suc zero))) = "3"
digit (suc (suc (suc (suc zero)))) = "4"
digit (suc (suc (suc (suc (suc zero))))) = "5"
digit (suc (suc (suc (suc (suc (suc zero)))))) = "6"
digit (suc (suc (suc (suc (suc (suc (suc zero))))))) = "7"
digit (suc (suc (suc (suc (suc (suc (suc (suc zero)))))))) = "8"
digit _ = "9"

-- `format!("{:0w}")` of a number: its decimal digits, at least `w` of them. A u64 has at most
-- twenty digits, the fuel of every call.
unfoldable pub pad : ℕ → ℕ → ℕ → String
unfolding digit
pad zero w n = ""
pad (suc fuel) w n =
    let more = pad fuel (w - 1) (n / 10) ++ digit (n % 10) in
    if ltb n 10 then (if leb w 1 then digit n else more) else more

unfoldable pub rfc3339_from_unix_secs : ℕ → String
unfolding civil_from_days pad
rfc3339_from_unix_secs secs =
    let rem = secs % 86400 in
    let c = civil_from_days (secs / 86400) in
    pad 20 4 c.year
    ++ "-"
    ++ pad 20 2 c.month
    ++ "-"
    ++ pad 20 2 c.day
    ++ "T"
    ++ pad 20 2 (rem / 3600)
    ++ ":"
    ++ pad 20 2 (rem % 3600 / 60)
    ++ ":"
    ++ pad 20 2 (rem % 60)
    ++ "Z"

abbrev pub u64_max : ℕ
u64_max = 2 ^ 64 - 1

abbrev pub now_rfc3339 : ℕ → String
now_rfc3339 clock = rfc3339_from_unix_secs clock

-- `base.saturating_add(secs)`
abbrev pub rfc3339_after : ℕ → ℕ → String
rfc3339_after clock secs = rfc3339_from_unix_secs (min (clock + secs) u64_max)

now_text : rfc3339_from_unix_secs 1783209599 ≡ "2026-07-04T23:59:59Z"
unfolding rfc3339_from_unix_secs
now_text = refl
