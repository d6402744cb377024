-- ===== src/Api/Clock.antt =====
-- packages/core/src/api/clock.ts: the server's clock as the API's answers tell it, and the timestamp
-- that a request is signed at. Seconds and milliseconds are integers. `Date.parse` of a trimmed header
-- is a parameter: `none` where it is not a finite number.
pub mod Window
use Prim.Native.String.{String}
use warren_sdk_ts.Prelude.{
  ℕ, ◌*◌, ◌-◌, ◌^◌, Option, none, some, Bool, leb, ltb, not, ◌&&◌, if◌then◌else◌,
}
use warren_sdk_ts.Prelude.Int.{ℤ, pos, negsuc, abs, ◌+ℤ◌, ◌-ℤ◌, ltb_ℤ, floor_div}

abbrev pub signature_window_secs : ℕ
signature_window_secs = 60

abbrev pub max_forward_correction_secs : ℕ
max_forward_correction_secs = 900

-- `Number.isSafeInteger` of an integer.
abbrev pub is_safe_integer : ℤ → Bool
is_safe_integer a = leb (abs a) (2 ^ 53 - 1)

unfoldable pub clock_offset_secs : Option ℤ → ℤ → Option ℤ
clock_offset_secs none device_now = none
clock_offset_secs (some server_ms) device_now = some (floor_div server_ms 1000 -ℤ device_now)

unfoldable pub applicable_offset : ℤ → ℤ
applicable_offset offset =
    if leb (abs offset * 2) signature_window_secs
    then pos 0
    else if ltb_ℤ (pos max_forward_correction_secs) offset
    then pos 0
    else offset

unfoldable pub corrected_timestamp : ℤ → ℤ → ℤ
unfolding applicable_offset
corrected_timestamp device_now offset =
    let corrected = device_now +ℤ applicable_offset offset in
    if is_safe_integer corrected && not (ltb_ℤ corrected (pos 0)) then corrected else device_now

pub record ServerClock : Type 0 where
  pub offset : ℤ

abbrev pub new_clock : ServerClock
new_clock = record { offset = pos 0 }

abbrev pub record_offset : ServerClock → Option ℤ → ServerClock × Option ℤ
record_offset clock none = (clock, none)
record_offset clock (some offset) = (record clock { offset = offset }, some offset)

-- The answer's header is read, and an offset that it shows is recorded and returned.
unfoldable pub observe_date :
    (String → Option ℤ) → ServerClock → String → ℤ → ServerClock × Option ℤ
unfolding clock_offset_secs
observe_date parse_date clock date_header device_now =
    record_offset clock (clock_offset_secs (parse_date date_header) device_now)

unfoldable pub applied_offset_secs : ServerClock → ℤ
unfolding applicable_offset
applied_offset_secs clock = applicable_offset clock.offset

unfoldable pub stamp : ServerClock → ℤ → ℤ
unfolding corrected_timestamp
stamp clock device_now = corrected_timestamp device_now clock.offset
