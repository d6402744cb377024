-- ===== src/Api/Clock/Window.antt =====
-- Where a corrected stamp lies.
use Prim.Native.String.{String}
use warren_sdk_ts.Prelude.{◌^◌, ◌<◌, ◌≡◌, sym, arith, Option, none, some}
use warren_sdk_ts.Prelude.Int.{ℤ, pos, abs, ◌+ℤ◌, ◌≤ℤ◌, floor_div, +ℤ_parts, +ℤ-sub}
use warren_sdk_ts.Api.Clock.{ServerClock, observe_date, stamp, max_forward_correction_secs}

-- A stamp is never moved more than a quarter of an hour ahead of the device clock, whatever offset
-- an answer showed.
pub stamp_forward_bound :
    (clock : ServerClock) (device_now : ℤ)
    → stamp clock device_now ≤ℤ device_now +ℤ pos max_forward_correction_secs
unfolding stamp ◌+ℤ◌
stamp_forward_bound clock device_now = ground arith

-- On a device clock that is not negative a stamp is not negative.
pub stamp_nonneg :
    (clock : ServerClock) (device_now : ℤ) → pos 0 ≤ℤ device_now → pos 0 ≤ℤ stamp clock device_now
unfolding stamp ◌+ℤ◌
stamp_nonneg clock device_now h = ground arith

-- Where the measured offset is the true one, is at most a quarter of an hour and gives a server time
-- that is a safe integer from 0 on, the stamp lies within 30 seconds of the server's clock.
pub stamp_in_window :
    (clock : ServerClock) (device_now server_now : ℤ)
    → server_now ≡ device_now +ℤ clock.offset
    → clock.offset ≤ℤ pos max_forward_correction_secs
    → pos 0 ≤ℤ server_now
    → abs server_now < 2 ^ 53
    → (stamp clock device_now ≤ℤ server_now +ℤ pos 30)
      × (server_now ≤ℤ stamp clock device_now +ℤ pos 30)
unfolding stamp ◌+ℤ◌
stamp_in_window clock device_now server_now e forward nonneg safe = (ground arith, ground arith)

observe_unparseable :
    (parse_date : String → Option ℤ) (clock : ServerClock) (header : String) (device_now : ℤ)
    → parse_date header ≡ none
    → observe_date parse_date clock header device_now ≡ (clock, none)
unfolding observe_date
observe_unparseable parse_date clock header device_now h = rw h

observed_offset :
    (parse_date : String → Option ℤ) (clock : ServerClock) (header : String) (device_now ms : ℤ)
    → parse_date header ≡ some ms
    → device_now +ℤ (observe_date parse_date clock header device_now).0.offset ≡ floor_div ms 1000
unfolding observe_date
observed_offset parse_date clock header device_now ms h =
    rw h (+ℤ-sub device_now (floor_div ms 1000))

-- Once an answer's `Date` has been read, a stamp taken at the same device time lies within 30 seconds
-- of the server's clock (the header's seconds, rounded down), half of what the server accepts, where
-- the server is at most a quarter of an hour ahead and its time is a safe integer from 0 on.
pub stamp-observe_date :
    (parse_date : String → Option ℤ) (clock : ServerClock) (header : String) (device_now ms : ℤ)
    → parse_date header ≡ some ms
    → floor_div ms 1000 ≤ℤ device_now +ℤ pos max_forward_correction_secs
    → pos 0 ≤ℤ floor_div ms 1000
    → abs (floor_div ms 1000) < 2 ^ 53
    → let after = (observe_date parse_date clock header device_now).0 in
      (stamp after device_now ≤ℤ floor_div ms 1000 +ℤ pos 30)
      × (floor_div ms 1000 ≤ℤ stamp after device_now +ℤ pos 30)
stamp-observe_date parse_date clock header device_now ms h forward nonneg safe =
    let after : ServerClock = (observe_date parse_date clock header device_now).0 in
    let e : device_now +ℤ after.offset ≡ floor_div ms 1000 =
      observed_offset parse_date clock header device_now ms h in
    stamp_in_window after device_now (floor_div ms 1000) (sym e)
      (cancel_forward device_now after.offset _ e forward) nonneg safe
  where
    cancel_forward :
        (now offset server : ℤ)
        → now +ℤ offset ≡ server
        → server ≤ℤ now +ℤ pos max_forward_correction_secs
        → offset ≤ℤ pos max_forward_correction_secs
    cancel_forward now offset server e h =
        omega (arith, +ℤ_parts now offset, +ℤ_parts now (pos 900), (rw (← e) at h))
