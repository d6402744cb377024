-- ===== src/Api/Examples.antt =====
-- The theorems on the request clock at concrete inputs.
use Prim.Native.String.{String}
use warren_sdk_ts.Prelude.{refl, Option, some, arith}
use warren_sdk_ts.Prelude.Int.{ℤ, pos, ◌+ℤ◌, ◌≤ℤ◌, floor_div}
use warren_sdk_ts.Api.Clock.{ServerClock, new_clock, stamp, observe_date}
use warren_sdk_ts.Api.Clock.Window.{stamp-observe_date}

abbrev fast_clock : ServerClock
fast_clock = record { offset = pos 400 }

-- A `Date.parse` that reads every header as 1400.5 seconds
abbrev parse_any : String → Option ℤ
parse_any header = some (pos 1400500)

stamp-observe_date_example :
    let after = (observe_date parse_any new_clock "Thu, 01 Jan 1970 00:23:20 GMT" (pos 1000)).0 in
    (stamp after (pos 1000) ≤ℤ floor_div (pos 1400500) 1000 +ℤ pos 30)
    × (floor_div (pos 1400500) 1000 ≤ℤ stamp after (pos 1000) +ℤ pos 30)
unfolding floor_div ◌+ℤ◌
stamp-observe_date_example =
    stamp-observe_date parse_any new_clock "Thu, 01 Jan 1970 00:23:20 GMT" (pos 1000) (pos 1400500)
      refl (omega arith) (omega arith) (omega arith)
