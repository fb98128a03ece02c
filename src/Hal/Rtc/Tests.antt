-- ===== src/Hal/Rtc/Tests.antt =====
-- An open clock, and a driver that takes the months from 0 to 11.
use imx8mp_building_blocks.Base.{◌≡◌, refl, Bool, some, none, [], ltb}
use imx8mp_building_blocks.Hal.Rtc.{Rtc, Time, RtcTime, rtc_set}

abbrev clock : Rtc
clock = record { fd = some 3; device = [] }

abbrev leap_day : Time
leap_day = record { year = 2028; mon = 2; day = 29; hour = 23; min = 59; sec = 59 }

abbrev epoch : Time
epoch = record { year = 1970; mon = 1; day = 1; hour = 0; min = 0; sec = 0 }

abbrev month_known : RtcTime → Bool
month_known t = ltb t.tm_mon 12

leap_day_set : (rtc_set month_known clock leap_day none).0 ≡ 0
unfolding rtc_set
leap_day_set = refl

-- Month 0 is -1 to the driver.
no_month : (rtc_set month_known clock (record leap_day { mon = 0 }) none).0 ≡ 4294967295
unfolding rtc_set
no_month = refl
