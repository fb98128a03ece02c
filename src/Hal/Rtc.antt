-- ===== src/Hal/Rtc.antt =====
-- hal/bb_hal_rtc.c: the clock. Its numbers are patterns of `int`; what the driver answers is an argument.
pub mod Times
mod Tests
use imx8mp_building_blocks.Base.{
  ℕ, Bool, true, false, Option, none, some, List, take, if◌then◌else◌,
}
use imx8mp_building_blocks.Base.Words.{minus_one, int_add, int_sub}

-- `bb_rtc_t`; the descriptor is none for -1.
pub record Rtc : Type 0 where
  pub fd : Option ℕ
  pub device : List ℕ

-- `bb_rtc_time_t`
pub record Time : Type 0 where
  pub year : ℕ
  pub mon : ℕ
  pub day : ℕ
  pub hour : ℕ
  pub min : ℕ
  pub sec : ℕ

-- The fields of `struct rtc_time` that are used: the years count from 1900 and the months from 0.
pub record RtcTime : Type 0 where
  pub tm_year : ℕ
  pub tm_mon : ℕ
  pub tm_mday : ℕ
  pub tm_hour : ℕ
  pub tm_min : ℕ
  pub tm_sec : ℕ

-- bb_rtc_open
unfoldable pub rtc_open : Option ℕ → List ℕ → ℕ × Rtc
rtc_open opens device =
    let rtc : Rtc = record { fd = opens; device = take 63 device } in
    elim opens [ none ↦ (minus_one, rtc) | some fd ↦ (0, rtc) ]

abbrev pub of_driver : RtcTime → Time
of_driver rt = record {
  year = int_add rt.tm_year 1900;
  mon = int_add rt.tm_mon 1;
  day = rt.tm_mday;
  hour = rt.tm_hour;
  min = rt.tm_min;
  sec = rt.tm_sec;
}

abbrev pub to_driver : Time → RtcTime
to_driver t = record {
  tm_year = int_sub t.year 1900;
  tm_mon = int_sub t.mon 1;
  tm_mday = t.day;
  tm_hour = t.hour;
  tm_min = t.min;
  tm_sec = t.sec;
}

-- bb_rtc_read, with what RTC_RD_TIME gives, or none for an error: the status, and the time behind `t`.
unfoldable pub rtc_read : Rtc → Option RtcTime → Time → ℕ × Time
rtc_read rtc clock t = elim rtc.fd [
  | none ↦ (minus_one, t)
  | some fd ↦ elim clock [ none ↦ (minus_one, t) | some rt ↦ (0, of_driver rt) ]
]

-- bb_rtc_set: the status, and the clock after RTC_SET_TIME, which is the one before if the driver refuses.
unfoldable pub rtc_set : (RtcTime → Bool) → Rtc → Time → Option RtcTime → ℕ × Option RtcTime
rtc_set takes rtc t clock = elim rtc.fd [
  | none ↦ (minus_one, clock)
  | some fd ↦ if takes (to_driver t) then (0, some (to_driver t)) else (minus_one, clock)
]

-- bb_rtc_close: the descriptor that is closed.
unfoldable pub rtc_close : Rtc → Rtc × Option ℕ
rtc_close rtc = (record rtc { fd = none }, rtc.fd)
