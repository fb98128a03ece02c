-- ===== src/Hal/Rtc/Times.antt =====
-- What is set on the clock is read from it.
use imx8mp_building_blocks.Base.{
  ℕ, ◌<◌, ◌≡◌, refl, ap, ap₂, sym, ◌∙◌, Bool, Option, Bool-cases, inl, inr, Option-cases, arith,
}
use imx8mp_building_blocks.Base.Words.{int_mod, minus_one, int_add, int_sub}
use imx8mp_building_blocks.Hal.Rtc.{Rtc, Time, RtcTime, rtc_set, rtc_read, to_driver, of_driver}

add-sub : (a n : ℕ) → a < int_mod → n < int_mod → int_add (int_sub a n) n ≡ a
add-sub a n h h' = omega arith

of_driver-to_driver : (t : Time) → t.year < int_mod → t.mon < int_mod → of_driver (to_driver t) ≡ t
of_driver-to_driver t year mon =
    ap₂ (λ y m. record t { year = y; mon = m }) (add-sub t.year 1900 year (omega arith))
      (add-sub t.mon 1 mon (omega arith))

-- If bb_rtc_set returns 0, a bb_rtc_read of the clock that it leaves gives the same time, for every year and month
-- that an `int` holds.
pub rtc_set-read :
    (takes : RtcTime → Bool) (rtc : Rtc) (t t' : Time) (clock : Option RtcTime)
    → t.year < int_mod
    → t.mon < int_mod
    → (rtc_set takes rtc t clock).0 ≡ 0
    → rtc_read rtc (rtc_set takes rtc t clock).1 t' ≡ (0, t)
unfolding rtc_set rtc_read
rtc_set-read takes rtc t t' clock year mon ok = elim (Option-cases rtc.fd) [
  | inl e ↦
      let closed : (rtc_set takes rtc t clock).0 ≡ minus_one = rw e refl in
      absurd (omega (arith, sym closed ∙ ok))
  | inr (fd, e) ↦ elim (Bool-cases (takes (to_driver t))) [
    | inl taken ↦ rw (e, taken) (ap (λ u. (0, u)) (of_driver-to_driver t year mon))
    | inr refused ↦
        let not_set : (rtc_set takes rtc t clock).0 ≡ minus_one = rw (e, refused) refl in
        absurd (omega (arith, sym not_set ∙ ok))
  ]
]
