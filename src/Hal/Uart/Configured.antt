-- ===== src/Hal/Uart/Configured.antt =====
-- The settings of a serial line that bb_uart_open has opened.
use imx8mp_building_blocks.Base.{
  ℕ, ◌≡◌, ◌≢◌, refl, sym, ◌∙◌, ◌⊎◌, ap, true, false, Option, none, some, List, take, Bool-cases,
  inl, inr, arith, Option-cases,
}
use mathlib.Core.Option.{some-ne-none}
use imx8mp_building_blocks.Base.Words.{minus_one}
use imx8mp_building_blocks.Hal.Uart.{
  Uart, Termios, Takes, is_speed, set_baud, uart_open, change, raw, speed_next,
}

-- Raw, 8 bits, no parity, one stop bit, and reads that wait a tenth of a second for the first byte.
pub record IsRaw (baud : ℕ) (t : Termios) : Type 0 where
  pub baud_set : t.speed ≡ baud
  pub receiver : t.local_read ≡ true
  pub parity : t.parenb ≡ false
  pub stop : t.cstopb ≡ false
  pub bits : t.csize ≡ 8
  pub no_line_mode : t.lflag ≡ false
  pub no_flow : t.iflag ≡ false
  pub no_output : t.opost ≡ false
  pub no_minimum : t.vmin ≡ 0
  pub wait : t.vtime ≡ 1

change-cases :
    (k : Takes) (f : Termios → Termios) (tty : Termios)
    → (change k f tty ≡ (0, f tty)) ⊎ (change k f tty ≡ (minus_one, tty))
change-cases k f tty = elim (Bool-cases k.gets) [
  | inl e ↦ elim (Bool-cases k.sets) [
    | inl e' ↦ inl (rw (e, e') refl)
    | inr e' ↦ inr (rw (e, e') refl)
  ]
  | inr e ↦ inr (rw e refl)
]

set_baud-cases :
    (k : Takes) (u : Uart) (baud : ℕ) (tty : Termios)
    → (is_speed baud ≡ true) × (set_baud k u baud tty ≡ (0, record tty { speed = baud }))
      ⊎ ((set_baud k u baud tty).0 ≡ minus_one)
unfolding set_baud
set_baud-cases k u baud tty = elim (Option-cases u.fd) [
  | inl e ↦ inr (rw e refl)
  | inr (fd, e) ↦ elim (Bool-cases (is_speed baud)) [
    | inl known ↦ elim (change-cases k (λ (t : Termios). record t { speed = baud }) tty) [
      | inl e' ↦ inl (known, rw (e, known, e') refl)
      | inr e' ↦ inr (rw (e, known, e') refl)
    ]
    | inr unknown ↦ inr (rw (e, unknown) refl)
  ]
]

speed_next_done :
    (k : Takes) (u : Uart) (baud : ℕ) (tty tty' : Termios)
    → set_baud k u baud tty ≡ (0, tty')
    → speed_next k u baud (0, tty) ≡ (0, tty', false)
unfolding speed_next
speed_next_done k u baud tty tty' e = ap (λ (s : ℕ × Termios). (s.0, s.1, false)) e

-- A call of bb_uart_open returns 0 only if the descriptor is opened and the speed is in the list, and then the
-- line is raw at this speed and the descriptor is not closed.
pub uart_open-IsRaw :
    (opens : Option ℕ) (k k' : Takes) (device : List ℕ) (baud : ℕ) (tty : Termios)
    → (uart_open opens k k' device baud tty).1.0 ≡ 0
    → (opens ≢ none)
      × (is_speed baud ≡ true)
      × IsRaw baud (uart_open opens k k' device baud tty).1.1
      × ((uart_open opens k k' device baud tty).1.2 ≡ false)
unfolding uart_open speed_next
uart_open-IsRaw none k k' device baud tty ok = absurd (omega (arith, ok))
uart_open-IsRaw (some fd) k k' device baud tty ok =
    let u : Uart = record { fd = some fd; device = take 63 device } in
    elim (change-cases k raw tty) [
      | inr e ↦ absurd (omega (arith, ap (λ r. (speed_next k' u baud r).0) (sym e) ∙ ok))
      | inl e ↦ elim (set_baud-cases k' u baud (raw tty)) [
        | inr e' ↦
            absurd (omega (arith, sym e' ∙ ap (λ r. (speed_next k' u baud r).0) (sym e) ∙ ok))
        | inl (known, e') ↦
            let tty' : Termios = record (raw tty) { speed = baud } in
            let r = ap (speed_next k' u baud) e ∙ speed_next_done k' u baud (raw tty) tty' e' in
            (
              λ h. some-ne-none fd h,
              known,
              rw r (record {
                baud_set = refl;
                receiver = refl;
                parity = refl;
                stop = refl;
                bits = refl;
                no_line_mode = refl;
                no_flow = refl;
                no_output = refl;
                no_minimum = refl;
                wait = refl;
              }),
              ap (λ o. o.2) r,
            )
      ]
    ]
