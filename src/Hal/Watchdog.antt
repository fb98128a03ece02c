-- ===== src/Hal/Watchdog.antt =====
-- hal/bb_hal_wdg.c: the watchdog. What the driver answers is an argument, and what is written comes out.
mod Tests
use imx8mp_building_blocks.Base.{
  ℕ, Bool, true, false, Option, none, some, List, [], ◌∷◌, if◌then◌else◌,
}
use imx8mp_building_blocks.Base.Words.{minus_one}

-- `bb_wdg_t`; the descriptor is none for -1.
pub record Wdg : Type 0 where
  pub fd : Option ℕ
  pub timeout : ℕ

-- A byte that is written, or the descriptor that is closed.
pub data WdgAction : Type 0 where
  write_byte : ℕ → WdgAction
  close_fd : ℕ → WdgAction

-- bb_wdg_open, with the timeout that the driver tells: 60 seconds if it tells none.
unfoldable pub wdg_open : Option ℕ → Option ℕ → ℕ × Wdg
wdg_open opens told = elim opens [
  | none ↦ (minus_one, record { fd = none; timeout = 0 })
  | some fd ↦ (0, record { fd = some fd; timeout = elim told [ none ↦ 60 | some t ↦ t ] })
]

-- bb_wdg_set_timeout, with the timeout that the driver writes back into its copy, or none for an error.
unfoldable pub set_timeout : Option ℕ → Wdg → ℕ → ℕ × Wdg
set_timeout settles w seconds = elim w.fd [
  | none ↦ (minus_one, w)
  | some fd ↦ elim settles [
    | none ↦ (minus_one, w)
    | some actual ↦ (0, record w { timeout = actual })
  ]
]

-- bb_wdg_get_timeout
unfoldable pub get_timeout : Option ℕ → Wdg → ℕ × Wdg
get_timeout told w = elim w.fd [
  | none ↦ (minus_one, w)
  | some fd ↦ elim told [ none ↦ (minus_one, w) | some t ↦ (t, record w { timeout = t }) ]
]

-- bb_wdg_kick, with whether the byte is taken.
unfoldable pub kick : Bool → Wdg → ℕ × List WdgAction
kick takes w = elim w.fd [
  | none ↦ (minus_one, [])
  | some fd ↦ (if takes then 0 else minus_one, write_byte b'k' ∷ [])
]

-- bb_wdg_close
unfoldable pub wdg_close : Wdg → Wdg × List WdgAction
wdg_close w = elim w.fd [
  | none ↦ (w, [])
  | some fd ↦ (record w { fd = none }, write_byte b'V' ∷ close_fd fd ∷ [])
]
