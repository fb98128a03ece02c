-- ===== src/Loopback/Report.antt =====
-- The report of tools/bb-audio-loopback.c adds up.
use imx8mp_building_blocks.Base.{
  ℕ, zero, suc, ◌+◌, ◌<◌, ◌≡◌, ◌∙◌, ap, refl, List, [], ◌∷◌, arith, inl, inr, Bool-cases,
}
use imx8mp_building_blocks.Base.Words.{int_mod, int_add, int_sub}
use imx8mp_building_blocks.Audio.{Stream}
use imx8mp_building_blocks.Audio.Lifecycle.{stream_stats}
use imx8mp_building_blocks.Loopback.{Run, Row, report}

-- The count of the last row, and the sum of the differences as a `uint32_t`.
unfoldable pub last_count : ℕ → List Row → ℕ
last_count c [] = c
last_count c (row ∷ rows) = last_count row.cap rows

unfoldable pub add_deltas : ℕ → List Row → ℕ
add_deltas c [] = c
add_deltas c (row ∷ rows) = add_deltas (int_add c row.cap_delta) rows

delta : (c c' : ℕ) → c < int_mod → c' < int_mod → int_add c (int_sub c' c) ≡ c'
delta c c' h h' = omega arith

-- The differences that bb-audio-loopback prints add up to the captured frames that it prints last, also where the
-- counter has wrapped around.
pub report-deltas :
    (r : Run) (s : Stream) (n t c p : ℕ)
    → ((i : ℕ) → (r.later i s).cap_frames < int_mod)
    → c < int_mod
    → add_deltas c (report r s n t c p) ≡ last_count c (report r s n t c p)
unfolding add_deltas last_count report stream_stats
report-deltas r s zero t c p counts h = refl
report-deltas r s (suc n) t c p counts h = elim (Bool-cases (r.interrupted t)) [
  | inl stopped ↦ rw (stopped, report) refl
  | inr goes_on ↦
      let next = r.later (t + 1) s in
      let rest = report r s n (t + 1) next.cap_frames next.pb_frames in
      rw (goes_on, report)
        (ap (λ x. add_deltas x rest) (delta c next.cap_frames h (counts (t + 1)))
          ∙ report-deltas r s n (t + 1) next.cap_frames next.pb_frames counts (counts (t + 1)))
]
