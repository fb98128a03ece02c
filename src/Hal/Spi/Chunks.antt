-- ===== src/Hal/Spi/Chunks.antt =====
-- The pieces in which bb_spi_write hands its data to the driver.
use imx8mp_building_blocks.Base.{
  ℕ, zero, suc, ◌+◌, ◌≤◌, ◌<◌, ◌%◌, ◌≡◌, ◌∙◌, inl, inr, refl, ap, Bool, true, false, Option, some,
  ap₂, List, [], ◌∷◌, ◌++◌, length, take, drop, All, take-drop, length-take, length-drop, arith,
  Bool-cases, if◌then◌else◌, append_assoc, append-nil,
}
use imx8mp_building_blocks.Base.Words.{minus_one, int_mod}
use imx8mp_building_blocks.Hal.Spi.{
  Spi, spi_transfer, write_chunks, spi_write, on_transfer, ahead, write_status,
}

abbrev pub joined : List (List ℕ) → List ℕ
joined [] = []
joined (c ∷ cs) = c ++ joined cs

-- From transfer `i` on: every piece is taken and they make up the bytes, or all but the last one are taken and
-- they are the beginning of them.
pub data Pieces (accepts : ℕ → Bool) (i : ℕ) (bytes : List ℕ) : Bool → List (List ℕ) → Type 0 where
  all_sent :
      (sent : List (List ℕ))
      → ((j : ℕ) → j < length sent → accepts (i + j) ≡ true)
      → joined sent ≡ bytes
      → Pieces accepts i bytes true sent
  refused :
      (sent : List (List ℕ)) (last : ℕ) (rest : List ℕ)
      → suc last ≡ length sent
      → ((j : ℕ) → j < last → accepts (i + j) ≡ true)
      → accepts (i + last) ≡ false
      → joined sent ++ rest ≡ bytes
      → Pieces accepts i bytes false sent

abbrev pub IsPiece : List ℕ → Type 0
IsPiece c = (1 ≤ length c) × (length c ≤ 4096)

-- Transfers from `i` on that are all taken, counted from the one before.
taken_also :
    (accepts : ℕ → Bool) (i n : ℕ)
    → accepts i ≡ true
    → ((j : ℕ) → j < n → accepts (i + 1 + j) ≡ true)
    → (j : ℕ) → j < suc n
    → accepts (i + j) ≡ true
taken_also accepts i n taken all zero lt = ap accepts (omega arith) ∙ taken
taken_also accepts i n taken all (suc j) lt = ap accepts (omega arith) ∙ all j (omega arith)

-- A piece that is taken ahead of the others.
Pieces-later :
    {accepts : ℕ → Bool} {i : ℕ} (n : ℕ) {bytes : List ℕ} {done : Bool} {sent : List (List ℕ)}
    → accepts i ≡ true
    → Pieces accepts (i + 1) (drop n bytes) done sent
    → Pieces accepts i bytes done (take n bytes ∷ sent)
Pieces-later {accepts} {i} n {bytes} taken (all_sent sent all whole) =
    all_sent (take n bytes ∷ sent) (taken_also accepts i (length sent) taken all)
      (ap (λ u. take n bytes ++ u) whole ∙ take-drop n bytes)
Pieces-later {accepts} {i} n {bytes} taken (refused sent last rest e all no_more whole) =
    refused (take n bytes ∷ sent) (suc last) rest (ap suc e) (taken_also accepts i last taken all)
      (ap accepts (omega arith) ∙ no_more)
      (append_assoc (take n bytes) (joined sent) rest
        ∙ ap (λ u. take n bytes ++ u) whole
        ∙ take-drop n bytes)

module _ (accepts : ℕ → Bool) (s : Spi) (fd : ℕ) (is_open : s.fd ≡ some fd) where
  Result : ℕ → ℕ → List ℕ → Type 0
  Result rounds i bytes =
      (done : Bool) × (sent : List (List ℕ)) × (write_chunks rounds accepts s i bytes
        ≡ some (done, sent))
      × Pieces accepts i bytes done sent
      × All IsPiece sent

  transfer_taken :
      (c : List ℕ) (rest : Option (Bool × List (List ℕ)))
      → length c ≤ 4096
      → on_transfer (spi_transfer true s c) rest ≡ ahead (c ∷ []) rest
  unfolding spi_transfer
  transfer_taken c rest h = rw is_open (ground arith)

  transfer_refused :
      (c : List ℕ) (rest : Option (Bool × List (List ℕ)))
      → on_transfer (spi_transfer false s c) rest ≡ some (false, c ∷ [])
  unfolding spi_transfer
  transfer_refused c rest = rw is_open refl

  write_chunks-Pieces :
      (rounds i : ℕ) (bytes : List ℕ) → length bytes < rounds → Result rounds i bytes
  unfolding write_chunks Result
  write_chunks-Pieces zero i bytes h = absurd (omega arith)
  write_chunks-Pieces (suc rounds) i [] h =
      (true, [], refl, all_sent [] (λ j lt. absurd (omega arith)) refl, tt)
  write_chunks-Pieces (suc rounds) i (b ∷ bytes) h =
      let c = take 4096 (b ∷ bytes) in
      let size : IsPiece c = (
        omega (arith, length-take 4096 (b ∷ bytes)),
        omega (arith, length-take 4096 (b ∷ bytes)),
      ) in
      let rest = write_chunks rounds accepts s (i + 1) (drop 4096 (b ∷ bytes)) in
      elim (Bool-cases (accepts i)) [
        | inl taken ↦
            let (done, sent, e, pieces, sizes) =
              write_chunks-Pieces rounds (i + 1) (drop 4096 (b ∷ bytes))
                (omega (arith, length-drop 4096 (b ∷ bytes))) in
            (
              done,
              c ∷ sent,
              ap₂ (λ b. on_transfer (spi_transfer b s c)) taken e
                  ∙ transfer_taken c (some (done, sent)) size.1,
              Pieces-later 4096 taken pieces,
              (size, sizes),
            )
        | inr not_taken ↦ (
          false,
          c ∷ [],
          ap (λ b. on_transfer (spi_transfer b s c) rest) not_taken ∙ transfer_refused c rest,
          refused (c ∷ []) 0 (drop 4096 (b ∷ bytes)) refl (λ j lt. absurd (omega arith))
              (ap accepts (omega arith) ∙ not_taken)
              (ap (λ u. u ++ drop 4096 (b ∷ bytes)) (append-nil c) ∙ take-drop 4096 (b ∷ bytes)),
          (size, tt),
        )
      ]

-- On an open device, bb_spi_write ends. It hands over pieces of 1 to 4096 bytes: if the driver takes them
-- all, they make up the data and the length is returned; otherwise the last one is the first that is refused,
-- they are the beginning of the data, and -1 is returned.
pub spi_write-Pieces :
    (accepts : ℕ → Bool) (s : Spi) (fd : ℕ) (bytes : List ℕ)
    → s.fd ≡ some fd
    → (done : Bool) × (sent : List (List ℕ)) × (spi_write accepts s bytes
        ≡ some (if done then length bytes % int_mod else minus_one, sent))
      × Pieces accepts 0 bytes done sent
      × All IsPiece sent
unfolding spi_write Result
spi_write-Pieces accepts s fd bytes is_open =
    let (done, sent, e, pieces, sizes) =
      write_chunks-Pieces accepts s fd is_open (suc (length bytes)) 0 bytes (omega arith) in
    (done, sent, ap (write_status (length bytes)) e, pieces, sizes)
