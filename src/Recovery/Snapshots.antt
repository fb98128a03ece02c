-- ===== src/Recovery/Snapshots.antt =====
-- A snapshot that is restored: what bb_snapshot_create writes, read by bb_recovery_restore_snapshot.
use imx8mp_building_blocks.Base.{
  take_all, ℕ, ◌==◌, ◌≤◌, ◌≡◌, ◌∙◌, refl, ap, sym, true, none, [], ◌∷◌, ◌++◌, if◌then◌else◌, arith,
  length, length-append, inl, inr, Bool-cases, append_assoc,
}
use imx8mp_building_blocks.Base.Bytes.{Bytes, codes, starts_with, starts_with-append}
use imx8mp_building_blocks.Bus.Words.{scan_word}
use imx8mp_building_blocks.Json.Reader.{after_word}
use imx8mp_building_blocks.Stdio.{fgets_all, fgets_from, snprintf, has_word}
use imx8mp_building_blocks.Recovery.{
  Command, unpack, reimage, snapshot_dir, two_words, restore_lines, restore_snapshot,
  snapshot_create,
}

has_word-here : (w s : Bytes) → starts_with w s ≡ true → has_word w s ≡ true
unfolding has_word after_word
has_word-here w [] h = rw (h, has_word) refl
has_word-here w (c ∷ s) h = rw (h, has_word) refl

has_word-cons : (w : Bytes) (c : ℕ) (s : Bytes) → has_word w s ≡ true → has_word w (c ∷ s) ≡ true
unfolding has_word after_word
has_word-cons w c s h = elim (Bool-cases (starts_with w (c ∷ s))) [
  | inl here ↦ rw (here, has_word) refl
  | inr later ↦ rw (later, has_word) h
]

has_word-append : (w p r : Bytes) → has_word w (p ++ (w ++ r)) ≡ true
has_word-append w [] r = has_word-here w (w ++ r) (starts_with-append w r)
has_word-append w (c ∷ p) r = has_word-cons w c (p ++ (w ++ r)) (has_word-append w p r)

abbrev persist_device : Bytes
persist_device = codes "/dev/mmcblk0p9"

-- The archive of a snapshot, which pack_persist writes.
abbrev pub packed : Bytes → Bytes
packed label = (codes "/recovery/snapshots/" ++ label) ++ codes "/persist.tar.gz"

module _ (label : Bytes) (short : length label ≤ 220) where
  snapshot_dir-short : snapshot_dir label ≡ codes "/recovery/snapshots/" ++ label
  unfolding snapshot_dir
  snapshot_dir-short = take_all 255 (codes "/recovery/snapshots/" ++ label) (omega arith)

  packed_fits : snprintf 256 (packed label) ≡ packed label
  packed_fits = take_all 255 (packed label) (
      omega
        (arith, length-append (codes "/recovery/snapshots/" ++ label) (codes "/persist.tar.gz")))

  packed-tar : has_word (codes ".tar") (packed label) ≡ true
  packed-tar =
      ap (has_word (codes ".tar")) (
        sym (
          append_assoc (codes "/recovery/snapshots/" ++ label) (codes "/persist")
            (codes ".tar.gz")))
      ∙ has_word-append (codes ".tar") ((codes "/recovery/snapshots/" ++ label) ++ codes "/persist")
          (codes ".gz")

  reimage-packed :
      reimage persist_device (snprintf 256 (snapshot_dir label ++ codes "/persist.tar.gz"))
      ≡ unpack persist_device (packed label)
  unfolding reimage
  reimage-packed =
      ap (λ d. reimage persist_device (snprintf 256 (d ++ codes "/persist.tar.gz")))
        snapshot_dir-short
      ∙ ap (reimage persist_device) packed_fits
      ∙ rw packed-tar refl

  -- A snapshot with a label of at most 220 bytes is restored from the manifest that its creation wrote:
  -- one command, which unpacks the archive of the snapshot onto /dev/mmcblk0p9. The status is 0 exactly
  -- if that command succeeds, and 1 else.
  pub restore-create :
      (answer : ℕ → Command → ℕ)
      → restore_snapshot answer true (snapshot_create none true label).1 label ≡ (
        (if answer 0 (unpack persist_device (packed label)) == 0 then 0 else 1),
        unpack persist_device (packed label) ∷ [],
      )
  unfolding restore_snapshot snapshot_create fgets_all fgets_from restore_lines two_words scan_word
  restore-create answer =
      rw reimage-packed (ap (λ n. (n, unpack persist_device (packed label) ∷ [])) (omega arith))
