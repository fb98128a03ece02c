-- ===== src/Update/Package.antt =====
-- A package that bb_update_create makes, read again, and one that is cut short.
use imx8mp_building_blocks.Base.{
  take-append, drop_all, length-drop, drop-append, ℕ, suc, ◌≤◌, ◌≡◌, ◌≢◌, ◌∙◌, refl, ap, true,
  Option, some, ◌++◌, arith, length, drop, append-nil, length-append, sym,
}
use imx8mp_building_blocks.Base.Bytes.{Bytes}
use imx8mp_building_blocks.Board.{Board}
use imx8mp_building_blocks.Update.{
  Manifest, manifest_size, target_slot, has_magic, fread, verify, read_manifest, current_slot,
}
use imx8mp_building_blocks.Update.Install.{
  Environment, Source, header, header_size, flush, create, choose_slot, install, install_to,
}

fread-whole : (m r old : Bytes) → length old ≡ length m → fread (length m) (m ++ r) old ≡ m
unfolding fread
fread-whole m r old h =
    rw (take-append m r) (ap (λ u. m ++ u) (drop_all old (length m) (omega arith)) ∙ append-nil m)

-- The package is made of the manifest, whatever else the calls are given.
module _ (s : Source) (output : Bytes) (boot : Option Bytes) (rootfs : Bytes) (post : Option Bytes)
    (dir : Bytes) (opens : s.opens ≡ true) (temp : s.temp_dir ≡ some dir) (m : Manifest)
    (sized : length m ≡ manifest_size) where
  abbrev made : Bytes
  made = header m ++ drop header_size s.archived

  header_sized : length (header m) ≡ header_size
  header_sized = omega (arith, sized)

  has_magic-made : has_magic made ≡ true
  unfolding has_magic
  has_magic-made = ground arith

  create-made : (create s output m boot rootfs post).1 ≡ some made
  unfolding create flush
  create-made = rw (opens, temp) (ap (λ n. some (header m ++ drop n s.archived)) header_sized)

  -- bb_update_verify accepts the package of bb_update_create, and bb_update_read_manifest gives the
  -- manifest back, whatever the memory held.
  pub create-read :
      (old : Manifest)
      → length old ≡ manifest_size
      → (verify (create s output m boot rootfs post).1 ≡ 0)
        × (read_manifest (create s output m boot rootfs post).1 old ≡ (0, m))
  unfolding verify read_manifest
  create-read old old_sized = (
    ap verify create-made ∙ rw has_magic-made refl,
    ap (λ f. read_manifest f old) create-made
        ∙ rw has_magic-made (
            ap (λ u. (0, u))
              (rw sized at (fread-whole m (drop header_size s.archived) old (omega arith)))),
  )

  -- tail is given the number of the first byte that it is to print, from 1. The package of
  -- bb_update_create is the header and then the archive without its first 352 bytes, and what
  -- bb_update_install hands to tar out of it is the last byte of the manifest and then that rest: never
  -- the archive, if that has two bytes or more.
  pub extract-create :
      (tail : ℕ → Bytes → Bytes)
      → ((n : ℕ) (t : Bytes) → tail (suc n) t ≡ drop n t)
      → 2 ≤ length s.archived
      → ((create s output m boot rootfs post).1 ≡ some made)
        × (tail header_size made ≡ drop 343 m ++ drop header_size s.archived)
        × (tail header_size made ≢ s.archived)
  extract-create tail documented nonempty = (create-made, handed, differs)
    where
      handed : tail header_size made ≡ drop 343 m ++ drop header_size s.archived
      handed =
          documented 351 made
          ∙ drop-append 343 m (drop header_size s.archived) (omega (arith, sized))

      differs : tail header_size made ≢ s.archived
      differs e =
          let sizes = ap length (sym handed ∙ e) in
          let parts = length-append (drop 343 m) (drop header_size s.archived) in
          absurd (omega (arith, sized, length-drop header_size s.archived, length-drop 343 m))

verify-known : (s : Bytes) → has_magic s ≡ true → verify (some s) ≡ 0
unfolding verify
verify-known s known = rw known refl

read_manifest-short :
    (s : Bytes) (old : Manifest)
    → has_magic s ≡ true
    → length s ≤ 8
    → read_manifest (some s) old ≡ (0, old)
unfolding read_manifest fread
read_manifest-short s old known short = rw known (rw (drop_all s 8 short) refl)

-- A file that holds the magic number and at most the version passes bb_update_verify, and
-- bb_update_install goes on with the manifest that its memory happened to hold: the byte found at the
-- place of the target slot chooses the partitions that are formatted.
pub install-truncated :
    (b : Board) (a : Environment) (path s : Bytes)
    → a.bbu ≡ some s
    → has_magic s ≡ true
    → length s ≤ 8
    → install b a path
      ≡ install_to b a path a.memory (choose_slot (current_slot a.cmdline) (target_slot a.memory))
unfolding install
install-truncated b a path s e known short = simp (accepted, reads)
  where
    accepted : verify a.bbu ≡ 0
    accepted = ap verify e ∙ verify-known s known

    reads : read_manifest a.bbu a.memory ≡ (0, a.memory)
    reads = ap (λ f. read_manifest f a.memory) e ∙ read_manifest-short s a.memory known short
