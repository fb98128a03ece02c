-- ===== src/Update/Options/Sized.antt =====
-- The manifest that the options of bb-update describe keeps the size of `bb_update_manifest_t`.
use imx8mp_building_blocks.Base.{
  length-drop, ℕ, ◌+◌, ◌-◌, ◌<◌, ◌≤◌, ◌≡◌, ◌∙◌, ◌==◌, Option, none, some, List, [], ◌∷◌, ◌++◌,
  arith, length, take, drop, get_or, set, replicate, length-append, length-take, length-set,
  length-replicate, if_keeps, Option-cases, inl, inr,
}
use imx8mp_building_blocks.Base.Bytes.{Bytes, codes, str_eq}
use imx8mp_building_blocks.Json.Writer.{write_at}
use imx8mp_building_blocks.Stdio.{snprintf}
use imx8mp_building_blocks.Update.{Manifest, manifest_size}
use imx8mp_building_blocks.Update.Options.{
  Options, to_le64, no_options, put_text, take_option, take_plain, parse,
}

-- The manifest keeps its size.
abbrev IsSized : Manifest → Type 0
IsSized m = length m ≡ manifest_size

length-write_at :
    (at : ℕ) (bytes m : Bytes)
    → at + length bytes ≤ length m
    → length (write_at at bytes m) ≡ length m
length-write_at at bytes m h = omega (
  arith,
  length-append (take at m) (bytes ++ drop (at + length bytes) m),
  length-append bytes (drop (at + length bytes) m),
  length-take at m,
  length-drop (at + length bytes) m,
)

put_text-IsSized :
    (at size : ℕ) (text : Bytes) (m : Manifest)
    → 0 < size
    → at + size ≤ manifest_size
    → IsSized m
    → IsSized (put_text at size text m)
unfolding put_text
put_text-IsSized at size text m pos room h =
    let shown = length-append (take (size - 1) text) (0 ∷ []) in
    let cut = length-take (size - 1) text in
    length-write_at at (snprintf size text ++ 0 ∷ []) m (omega arith) ∙ h

OptionSized : Option Options → Type 0
OptionSized none = Unit
OptionSized (some o) = IsSized o.manifest

OptionSized-none : OptionSized none
unfolding OptionSized
OptionSized-none = tt

OptionSized-some : (o : Options) → IsSized o.manifest → OptionSized (some o)
unfolding OptionSized
OptionSized-some o h = h

OptionSized-eq_some :
    (t : Option Options) (o : Options) → t ≡ some o → OptionSized t → IsSized o.manifest
unfolding OptionSized
OptionSized-eq_some t o e h = rw e at h

module _ (arg value : Bytes) (o : Options) (h : IsSized o.manifest) where
  text_case :
      (at size : ℕ)
      → 0 < size
      → at + size ≤ manifest_size
      → OptionSized (some (record o { manifest = put_text at size value o.manifest }))
  text_case at size pos room =
      OptionSized-some _ (put_text-IsSized at size value o.manifest pos room h)

  take_option-IsSized : OptionSized (take_option arg value o)
  unfolding take_option
  take_option-IsSized = if_keeps OptionSized _ (text_case 0 32 (omega arith) (omega arith)) (
      if_keeps OptionSized _ (text_case 32 32 (omega arith) (omega arith)) (
        if_keeps OptionSized _
          (OptionSized-some _ (length-set o.manifest 64 (get_or value 0 0) ∙ h))
          (if_keeps OptionSized _ (text_case 65 64 (omega arith) (omega arith)) (
            if_keeps OptionSized (str_eq arg (codes "--boot"))
              (OptionSized-some (record o { boot_tar = some value }) h)
              (if_keeps OptionSized (str_eq arg (codes "--rootfs"))
                (OptionSized-some (record o { rootfs_tar = some value }) h)
                (if_keeps OptionSized (str_eq arg (codes "--post"))
                  (OptionSized-some (record o { postinstall = some value }) h)
                  (if_keeps OptionSized (str_eq arg (codes "--sign"))
                    (OptionSized-some (record o { privkey = some value }) h) OptionSized-none)))))))

take_plain-IsSized :
    (arg : Bytes) (o : Options) → IsSized o.manifest → IsSized (take_plain arg o).manifest
take_plain-IsSized arg o h =
    if_keeps (λ (p : Options). IsSized p.manifest) (get_or arg 0 0 == b'-') h h

parse-IsSized :
    (args : List Bytes) (o : Options) → IsSized o.manifest → IsSized (parse args o).manifest
unfolding parse
parse-IsSized [] o h = h
parse-IsSized (arg ∷ []) o h = take_plain-IsSized arg o h
parse-IsSized (arg ∷ value ∷ rest) o h = elim (Option-cases (take_option arg value o)) [
  | inl plain ↦
      rw (plain, parse)
        (parse-IsSized (value ∷ rest) (take_plain arg o) (take_plain-IsSized arg o h))
  | inr (o', e) ↦
      rw (e, parse)
        (parse-IsSized rest o'
          (OptionSized-eq_some (take_option arg value o) o' e (take_option-IsSized arg value o h)))
]

-- Whatever the options and however long their values, the manifest that they describe has the size of
-- `bb_update_manifest_t`: no option writes past its end.
pub parse-sized :
    (now : ℕ) (args : List Bytes) → length (parse args (no_options now)).manifest ≡ manifest_size
unfolding no_options
parse-sized now args =
    parse-IsSized args (no_options now)
      (length-write_at 136 (to_le64 now) blank (omega (arith, blank_sized)) ∙ blank_sized)
  where
    blank : Manifest
    blank = set (replicate manifest_size 0) 64 b'='

    blank_sized : length blank ≡ manifest_size
    blank_sized =
        length-set {A = ℕ} (replicate manifest_size 0) 64 b'='
        ∙ length-replicate {A = ℕ} manifest_size 0
