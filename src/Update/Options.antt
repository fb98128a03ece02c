-- ===== src/Update/Options.antt =====
-- tools/bb-update/main.c: which call the command line makes, and the manifest that its options describe.
pub mod Sized
use imx8mp_building_blocks.Base.{
  ℕ, zero, suc, ◌+◌, ◌-◌, ◌%◌, ◌/◌, ◌^◌, ◌<◌, ◌≤◌, ◌≡◌, ◌∙◌, refl, min, ◌==◌, Bool, true, false,
  not, ◌&&◌, ◌||◌, Option, none, some, List, [], ◌∷◌, ◌++◌, if◌then◌else◌, arith, length, take,
  drop, get_or, set, replicate, length-append, length-take, length-set, length-replicate, if_keeps,
  Option-cases, inl, inr,
}
use imx8mp_building_blocks.Base.Bytes.{Bytes, codes, str_eq}
use imx8mp_building_blocks.Json.Writer.{write_at}
use imx8mp_building_blocks.Stdio.{snprintf}
use imx8mp_building_blocks.Update.{Manifest, manifest_size, from_version, to_version}

-- The variables of the option loop.
pub record Options : Type 0 where
  pub manifest : Manifest
  pub boot_tar : Option Bytes
  pub rootfs_tar : Option Bytes
  pub postinstall : Option Bytes
  pub privkey : Option Bytes
  pub output : Option Bytes

-- A `uint64_t` in memory.
abbrev pub to_le64 : ℕ → Bytes
to_le64 n =
    n % 256
    ∷ n / 2 ^ 8 % 256
    ∷ n / 2 ^ 16 % 256
    ∷ n / 2 ^ 24 % 256
    ∷ n / 2 ^ 32 % 256
    ∷ n / 2 ^ 40 % 256
    ∷ n / 2 ^ 48 % 256
    ∷ n / 2 ^ 56 % 256
    ∷ []

-- The variables before the loop, at a time of `now` seconds.
unfoldable pub no_options : ℕ → Options
no_options now = record {
  manifest = write_at 136 (to_le64 now) (set (replicate manifest_size 0) 64 b'=');
  boot_tar = none;
  rootfs_tar = none;
  postinstall = none;
  privkey = none;
  output = none;
}

-- snprintf into a field of `size` bytes.
unfoldable pub put_text : ℕ → ℕ → Bytes → Manifest → Manifest
put_text at size text m = write_at at (snprintf size text ++ 0 ∷ []) m

-- An option and the argument behind it: `none` if it is no option.
unfoldable pub take_option : Bytes → Bytes → Options → Option Options
unfolding put_text
take_option arg value o =
    if str_eq arg (codes "--from")
    then some (record o { manifest = put_text 0 32 value o.manifest })
    else if str_eq arg (codes "--to")
    then some (record o { manifest = put_text 32 32 value o.manifest })
    else if str_eq arg (codes "--slot")
    then some (record o { manifest = set o.manifest 64 (get_or value 0 0) })
    else if str_eq arg (codes "--product")
    then some (record o { manifest = put_text 65 64 value o.manifest })
    else if str_eq arg (codes "--boot")
    then some (record o { boot_tar = some value })
    else if str_eq arg (codes "--rootfs")
    then some (record o { rootfs_tar = some value })
    else if str_eq arg (codes "--post")
    then some (record o { postinstall = some value })
    else if str_eq arg (codes "--sign")
    then some (record o { privkey = some value })
    else none

-- An argument that is no option with a value.
abbrev pub take_plain : Bytes → Options → Options
take_plain arg o = if get_or arg 0 0 == b'-' then o else record o { output = some arg }

unfoldable pub parse : List Bytes → Options → Options
unfolding take_option
parse [] o = o
parse (arg ∷ []) o = take_plain arg o
parse (arg ∷ value ∷ rest) o = elim (take_option arg value o) [
  | none ↦ parse (value ∷ rest) (take_plain arg o)
  | some o' ↦ parse rest o'
]

-- What main goes on to do; `missing` and `usage` end with status 1.
pub data Call : Type 0 where
  usage missing show_slot show_version : Call
  verify_package install_package : Bytes → Call
  create_package : Bytes → Bytes → Options → Call

abbrev is_empty : Bytes → Bool
is_empty [] = true
is_empty (c ∷ s) = false

-- The test of the required arguments, with the two that are pointers.
unfoldable pub checked : Option Bytes → Option Bytes → Options → Call
unfolding from_version to_version
checked none rootfs o = missing
checked (some output) none o = missing
checked (some output) (some rootfs) o =
    if is_empty (from_version o.manifest) || is_empty (to_version o.manifest)
    then missing
    else create_package output rootfs o

-- The argument of `verify` and of `install`.
abbrev pub with_file : (Bytes → Call) → List Bytes → Call
with_file call [] = usage
with_file call (path ∷ rest) = call path

-- main, on the arguments behind the name of the program.
unfoldable pub main : ℕ → List Bytes → Call
unfolding no_options parse checked
main now [] = usage
main now (cmd ∷ args) =
    let o = parse args (no_options now) in
    if str_eq cmd (codes "verify")
    then with_file verify_package args
    else if str_eq cmd (codes "install")
    then with_file install_package args
    else if str_eq cmd (codes "slot")
    then show_slot
    else if str_eq cmd (codes "version")
    then show_version
    else if str_eq cmd (codes "create")
    then checked o.output o.rootfs_tar o
    else usage
