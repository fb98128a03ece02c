-- ===== src/Hal/Display.antt =====
-- hal/bb_hal_display.c: a screen over the ioctls of DRM. What the kernel answers is an argument, and what is asked
-- of it comes out as a list.
pub mod Choice
pub mod Counts
pub mod Release
mod Tests
use imx8mp_building_blocks.Base.{
  ℕ, ◌==◌, ◌||◌, ◌&&◌, not, Bool, true, false, Option, none, some, List, [], ◌∷◌, ◌++◌,
  if◌then◌else◌,
}
use imx8mp_building_blocks.Base.Words.{minus_one}

-- `bb_disp_type_t`
pub data DisplayType : Type 0 where
  dsi lvds hdmi any : DisplayType

-- The resolution of a `struct drm_mode_modeinfo`; the rest of it is passed on.
pub record Mode : Type 0 where
  pub hdisplay : ℕ
  pub vdisplay : ℕ

-- What the kernel tells of a connector: whether a screen is connected, the type of the connector, its encoder with the
-- crtc that drives it, and the first mode of the second call. None stands for a call that fails.
pub record Connector : Type 0 where
  pub id : ℕ
  pub connected : Bool
  pub connector_type : ℕ
  pub encoder_id : ℕ
  pub crtc : Option ℕ
  pub first_mode : Option Mode

pub record Dumb : Type 0 where
  pub handle : ℕ
  pub pitch : ℕ
  pub size : ℕ

-- What bb_display_open meets. `connectors` has one entry for each round of its loop, none if the first call for the id
-- fails. The kernel sets the count to that of all connectors: behind the 32nd the code reads its ids outside the
-- array, and the entry is the answer to whatever stands there.
pub record Drm : Type 0 where
  pub opens : Option ℕ
  pub counted : Bool
  pub connectors : Option (List (Option Connector))
  pub current_fb : ℕ → Option ℕ
  pub create_dumb : ℕ → ℕ → Option Dumb
  pub add_fb : Option ℕ
  pub map_dumb : Bool
  pub mmap : Option ℕ
  pub set_crtc : Bool

-- `bb_display_t`, but for the fields that nothing reads. The descriptor is none for -1 and the map none for NULL.
pub record Display : Type 0 where
  pub fd : Option ℕ
  pub connector_id : ℕ
  pub crtc_id : ℕ
  pub encoder_id : ℕ
  pub fb_id : ℕ
  pub width : ℕ
  pub height : ℕ
  pub stride : ℕ
  pub handle : ℕ
  pub size : ℕ
  pub map : Option ℕ
  pub restored : Bool
  pub saved_fb : ℕ
  pub is_master : Bool

-- What is taken from the kernel and given back to it.
pub data Resource : Type 0 where
  descriptor buffer framebuffer mapping : ℕ → Resource

-- What is asked of the kernel. `shows` is a DRM_IOCTL_MODE_SETCRTC with its crtc, its framebuffer and the number of its
-- connectors.
pub data DrmAction : Type 0 where
  takes gives : Resource → DrmAction
  set_master drop_master : DrmAction
  shows : ℕ → ℕ → ℕ → DrmAction
  page_flip : ℕ → ℕ → DrmAction
  dirty : ℕ → DrmAction

-- The numbers of the connector types in drm_mode.h.
abbrev pub has_type : DisplayType → ℕ → Bool
has_type any t = true
has_type dsi t = t == 16
has_type lvds t = t == 7
has_type hdmi t = t == 11 || t == 12

-- A connector that the loop takes, with its mode.
unfoldable pub usable : DisplayType → Option Connector → Option (Connector × Mode)
usable type none = none
usable type (some c) = elim c.first_mode [
  | none ↦ none
  | some mode ↦ if c.connected && has_type type c.connector_type then some (c, mode) else none
]

-- The loop over the connectors.
unfoldable pub find_connector : DisplayType → List (Option Connector) → Option (Connector × Mode)
unfolding usable
find_connector type [] = none
find_connector type (c ∷ cs) = elim (usable type c) [
  | none ↦ find_connector type cs
  | some found ↦ some found
]

-- What the loop writes of the connector that it takes.
abbrev pub choose : Connector → Mode → Display → Display
choose c mode d = record d {
  encoder_id = c.encoder_id;
  crtc_id = elim c.crtc [ none ↦ d.crtc_id | some crtc ↦ crtc ];
  connector_id = c.id;
  width = mode.hdisplay;
  height = mode.vdisplay;
}

abbrev pub Opening : Type 0
Opening = ℕ × Display × List DrmAction

abbrev pub give_fd : Option ℕ → List DrmAction
give_fd none = []
give_fd (some fd) = gives (descriptor fd) ∷ []

-- The labels at the end of bb_display_open, from the last one on.
abbrev pub fail_open : Display → List DrmAction → Opening
fail_open d asked = (minus_one, record d { fd = none }, asked ++ give_fd d.fd)

abbrev pub fail_dumb : Display → List DrmAction → Opening
fail_dumb d asked = fail_open (record d { handle = 0 }) (asked ++ gives (buffer d.handle) ∷ [])

abbrev pub fail_fb : Display → List DrmAction → Opening
fail_fb d asked = fail_dumb (record d { fb_id = 0 }) (asked ++ gives (framebuffer d.fb_id) ∷ [])

abbrev pub fail_mmap : Display → List DrmAction → ℕ → Opening
fail_mmap d asked address =
    fail_fb (record d { map = none }) (asked ++ gives (mapping address) ∷ [])

-- The initial modeset.
unfoldable pub modeset : Drm → Display → List DrmAction → ℕ → Opening
modeset k d asked address =
    let asked' = asked ++ shows d.crtc_id d.fb_id 1 ∷ [] in
    if k.set_crtc then (0, d, asked') else fail_mmap d asked' address

-- The map of the buffer. After a failed mmap the code keeps MAP_FAILED, which no later call reads.
unfoldable pub map_buffer : Drm → Display → List DrmAction → Opening
unfolding modeset
map_buffer k d asked =
    if k.map_dumb
    then elim k.mmap [
      | none ↦ fail_fb d asked
      | some address ↦
          modeset k (record d { map = some address }) (asked ++ takes (mapping address) ∷ [])
            address
    ]
    else fail_fb d asked

unfoldable pub add_framebuffer : Drm → Display → List DrmAction → Opening
unfolding map_buffer
add_framebuffer k d asked = elim k.add_fb [
  | none ↦ fail_dumb d asked
  | some id ↦ map_buffer k (record d { fb_id = id }) (asked ++ takes (framebuffer id) ∷ [])
]

unfoldable pub create_buffer : Drm → Display → List DrmAction → Opening
unfolding add_framebuffer
create_buffer k d asked = elim (k.create_dumb d.width d.height) [
  | none ↦ fail_open d asked
  | some dumb ↦
      add_framebuffer k (record d { handle = dumb.handle; stride = dumb.pitch; size = dumb.size })
        (asked ++ takes (buffer dumb.handle) ∷ [])
]

-- The framebuffer that is shown is saved, to be restored at the end.
abbrev pub save_crtc : Drm → Display → Display
save_crtc k d = elim (k.current_fb d.crtc_id) [
  | none ↦ d
  | some fb ↦ record d { saved_fb = fb; restored = true }
]

-- What bb_display_open makes of the structure at first.
abbrev pub no_display : Display
no_display = record {
  fd = none;
  connector_id = 0;
  crtc_id = 0;
  encoder_id = 0;
  fb_id = 0;
  width = 0;
  height = 0;
  stride = 0;
  handle = 0;
  size = 0;
  map = none;
  restored = false;
  saved_fb = 0;
  is_master = false;
}

-- With an open device.
unfoldable pub set_up : Drm → DisplayType → Display → List DrmAction → Opening
unfolding find_connector create_buffer
set_up k type d asked = elim (if k.counted then k.connectors else none) [
  | none ↦ fail_open d asked
  | some cs ↦ elim (find_connector type cs) [
    | none ↦ fail_open d asked
    | some (c, mode) ↦ create_buffer k (save_crtc k (choose c mode d)) asked
  ]
]

-- bb_display_open
unfoldable pub display_open : Drm → DisplayType → Opening
unfolding set_up
display_open k type = elim k.opens [
  | none ↦ (minus_one, no_display, [])
  | some fd ↦
      set_up k type (record no_display { fd = some fd; is_master = true })
        (takes (descriptor fd) ∷ set_master ∷ [])
]

-- bb_display_get_fb: the address, the width, the height and the stride.
unfoldable pub get_fb : Display → Option (ℕ × ℕ × ℕ × ℕ)
get_fb d = elim d.fd [
  | none ↦ none
  | some fd ↦ elim d.map [
    | none ↦ none
    | some address ↦ some (address, d.width, d.height, d.stride)
  ]
]

-- bb_display_flip, with whether a page flip is taken, and what the kernel returns for DIRTYFB.
unfoldable pub flip : Bool → ℕ → Display → ℕ × List DrmAction
flip takes_flip ret d = elim d.fd [
  | none ↦ (minus_one, [])
  | some fd ↦
      if takes_flip
      then (0, page_flip d.crtc_id d.fb_id ∷ [])
      else (ret, page_flip d.crtc_id d.fb_id ∷ dirty d.fb_id ∷ [])
]

-- The parts of bb_display_close.
abbrev pub restore_crtc : Display → List DrmAction
restore_crtc d =
    if d.restored && not (d.saved_fb == 0) then shows d.crtc_id d.saved_fb 0 ∷ [] else []

abbrev pub unmap_fb : Option ℕ → List DrmAction
unmap_fb none = []
unmap_fb (some address) = gives (mapping address) ∷ []

abbrev pub give_id : (ℕ → Resource) → ℕ → List DrmAction
give_id kind id = if id == 0 then [] else gives (kind id) ∷ []

-- bb_display_close
unfoldable pub display_close : Display → Display × List DrmAction
display_close d = elim d.fd [
  | none ↦ (d, [])
  | some fd ↦ (
    record d { map = none; fb_id = 0; handle = 0; fd = none },
    restore_crtc d
        ++ ((if d.is_master then drop_master ∷ [] else [])
            ++ (unmap_fb d.map
                ++ (give_id framebuffer d.fb_id
                    ++ (give_id buffer d.handle ++ gives (descriptor fd) ∷ [])))),
  )
]
