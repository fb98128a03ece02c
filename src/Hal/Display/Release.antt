-- ===== src/Hal/Display/Release.antt =====
-- What bb_display_open takes from the kernel, it gives back when it fails, and bb_display_close does otherwise.
use imx8mp_building_blocks.Base.{
  ℕ, ◌+◌, ◌≡◌, ◌≢◌, ◌∙◌, refl, Bool, true, false, none, some, List, [], ◌∷◌, ◌++◌, if◌then◌else◌,
  arith, inl, inr, Bool-cases, Option-cases,
}
use imx8mp_building_blocks.Hal.Display.{
  DisplayType, Dumb, Drm, Display, Resource, descriptor, buffer, framebuffer, mapping, DrmAction,
  takes, gives, set_master, drop_master, shows, find_connector, choose, Opening, fail_open,
  fail_dumb, fail_fb, modeset, map_buffer, add_framebuffer, create_buffer, save_crtc, no_display,
  set_up, display_open, display_close, restore_crtc, give_id,
}
use imx8mp_building_blocks.Hal.Display.Counts.{
  taken, given, taken-append, given-append, one, after_gives, after_takes,
}

-- The ids of buffers and framebuffers start at 1.
pub record HasIds (k : Drm) : Type 0 where
  pub buffers : (w h : ℕ) (dumb : Dumb) → k.create_dumb w h ≡ some dumb → dumb.handle ≢ 0
  pub framebuffers : (id : ℕ) → k.add_fb ≡ some id → id ≢ 0

module _ (r : Resource) where
  restore_crtc-given : (d : Display) → given r (restore_crtc d) ≡ 0
  restore_crtc-given d = ground arith

  give_id-given :
      (kind : ℕ → Resource) (id : ℕ) → id ≢ 0 → given r (give_id kind id) ≡ one r (kind id)
  give_id-given kind id h = ground arith

  master-given : (b : Bool) → given r (if b then drop_master ∷ [] else []) ≡ 0
  master-given true = refl
  master-given false = refl

  close-given :
      (d : Display) (fd address : ℕ)
      → d.fd ≡ some fd
      → d.map ≡ some address
      → d.fb_id ≢ 0
      → d.handle ≢ 0
      → given r (display_close d).1
        ≡ one r (mapping address)
          + one r (framebuffer d.fb_id)
          + one r (buffer d.handle)
          + one r (descriptor fd)
  unfolding display_close
  close-given d fd address e e' fb handle =
      let ids =
        give_id framebuffer d.fb_id ++ (give_id buffer d.handle ++ gives (descriptor fd) ∷ []) in
      rw (e, e')
        (omega (
          arith,
          given-append r (restore_crtc d)
              ((if d.is_master then drop_master ∷ [] else []) ++ (gives (mapping address) ∷ ids)),
          restore_crtc-given d,
          given-append r (if d.is_master then drop_master ∷ [] else [])
              (gives (mapping address) ∷ ids),
          master-given d.is_master,
          given-append r (give_id framebuffer d.fb_id)
              (give_id buffer d.handle ++ gives (descriptor fd) ∷ []),
          given-append r (give_id buffer d.handle) (gives (descriptor fd) ∷ []),
          give_id-given framebuffer d.fb_id fb,
          give_id-given buffer d.handle handle,
        ))

  -- Each resource is given back as often as it is taken, if the display is closed next.
  abbrev Balanced : Opening → Type 0
  Balanced (status, d, asked) = taken r asked ≡ given r asked + given r (display_close d).1

  fail_open-Balanced :
      (d : Display) (asked : List DrmAction) (fd : ℕ)
      → d.fd ≡ some fd
      → taken r asked ≡ given r asked + one r (descriptor fd)
      → Balanced (fail_open d asked)
  unfolding display_close
  fail_open-Balanced d asked fd e h = rw e (
      omega (
        arith,
        h,
        taken-append r asked (gives (descriptor fd) ∷ []),
        given-append r asked (gives (descriptor fd) ∷ []),
      ))

  module _ (fd : ℕ) where
    abbrev d_fd : ℕ
    d_fd = one r (descriptor fd)

    fail_dumb-Balanced :
        (d : Display) (asked : List DrmAction)
        → d.fd ≡ some fd
        → taken r asked ≡ given r asked + (one r (buffer d.handle) + d_fd)
        → Balanced (fail_dumb d asked)
    fail_dumb-Balanced d asked e h =
        fail_open-Balanced (record d { handle = 0 }) (asked ++ gives (buffer d.handle) ∷ []) fd e
          (after_gives r asked (buffer d.handle) d_fd h)

    fail_fb-Balanced :
        (d : Display) (asked : List DrmAction)
        → d.fd ≡ some fd
        → taken r asked
          ≡ given r asked + (one r (framebuffer d.fb_id) + (one r (buffer d.handle) + d_fd))
        → Balanced (fail_fb d asked)
    fail_fb-Balanced d asked e h =
        fail_dumb-Balanced (record d { fb_id = 0 }) (asked ++ gives (framebuffer d.fb_id) ∷ []) e
          (after_gives r asked (framebuffer d.fb_id) (one r (buffer d.handle) + d_fd) h)

    modeset-Balanced :
        (k : Drm) (d : Display) (asked : List DrmAction) (address : ℕ)
        → d.fd ≡ some fd
        → d.map ≡ some address
        → d.fb_id ≢ 0
        → d.handle ≢ 0
        → taken r asked
          ≡ given r asked
            + (one r (mapping address)
                + (one r (framebuffer d.fb_id) + (one r (buffer d.handle) + d_fd)))
        → Balanced (modeset k d asked address)
    unfolding modeset
    modeset-Balanced k d asked address e e' fb handle h =
        let shown = shows d.crtc_id d.fb_id 1 ∷ [] in
        let h' : taken r (asked ++ shown)
            ≡ given r (asked ++ shown)
              + (one r (mapping address)
                  + (one r (framebuffer d.fb_id) + (one r (buffer d.handle) + d_fd))) =
          omega (arith, h, taken-append r asked shown, given-append r asked shown) in
        elim (Bool-cases k.set_crtc) [
          | inl set ↦ rw set (omega (arith, h', close-given d fd address e e' fb handle))
          | inr refused ↦ rw refused (
              fail_fb-Balanced (record d { map = none })
                ((asked ++ shown) ++ gives (mapping address) ∷ []) e
                (after_gives r (asked ++ shown) (mapping address) _ h'))
        ]

    map_buffer-Balanced :
        (k : Drm) (d : Display) (asked : List DrmAction)
        → d.fd ≡ some fd
        → d.fb_id ≢ 0
        → d.handle ≢ 0
        → taken r asked
          ≡ given r asked + (one r (framebuffer d.fb_id) + (one r (buffer d.handle) + d_fd))
        → Balanced (map_buffer k d asked)
    unfolding map_buffer
    map_buffer-Balanced k d asked e fb handle h = elim (Bool-cases k.map_dumb) [
      | inr refused ↦ rw refused (fail_fb-Balanced d asked e h)
      | inl told ↦ elim (Option-cases k.mmap) [
        | inl failed ↦ rw (told, failed) (fail_fb-Balanced d asked e h)
        | inr (address, mapped) ↦
            rw (told, mapped)
              (modeset-Balanced k (record d { map = some address })
                (asked ++ takes (mapping address) ∷ []) address e refl fb handle
                (after_takes r asked (mapping address) _ h))
      ]
    ]

    module _ (k : Drm) (ids : HasIds k) where
      add_framebuffer-Balanced :
          (d : Display) (asked : List DrmAction)
          → d.fd ≡ some fd
          → d.handle ≢ 0
          → taken r asked ≡ given r asked + (one r (buffer d.handle) + d_fd)
          → Balanced (add_framebuffer k d asked)
      unfolding add_framebuffer
      add_framebuffer-Balanced d asked e handle h = elim (Option-cases k.add_fb) [
        | inl refused ↦ rw refused (fail_dumb-Balanced d asked e h)
        | inr (id, added) ↦ rw added (
            map_buffer-Balanced k (record d { fb_id = id }) (asked ++ takes (framebuffer id) ∷ []) e
              (ids.framebuffers id added) handle (after_takes r asked (framebuffer id) _ h))
      ]

      create_buffer-Balanced :
          (d : Display) (asked : List DrmAction)
          → d.fd ≡ some fd
          → taken r asked ≡ given r asked + d_fd
          → Balanced (create_buffer k d asked)
      unfolding create_buffer
      create_buffer-Balanced d asked e h = elim (Option-cases (k.create_dumb d.width d.height)) [
        | inl refused ↦ rw (refused, create_buffer) (fail_open-Balanced d asked fd e h)
        | inr (dumb, made) ↦
            rw (made, create_buffer)
              (add_framebuffer-Balanced
                (record d { handle = dumb.handle; stride = dumb.pitch; size = dumb.size })
                (asked ++ takes (buffer dumb.handle) ∷ []) e
                (ids.buffers d.width d.height dumb made)
                (after_takes r asked (buffer dumb.handle) _ h))
      ]

      save_crtc-fd : (d : Display) → (save_crtc k d).fd ≡ d.fd
      save_crtc-fd d = elim (Option-cases (k.current_fb d.crtc_id)) [
        | inl e ↦ rw (e, save_crtc) refl
        | inr (fb, e) ↦ rw (e, save_crtc) refl
      ]

      set_up-Balanced :
          (type : DisplayType) (d : Display) (asked : List DrmAction)
          → d.fd ≡ some fd
          → taken r asked ≡ given r asked + d_fd
          → Balanced (set_up k type d asked)
      unfolding set_up
      set_up-Balanced type d asked e h =
          elim (Option-cases (if k.counted then k.connectors else none)) [
            | inl untold ↦ rw (untold, set_up) (fail_open-Balanced d asked fd e h)
            | inr (cs, told) ↦ elim (Option-cases (find_connector type cs)) [
              | inl nothing ↦ rw (told, nothing, set_up) (fail_open-Balanced d asked fd e h)
              | inr ((c, mode), found) ↦
                  rw (told, found, set_up)
                    (create_buffer-Balanced (save_crtc k (choose c mode d)) asked
                      (save_crtc-fd (choose c mode d) ∙ e) h)
            ]
          ]

-- Whatever fails on the way, bb_display_open and then bb_display_close give each descriptor, buffer, framebuffer and
-- mapping back as often as they take it, if the ids that the kernel gives out are not 0.
pub display_open-close :
    (k : Drm) (type : DisplayType) (r : Resource)
    → HasIds k
    → let (status, d, asked) = display_open k type in
      taken r asked ≡ given r asked + given r (display_close d).1
unfolding display_open display_close
display_open-close k type r ids = elim (Option-cases k.opens) [
  | inl e ↦ rw e refl
  | inr (fd, e) ↦ rw e (
      set_up-Balanced r fd k ids type (record no_display { fd = some fd; is_master = true })
        (takes (descriptor fd) ∷ set_master ∷ []) refl (omega arith))
]
