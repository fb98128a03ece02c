-- ===== src/Hal/Display/Tests.antt =====
-- A board with a touch screen on DSI behind an HDMI socket with nothing in it.
use imx8mp_building_blocks.Base.{◌+◌, ◌≡◌, refl, true, false, some, none, [], ◌∷◌, arith}
use imx8mp_building_blocks.Hal.Display.{
  Connector, Drm, dsi, hdmi, any, find_connector, display_open, display_close, get_fb, framebuffer,
  mapping, buffer, descriptor, gives, drop_master, shows,
}
use imx8mp_building_blocks.Hal.Display.Counts.{taken, given}
use imx8mp_building_blocks.Hal.Display.Release.{HasIds, display_open-close}

abbrev screen : Connector
screen = record {
  id = 35;
  connected = true;
  connector_type = 16;
  encoder_id = 34;
  crtc = some 33;
  first_mode = some (record { hdisplay = 1024; vdisplay = 600 });
}

abbrev socket : Connector
socket = record {
  id = 37;
  connected = false;
  connector_type = 11;
  encoder_id = 0;
  crtc = none;
  first_mode = none;
}

abbrev drm : Drm
drm = record {
  opens = some 3;
  counted = true;
  connectors = some (some socket ∷ some screen ∷ []);
  current_fb = λ crtc. some 40;
  create_dumb = λ w h. some (record { handle = 1; pitch = 4096; size = 2457600 });
  add_fb = some 41;
  map_dumb = true;
  mmap = some 4096;
  set_crtc = true;
}

drm-HasIds : HasIds drm
drm-HasIds = record { buffers = λ w h dumb e. ground arith; framebuffers = λ id e. ground arith }

display_open-close_example :
    let (status, d, asked) = display_open drm dsi in
    taken (framebuffer 41) asked
    ≡ given (framebuffer 41) asked + given (framebuffer 41) (display_close d).1
display_open-close_example = display_open-close drm dsi (framebuffer 41) drm-HasIds

pixels : get_fb (display_open drm any).1 ≡ some (4096, 1024, 600, 4096)
unfolding get_fb display_open find_connector
pixels = refl

-- The close shows the old framebuffer, with the mode and no connector.
closing :
    (display_close (display_open drm dsi).1).1
    ≡ shows 33 40 0
      ∷ drop_master
      ∷ gives (mapping 4096)
      ∷ gives (framebuffer 41)
      ∷ gives (buffer 1)
      ∷ gives (descriptor 3)
      ∷ []
unfolding display_open display_close find_connector
closing = refl

no_socket : (display_open drm hdmi).0 ≡ 4294967295
unfolding display_open find_connector
no_socket = refl
