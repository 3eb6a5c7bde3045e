-- ===== src/Remote/Layouts.antt =====
-- The two rendered layouts (adaptive_remote.py): `render_multimedia_remote`,
-- `render_universal_gamepad` and `select_gamepad_controller`.
pub mod Fit
use skeleton_media.Base.{
  ℕ, ◌+◌, String, Bool, true, false, not, ◌&&◌, List, [], ◌∷◌, ◌==◌, string_eq, nat_eq, Result, ok,
  ◌>>◌, raise_if, map,
}
use skeleton_media.Remote.Contract.{
  ActiveHomeMode, MultimediaProfile, ControlInterface, multimedia_remote, gamepad,
}
use skeleton_media.Remote.Modes.{OrientationMode, portrait, landscape, multimedia_profile_for_mode}

pub data Shape : Type 0 where
  rounded_rect circle dpad_segment : Shape

pub record ButtonLayout : Type 0 where
  pub button : String
  pub x : ℕ
  pub y : ℕ
  pub width : ℕ
  pub height : ℕ
  pub shape : Shape

-- Left, top, right and bottom.
abbrev pub bounds : ButtonLayout → ℕ × ℕ × ℕ × ℕ
bounds b = (b.x, b.y, b.x + b.width, b.y + b.height)

pub record RemoteRenderSpec : Type 0 where
  pub interface : ControlInterface
  pub width : ℕ
  pub height : ℕ
  pub orientation : OrientationMode
  pub profile : MultimediaProfile
  pub buttons : List ButtonLayout

abbrev pub button_ids : RemoteRenderSpec → List String
button_ids r = map (λ b. b.button) r.buttons

abbrev place : String → ℕ → ℕ → ℕ → ℕ → Shape → ButtonLayout
place name left top w h s = record {
  button = name;
  x = left;
  y = top;
  width = w;
  height = h;
  shape = s;
}

abbrev pub multimedia_buttons : List ButtonLayout
multimedia_buttons =
    place "power" 24 28 58 58 circle
    ∷ place "mute" 166 28 58 58 circle
    ∷ place "refresh" 308 28 58 58 circle
    ∷ place "dpad_up" 155 154 80 70 dpad_segment
    ∷ place "dpad_left" 86 223 70 80 dpad_segment
    ∷ place "ok" 158 226 74 74 circle
    ∷ place "dpad_right" 234 223 70 80 dpad_segment
    ∷ place "dpad_down" 155 303 80 70 dpad_segment
    ∷ place "back" 38 414 78 54 rounded_rect
    ∷ place "home" 156 414 78 54 rounded_rect
    ∷ place "menu" 274 414 78 54 rounded_rect
    ∷ place "previous" 38 526 64 52 rounded_rect
    ∷ place "rewind" 120 526 64 52 rounded_rect
    ∷ place "play_pause" 203 526 64 52 rounded_rect
    ∷ place "fast_forward" 286 526 64 52 rounded_rect
    ∷ place "next" 38 606 64 52 rounded_rect
    ∷ place "volume_down" 120 688 96 78 rounded_rect
    ∷ place "volume_up" 236 688 96 78 rounded_rect
    ∷ []

abbrev pub universal_buttons : List ButtonLayout
universal_buttons =
    place "library" 24 18 56 44 rounded_rect
    ∷ place "android_tv" 96 18 56 44 rounded_rect
    ∷ place "select" 336 24 70 42 rounded_rect
    ∷ place "start" 438 24 70 42 rounded_rect
    ∷ place "safe_exit" 764 18 56 44 rounded_rect
    ∷ place "l" 166 84 84 46 rounded_rect
    ∷ place "r" 594 84 84 46 rounded_rect
    ∷ place "dpad_up" 118 150 68 58 dpad_segment
    ∷ place "dpad_left" 58 207 58 68 dpad_segment
    ∷ place "dpad_right" 188 207 58 68 dpad_segment
    ∷ place "dpad_down" 118 278 68 58 dpad_segment
    ∷ place "y" 665 148 58 58 circle
    ∷ place "x" 604 209 58 58 circle
    ∷ place "b" 726 209 58 58 circle
    ∷ place "a" 665 270 58 58 circle
    ∷ []

pub render_multimedia_remote : ℕ → ℕ → ActiveHomeMode → Result RemoteRenderSpec
render_multimedia_remote w h mode = do
  raise_if (not ((w == 390) && (h == 844)))
      "portrait multimedia remote reference viewport must be 390x844"
  ok (record {
    interface = multimedia_remote;
    width = w;
    height = h;
    orientation = portrait;
    profile = multimedia_profile_for_mode mode;
    buttons = multimedia_buttons;
  })

pub render_universal_gamepad : ℕ → ℕ → Result RemoteRenderSpec
render_universal_gamepad w h = do
  raise_if (not ((w == 844) && (h == 390))) "landscape gamepad reference viewport must be 844x390"
  ok (record {
    interface = gamepad;
    width = w;
    height = h;
    orientation = landscape;
    profile = MultimediaProfile.game;
    buttons = universal_buttons;
  })

-- The two renderers, by the interface that they render.
abbrev pub render : ControlInterface → ℕ → ℕ → ActiveHomeMode → Result RemoteRenderSpec
render multimedia_remote w h mode = render_multimedia_remote w h mode
render gamepad w h mode = render_universal_gamepad w h

pub select_gamepad_controller : String → Result ControlInterface
select_gamepad_controller selector = do
  raise_if (not (selector == "universal_gamepad"))
      "only the universal gamepad controller is supported"
  ok gamepad
