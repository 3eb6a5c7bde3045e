-- ===== src/Remote/Contract.antt =====
-- The closed contract of adaptive_remote.py: modes, interfaces, buttons and the broker mapping.
use skeleton_media.Base.{
  String, Bool, true, false, ◌&&◌, Option, none, some, List, [], ◌∷◌, ◌++◌, ◌==◌, string_eq,
  if◌then◌else◌, any, all, not, Result, raise_if, ◌>>◌,
}

pub data ActiveHomeMode : Type 0 where
  android_tv android_app local_player browser game off unknown : ActiveHomeMode

pub data MultimediaProfile : Type 0 where
  android_family local_player browser game inactive : MultimediaProfile

pub data ControlInterface : Type 0 where
  multimedia_remote gamepad : ControlInterface

pub data ButtonPhase : Type 0 where
  down up tap : ButtonPhase

abbrev pub same_interface : ControlInterface → ControlInterface → Bool
same_interface multimedia_remote multimedia_remote = true
same_interface gamepad gamepad = true
same_interface _ _ = false

-- `name in names`, for a frozenset of names.
unfoldable pub contains : List String → String → Bool
contains names name = any (λ n. n == name) names

abbrev pub remote_buttons : List String
remote_buttons =
    "power" ∷ "mute" ∷ "refresh" ∷ "dpad_up" ∷ "dpad_down" ∷ "dpad_left" ∷ "dpad_right" ∷ "ok"
    ∷ "back" ∷ "home" ∷ "menu" ∷ "play_pause" ∷ "rewind" ∷ "fast_forward" ∷ "previous" ∷ "next"
    ∷ "volume_up" ∷ "volume_down" ∷ []

abbrev pub gamepad_buttons : List String
gamepad_buttons =
    "dpad_up" ∷ "dpad_down" ∷ "dpad_left" ∷ "dpad_right" ∷ "a" ∷ "b" ∷ "x" ∷ "y" ∷ "l" ∷ "r"
    ∷ "start" ∷ "select" ∷ "library" ∷ "android_tv" ∷ "safe_exit" ∷ []

-- `CONTROL_BUTTONS_BY_INTERFACE`
abbrev pub control_buttons : ControlInterface → List String
control_buttons multimedia_remote = remote_buttons
control_buttons gamepad = gamepad_buttons

-- `REMOTE_BUTTONS | GAMEPAD_BUTTONS`
abbrev pub button_allowlist : List String
button_allowlist = remote_buttons ++ gamepad_buttons

-- A read-only mapping from names to actions; the first entry of a name counts.
unfoldable pub lookup : List (String × String) → String → Option String
lookup [] k = none
lookup ((j, a) ∷ m) k = if j == k then some a else lookup m k

abbrev pub broker_mapping : List (String × String)
broker_mapping =
    ("power", "home.remote.power")
    ∷ ("mute", "home.remote.mute")
    ∷ ("refresh", "home.remote.refresh")
    ∷ ("dpad_up", "home.nav.up")
    ∷ ("dpad_down", "home.nav.down")
    ∷ ("dpad_left", "home.nav.left")
    ∷ ("dpad_right", "home.nav.right")
    ∷ ("ok", "home.nav.ok")
    ∷ ("back", "home.nav.back")
    ∷ ("home", "home.nav.home")
    ∷ ("menu", "home.nav.menu")
    ∷ ("play_pause", "home.transport.play_pause")
    ∷ ("rewind", "home.transport.rewind")
    ∷ ("fast_forward", "home.transport.fast_forward")
    ∷ ("previous", "home.transport.previous")
    ∷ ("next", "home.transport.next")
    ∷ ("volume_up", "home.volume.up")
    ∷ ("volume_down", "home.volume.down")
    ∷ ("a", "home.gamepad.a")
    ∷ ("b", "home.gamepad.b")
    ∷ ("x", "home.gamepad.x")
    ∷ ("y", "home.gamepad.y")
    ∷ ("l", "home.gamepad.l")
    ∷ ("r", "home.gamepad.r")
    ∷ ("start", "home.gamepad.start")
    ∷ ("select", "home.gamepad.select")
    ∷ ("library", "home.gamepad.library")
    ∷ ("android_tv", "home.gamepad.android_tv")
    ∷ ("safe_exit", "home.gamepad.safe_exit")
    ∷ []

abbrev pub keys : List (String × String) → List String
keys [] = []
keys ((k, a) ∷ m) = k ∷ keys m

-- `names <= others`, for sets of names.
unfoldable pub subset : List String → List String → Bool
unfolding contains
subset names others = all (contains others) names

-- The interfaces are checked in the order of the dictionary.
unfoldable pub validate_contract_integrity : List (String × String) → Result (Unit {0})
validate_contract_integrity mapping = do
  raise_if (not (subset (keys mapping) button_allowlist && subset button_allowlist (keys mapping)))
      "broker mapping must exactly equal the button allowlist"
  raise_if (not (subset (control_buttons multimedia_remote) button_allowlist))
      "multimedia_remote buttons escape the allowlist"
  raise_if (not (subset (control_buttons gamepad) button_allowlist))
      "gamepad buttons escape the allowlist"
