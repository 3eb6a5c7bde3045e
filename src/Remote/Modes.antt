-- ===== src/Remote/Modes.antt =====
-- `HomeModeController`, `multimedia_profile_for_mode` and `orientation_bridge_for`
-- (adaptive_remote.py).
mod Requests
mod Tests
use skeleton_media.Base.{
  String, ◌≡◌, ◌↔◌, refl, Bool, true, false, ◌&&◌, List, [], ◌∷◌, if◌then◌else◌, arith, ◌==◌,
  nat_eq, ℕ, Eq,
}
use skeleton_media.Remote.Contract.{
  ActiveHomeMode, MultimediaProfile, ControlInterface, multimedia_remote, gamepad,
}

abbrev mode_index : ActiveHomeMode → ℕ
mode_index ActiveHomeMode.android_tv = 0
mode_index ActiveHomeMode.android_app = 1
mode_index ActiveHomeMode.local_player = 2
mode_index ActiveHomeMode.browser = 3
mode_index ActiveHomeMode.game = 4
mode_index ActiveHomeMode.off = 5
mode_index ActiveHomeMode.unknown = 6

-- `a is b`, for members of the enumeration.
abbrev pub same_mode : ActiveHomeMode → ActiveHomeMode → Bool
same_mode a b = mode_index a == mode_index b

-- `mode in ANDROID_FAMILY_MODES`
pub is_android : ActiveHomeMode → Bool
is_android ActiveHomeMode.android_tv = true
is_android ActiveHomeMode.android_app = true
is_android _ = false

-- An action name: `android_family.warm_app_switch`, or `mode.select.` and the value of the mode.
pub data Action : Type 0 where
  warm_app_switch : Action
  select_mode : ActiveHomeMode → Action

pub record ModeTransition : Type 0 where
  pub previous_mode : ActiveHomeMode
  pub requested_mode : ActiveHomeMode
  pub resulting_mode : ActiveHomeMode
  pub idempotent : Bool
  pub android_runtime_restarted : Bool
  pub actions : List Action

-- The controller is its active mode. The new mode comes with the transition.
pub request_mode : ActiveHomeMode → ActiveHomeMode → ModeTransition × ActiveHomeMode
unfolding is_android
request_mode active requested =
    if same_mode requested active
    then (
      record {
        previous_mode = active;
        requested_mode = requested;
        resulting_mode = active;
        idempotent = true;
        android_runtime_restarted = false;
        actions = [];
      },
      active,
    )
    else (
      record {
        previous_mode = active;
        requested_mode = requested;
        resulting_mode = requested;
        idempotent = false;
        android_runtime_restarted = false;
        actions =
            (if is_android active && is_android requested
              then warm_app_switch
              else select_mode requested)
            ∷ [];
      },
      requested,
    )

pub leave_gamepad : ActiveHomeMode → ModeTransition × ActiveHomeMode
leave_gamepad active = (
  record {
    previous_mode = active;
    requested_mode = active;
    resulting_mode = active;
    idempotent = true;
    android_runtime_restarted = false;
    actions = [];
  },
  active,
)

pub multimedia_profile_for_mode : ActiveHomeMode → MultimediaProfile
unfolding is_android
multimedia_profile_for_mode mode =
    if is_android mode
    then MultimediaProfile.android_family
    else if same_mode mode ActiveHomeMode.local_player
    then MultimediaProfile.local_player
    else if same_mode mode ActiveHomeMode.browser
    then MultimediaProfile.browser
    else if same_mode mode ActiveHomeMode.game
    then MultimediaProfile.game
    else MultimediaProfile.inactive

pub data OrientationMode : Type 0 where
  portrait landscape : OrientationMode

pub data OrientationStrategy : Type 0 where
  native_bridge css_rotation_fallback : OrientationStrategy

pub record OrientationBridgeSpec : Type 0 where
  pub desired : OrientationMode
  pub strategy : OrientationStrategy
  pub changes_phone_global_orientation : Bool

desired_for : ControlInterface → OrientationMode
desired_for gamepad = landscape
desired_for multimedia_remote = portrait

unfoldable pub orientation_bridge_for : ControlInterface → Bool → OrientationBridgeSpec
unfolding desired_for
orientation_bridge_for interface native_bridge_available = record {
  desired = desired_for interface;
  strategy = if native_bridge_available then native_bridge else css_rotation_fallback;
  changes_phone_global_orientation = false;
}
