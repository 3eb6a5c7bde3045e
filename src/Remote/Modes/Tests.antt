-- ===== src/Remote/Modes/Tests.antt =====
-- A session at a concrete input.
use skeleton_media.Base.{◌≡◌, refl, List, [], ◌∷◌}
use skeleton_media.Remote.Contract.{ActiveHomeMode}
use skeleton_media.Remote.Modes.{warm_app_switch, select_mode, request_mode, leave_gamepad}
use skeleton_media.Remote.Modes.Requests.{
  Request, select, leave, session, last_selected, Leads, session-Leads,
}

abbrev evening : List Request
evening =
    select ActiveHomeMode.android_tv
    ∷ select ActiveHomeMode.android_app
    ∷ leave
    ∷ select ActiveHomeMode.game
    ∷ []

evening_actions :
    (session ActiveHomeMode.unknown evening).0
    ≡ select_mode ActiveHomeMode.android_tv ∷ warm_app_switch ∷ select_mode ActiveHomeMode.game ∷ []
unfolding session request_mode leave_gamepad
evening_actions = refl

session-Leads_example :
    Leads ActiveHomeMode.unknown
      (session ActiveHomeMode.unknown evening).0
      (session ActiveHomeMode.unknown evening).1
    × ((session ActiveHomeMode.unknown evening).1 ≡ last_selected ActiveHomeMode.unknown evening)
session-Leads_example = session-Leads ActiveHomeMode.unknown evening
