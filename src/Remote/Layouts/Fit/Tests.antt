-- ===== src/Remote/Layouts/Fit/Tests.antt =====
-- A layout at a concrete input.
use skeleton_media.Remote.Contract.{ActiveHomeMode, gamepad}
use skeleton_media.Remote.Layouts.{render}
use skeleton_media.Remote.Layouts.Fit.{IsRendered, render-IsRendered}

render-IsRendered_example : IsRendered gamepad 844 390 (render gamepad 844 390 ActiveHomeMode.game)
render-IsRendered_example = render-IsRendered gamepad 844 390 ActiveHomeMode.game
