-- ===== src/Remote/Broker/Tests.antt =====
-- The broker at concrete inputs.
use skeleton_media.Base.{
  String, ◌≡◌, refl, Bool, true, List, [], ◌∷◌, ok, ◌==◌, string_eq, ◌&&◌, not,
}
use skeleton_media.Remote.Contract.{
  multimedia_remote, down, tap, lookup, validate_contract_integrity, subset, contains,
  broker_mapping,
}
use skeleton_media.Remote.Broker.{
  Key, key_eq, Broker, ButtonEvent, is_held, hold, unhold, dispatch, release_expired,
}
use skeleton_media.Remote.Broker.Accepts.{Answer, dispatch-Answer}
use skeleton_media.Remote.Broker.Holds.{started_at}
use skeleton_media.Remote.Broker.Pressed.{pressed, IsSound}
use skeleton_media.Remote.Broker.Expiry.{
  LiftsAll, release_all-LiftsAll, overdue, release_expired-exact,
}
use skeleton_media.Remote.Broker.Runs.{Call, press, fresh, run, run-IsSound}

abbrev blank : String → Bool
blank s = s == ""

abbrev key : String → Key
key b = record { interface = multimedia_remote; button = b; pointer_id = "primary" }

abbrev presses : List Call
presses =
    press (record { key = key "volume_up"; phase = down }) 10
    ∷ press (record { key = key "ok"; phase = tap }) 11
    ∷ press (record { key = key "bogus"; phase = down }) 12
    ∷ press (record { key = key "home"; phase = down }) 13
    ∷ []

abbrev pressing : Broker
pressing = run blank (fresh 8) presses

pressing_holds : is_held pressing.active_holds (key "volume_up") ≡ true
unfolding run fresh dispatch is_held hold unhold key_eq lookup contains
pressing_holds = refl

run-IsSound_example : IsSound pressing
run-IsSound_example = run-IsSound blank 8 presses

release_all-LiftsAll_example : LiftsAll pressing
release_all-LiftsAll_example = release_all-LiftsAll pressing (run-IsSound blank 8 presses)

release_expired-exact_example :
    (is_held (release_expired pressing 20).1.active_holds (key "home") ≡ (
      is_held pressing.active_holds (key "home")
      && not (overdue pressing.max_hold 20 (started_at pressing.active_holds (key "home")))))
    × (pressed (release_expired pressing 20).1.sent (key "home")
        ≡ is_held (release_expired pressing 20).1.active_holds (key "home"))
release_expired-exact_example =
    release_expired-exact pressing 20 (key "home") (run-IsSound blank 8 presses)

default_integrity : validate_contract_integrity broker_mapping ≡ ok tt
unfolding validate_contract_integrity subset contains
default_integrity = refl

abbrev bogus : ButtonEvent
bogus = record { key = key "library"; phase = down }

dispatch-Answer_example : Answer blank (fresh 8) bogus (dispatch blank (fresh 8) bogus 3)
unfolding fresh
dispatch-Answer_example = dispatch-Answer blank (fresh 8) bogus 3 default_integrity
