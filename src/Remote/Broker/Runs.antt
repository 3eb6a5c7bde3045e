-- ===== src/Remote/Broker/Runs.antt =====
-- Whole histories of a broker: presses, lifecycle releases and timer ticks.
use skeleton_media.Base.{ℕ, String, refl, Bool, true, List, [], ◌∷◌}
use skeleton_media.Remote.Contract.{broker_mapping}
use skeleton_media.Remote.Broker.{
  Key, Broker, ButtonEvent, is_held, dispatch, release_matching, release_all, release_expired,
  is_expired,
}
use skeleton_media.Remote.Broker.Pressed.{pressed, pressed_from, IsSound, dispatch-IsSound}
use skeleton_media.Remote.Broker.Release.{release_loop-Releases}

-- A call of the broker, with the time at which it is made.
pub data Call : Type 0 where
  press : ButtonEvent → ℕ → Call
  release : Call
  expire : ℕ → Call

-- `HomeInputBroker(sink)`, with a bound on holds.
unfoldable pub fresh : ℕ → Broker
fresh max_hold = record {
  sent = [];
  mapping = broker_mapping;
  active_holds = [];
  max_hold = max_hold;
}

-- The broker after each of the calls in order; a call that raises is not the last one.
unfoldable pub run : (String → Bool) → Broker → List Call → Broker
run is_blank b [] = b
run is_blank b (press e now ∷ cs) = run is_blank (dispatch is_blank b e now).1 cs
run is_blank b (release ∷ cs) = run is_blank (release_all b).1 cs
run is_blank b (expire now ∷ cs) = run is_blank (release_expired b now).1 cs

release_matching-IsSound :
    (pred : Key → ℕ → Bool) (b : Broker) → IsSound b → IsSound (release_matching pred b).1
unfolding release_matching
release_matching-IsSound pred b s =
    (release_loop-Releases pred b.active_holds [] b s.covered s).sound

run-IsSound_from :
    (is_blank : String → Bool) (b : Broker) (cs : List Call)
    → IsSound b
    → IsSound (run is_blank b cs)
unfolding run release_all release_expired
run-IsSound_from is_blank b [] s = s
run-IsSound_from is_blank b (press e now ∷ cs) s =
    run-IsSound_from is_blank (dispatch is_blank b e now).1 cs (dispatch-IsSound is_blank b e now s)
run-IsSound_from is_blank b (release ∷ cs) s =
    run-IsSound_from is_blank (release_all b).1 cs (release_matching-IsSound (λ _ _. true) b s)
run-IsSound_from is_blank b (expire now ∷ cs) s =
    run-IsSound_from is_blank (release_expired b now).1 cs
      (release_matching-IsSound (λ _ t. is_expired b.max_hold now t) b s)

fresh-IsSound : (max_hold : ℕ) → IsSound (fresh max_hold)
unfolding fresh is_held pressed pressed_from
fresh-IsSound m = record { synced = λ k. refl; covered = tt; distinct = tt }

-- After any calls on a new broker with the default mapping, whichever of them raised, the broker
-- is sound: the buttons held are exactly those whose last sent command is a `down`, each has an
-- action, and no key is held twice.
pub run-IsSound :
    (is_blank : String → Bool) (max_hold : ℕ) (cs : List Call)
    → IsSound (run is_blank (fresh max_hold) cs)
run-IsSound is_blank m cs = run-IsSound_from is_blank (fresh m) cs (fresh-IsSound m)
