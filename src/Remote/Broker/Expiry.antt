-- ===== src/Remote/Broker/Expiry.antt =====
-- The two releases of `HomeInputBroker`: `release_all` and `release_expired`.
use skeleton_media.Base.{
  ℕ, ◌≡◌, refl, sym, ap, ◌∙◌, Bool, true, false, ◌&&◌, not, Option, none, some, List, [], ◌∷◌, ◌++◌,
  ok, arith,
}
use skeleton_media.Remote.Broker.{
  Key, Hold, Broker, BrokerCommand, is_held, release_all, release_expired, is_expired,
}
use skeleton_media.Remote.Broker.Holds.{key_eq_iff, Distinct, started_at}
use skeleton_media.Remote.Broker.Pressed.{pressed, IsSound}
use skeleton_media.Remote.Broker.Release.{matched, Releases, release_loop-Releases}

matched_all : (hs : List Hold) (k : Key) → matched (λ _ _. true) hs k ≡ is_held hs k
unfolding matched is_held
matched_all [] k = refl
matched_all (h ∷ hs) k = ground (arith, matched_all hs k)

none_held : (hs : List Hold) → ((k : Key) → is_held hs k ≡ false) → hs ≡ []
unfolding is_held
none_held [] f = refl
none_held (h ∷ hs) f = ground (arith, f h.key, key_eq_iff h.key h.key)

-- What `release_all` promises: it returns the commands that it sends, nothing is held after it,
-- and for a receiver of the commands nothing is pressed.
pub record LiftsAll (b : Broker) : Type 0 where
  pub commands : List BrokerCommand
  pub returned : (release_all b).0 ≡ ok commands
  pub sends : (release_all b).1.sent ≡ b.sent ++ commands
  pub nothing_held : (release_all b).1.active_holds ≡ []
  pub nothing_pressed : (k : Key) → pressed (release_all b).1.sent k ≡ false

-- From a sound broker, `release_all` returns the commands that it appends to the sink, leaves no
-- hold, and after its commands no key is pressed.
pub release_all-LiftsAll : (b : Broker) → IsSound b → LiftsAll b
unfolding release_all
release_all-LiftsAll b s = record {
  commands = t.commands;
  returned = t.returned;
  sends = t.sends;
  nothing_held = none_held _ free;
  nothing_pressed = λ k. sym (t.sound.synced k) ∙ free k;
}
  where
    t : Releases (λ _ _. true) b.active_holds [] b (release_all b)
    t = release_loop-Releases (λ _ _. true) b.active_holds [] b s.covered s

    free : (k : Key) → is_held (release_all b).1.active_holds k ≡ false
    free k = ground (arith, t.holds k, matched_all b.active_holds k)

-- Whether a key that was pressed at this time, if at all, has been held for too long.
abbrev pub overdue : ℕ → ℕ → Option ℕ → Bool
overdue max_hold now none = false
overdue max_hold now (some t) = is_expired max_hold now t

matched_absent :
    (pred : Key → ℕ → Bool) (hs : List Hold) (k : Key)
    → is_held hs k ≡ false
    → matched pred hs k ≡ false
unfolding matched is_held
matched_absent pred [] k e = refl
matched_absent pred (h ∷ hs) k e = ground (arith, matched_absent pred hs k)

matched-overdue :
    (max_hold now : ℕ) (hs : List Hold) (k : Key)
    → Distinct hs
    → matched (λ _ t. is_expired max_hold now t) hs k ≡ overdue max_hold now (started_at hs k)
unfolding matched started_at
matched-overdue m now [] k d = refl
matched-overdue m now (h ∷ hs) k d = ground (
  arith,
  key_eq_iff h.key k,
  matched-overdue m now hs k d.1,
  matched_absent (λ (_ : Key) (t : ℕ). is_expired m now t) hs k,
)

-- From a sound broker, after `release_expired` at a time a key is held, and pressed for a receiver,
-- exactly when it was held before and its hold has lasted less than the maximum.
pub release_expired-exact :
    (b : Broker) (now : ℕ) (k : Key)
    → IsSound b
    → (is_held (release_expired b now).1.active_holds k
        ≡ (is_held b.active_holds k && not (overdue b.max_hold now (started_at b.active_holds k))))
      × (pressed (release_expired b now).1.sent k
          ≡ is_held (release_expired b now).1.active_holds k)
unfolding release_expired
release_expired-exact b now k s =
    (t.holds k ∙ ap (λ m. is_held b.active_holds k && not m) late, sym (t.sound.synced k))
  where
    t :
        Releases
          (λ _ started. is_expired b.max_hold now started)
          b.active_holds
          []
          b
          (release_expired b now)
    t =
        release_loop-Releases (λ _ started. is_expired b.max_hold now started) b.active_holds [] b
          s.covered s

    late :
        matched (λ _ started. is_expired b.max_hold now started) b.active_holds k
        ≡ overdue b.max_hold now (started_at b.active_holds k)
    late = matched-overdue b.max_hold now b.active_holds k s.distinct
