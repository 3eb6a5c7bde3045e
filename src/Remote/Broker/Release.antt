-- ===== src/Remote/Broker/Release.antt =====
-- `_release_matching`: what a release loop sends and leaves.
use skeleton_media.Base.{
  ℕ, String, ◌≡◌, ap, ◌∙◌, Bool, true, false, ◌||◌, ◌&&◌, not, List, [], ◌∷◌, ◌++◌, Result, ok,
  arith, inl, inr, Bool-cases, Option-cases,
}
use mathlib.Core.List.{append-nil, append_assoc}
use skeleton_media.Remote.Contract.{lookup}
use skeleton_media.Remote.Broker.{
  Key, key_eq, Hold, Broker, BrokerCommand, is_held, unhold, command, release_loop,
}
use skeleton_media.Remote.Contract.{up}
use skeleton_media.Remote.Broker.Holds.{Distinct-unhold, is_held-unhold}
use skeleton_media.Remote.Broker.Pressed.{pressed-snoc, Covered, Covered-unhold, IsSound}

-- A round of the release loop that sends `up` for a hold.
pub released : Broker → Hold → String → Broker
released b h a = record b {
  sent = b.sent ++ command a h.key up ∷ [];
  active_holds = unhold h.key b.active_holds;
}

released-IsSound : (b : Broker) (h : Hold) (a : String) → IsSound b → IsSound (released b h a)
unfolding released
released-IsSound b h a s = record {
  synced = λ k. ground (
    arith,
    s.synced k,
    is_held-unhold h.key b.active_holds k,
    pressed-snoc b.sent (command a h.key up) k,
  );
  covered = Covered-unhold b.mapping h.key b.active_holds s.covered;
  distinct = Distinct-unhold h.key b.active_holds s.distinct;
}

-- The keys that a loop over a snapshot releases.
unfoldable pub matched : (Key → ℕ → Bool) → List Hold → Key → Bool
matched pred [] k = false
matched pred (h ∷ hs) k = (pred h.key h.started && key_eq h.key k) || matched pred hs k

-- What a release loop over covered holds comes to.
pub record Releases (pred : Key → ℕ → Bool) (hs : List Hold) (done : List BrokerCommand)
    (b : Broker) (r : Result (List BrokerCommand) × Broker) : Type 0 where
  pub commands : List BrokerCommand
  pub returned : r.0 ≡ ok (done ++ commands)
  pub sends : r.1.sent ≡ b.sent ++ commands
  pub sound : IsSound r.1
  pub holds :
      (k : Key) → is_held r.1.active_holds k ≡ (is_held b.active_holds k && not (matched pred hs k))

module _ (pred : Key → ℕ → Bool) (h : Hold) (hs : List Hold) (done : List BrokerCommand)
    (b : Broker) where
  round-Releases :
      (a : String) {r : Result (List BrokerCommand) × Broker}
      → pred h.key h.started ≡ true
      → Releases pred hs (done ++ command a h.key up ∷ []) (released b h a) r
      → Releases pred (h ∷ hs) done b r
  unfolding matched released
  round-Releases a p t = record {
    commands = command a h.key up ∷ t.commands;
    returned = t.returned ∙ ap ok (append_assoc done (command a h.key up ∷ []) t.commands);
    sends = t.sends ∙ append_assoc b.sent (command a h.key up ∷ []) t.commands;
    sound = t.sound;
    holds = λ k. ground (arith, t.holds k, is_held-unhold h.key b.active_holds k);
  }

  skip-Releases :
      {r : Result (List BrokerCommand) × Broker}
      → pred h.key h.started ≡ false
      → Releases pred hs done b r
      → Releases pred (h ∷ hs) done b r
  unfolding matched
  skip-Releases p t = record {
    commands = t.commands;
    returned = t.returned;
    sends = t.sends;
    sound = t.sound;
    holds = λ k. ground (arith, t.holds k);
  }

pub release_loop-Releases :
    (pred : Key → ℕ → Bool) (hs : List Hold) (done : List BrokerCommand) (b : Broker)
    → Covered b.mapping hs
    → IsSound b
    → Releases pred hs done b (release_loop pred hs done b)
unfolding release_loop matched released
release_loop-Releases pred [] done b c s = record {
  commands = [];
  returned = rw append-nil;
  sends = rw append-nil;
  sound = s;
  holds = λ k. ground arith;
}
release_loop-Releases pred (h ∷ hs) done b c s = elim (Bool-cases (pred h.key h.started)) [
  | inr p ↦
      rw (p, release_loop)
        (skip-Releases pred h hs done b p (release_loop-Releases pred hs done b c.1 s))
  | inl p ↦ elim (Option-cases (lookup b.mapping h.key.button)) [
    | inl missing ↦ absurd (c.0 missing)
    | inr (a, q) ↦
        rw (p, q, release_loop)
          (round-Releases pred h hs done b a p (
            release_loop-Releases pred hs (done ++ command a h.key up ∷ []) (released b h a) c.1
              (released-IsSound b h a s)))
  ]
]
