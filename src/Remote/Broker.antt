-- ===== src/Remote/Broker.antt =====
-- `HomeInputBroker` (adaptive_remote.py). Times are natural numbers of one unit. The sink is the
-- `RecordingBrokerSink`: the list of the commands sent, in order.
mod Holds
mod Pressed
mod Release
mod Expiry
mod Accepts
mod Runs
mod Tests
use skeleton_media.Base.{
  ℕ, ◌+◌, String, ◌≡◌, ◌↔◌, refl, ap, Bool, true, false, not, ◌&&◌, ◌||◌, Option, none, some, List,
  [], ◌∷◌, ◌++◌, Eq, ◌==◌, string_eq, leb, if◌then◌else◌, Result, ok, err, crash, ◌>>=◌, ◌>>◌,
  raise_if, eq_iff, arith,
}
use skeleton_media.Remote.Contract.{
  ControlInterface, multimedia_remote, gamepad, ButtonPhase, down, up, tap, same_interface,
  contains, control_buttons, lookup,
}

-- `(interface, button, pointer_id)`
pub record Key : Type 0 where
  pub interface : ControlInterface
  pub button : String
  pub pointer_id : String

pub key_eq : Key → Key → Bool
key_eq a b =
    same_interface a.interface b.interface
    && (a.button == b.button)
    && (a.pointer_id == b.pointer_id)

pub record ButtonEvent : Type 0 where
  pub key : Key
  pub open key use *
  pub phase : ButtonPhase

pub record BrokerCommand : Type 0 where
  pub action : String
  pub key : Key
  pub open key use *
  pub phase : ButtonPhase

pub record Hold : Type 0 where
  pub key : Key
  pub started : ℕ

pub record Broker : Type 0 where
  pub sent : List BrokerCommand
  pub mapping : List (String × String)
  pub active_holds : List Hold
  pub max_hold : ℕ

-- `key in active_holds`
pub is_held : List Hold → Key → Bool
is_held [] k = false
is_held (h ∷ hs) k = key_eq h.key k || is_held hs k

-- `active_holds[key] = started`: an entry that is there keeps its place.
pub hold : Key → ℕ → List Hold → List Hold
hold k t [] = record { key = k; started = t } ∷ []
hold k t (h ∷ hs) = if key_eq h.key k then record { key = k; started = t } ∷ hs else h ∷ hold k t hs

-- `active_holds.pop(key, None)`
pub unhold : Key → List Hold → List Hold
unhold k [] = []
unhold k (h ∷ hs) = if key_eq h.key k then unhold k hs else h ∷ unhold k hs

abbrev pub command : String → Key → ButtonPhase → BrokerCommand
command a k p = record { action = a; key = k; phase = p }

-- What the phase of an event does to the holds.
pub after_phase : ButtonPhase → Key → ℕ → List Hold → List Hold
after_phase down k now hs = hold k now hs
after_phase up k now hs = unhold k hs
after_phase tap k now hs = unhold k hs

-- `dispatch` after the validation, with the action of the button; a missing one is a `KeyError`.
pub perform :
    Broker
    → ButtonEvent
    → ℕ
    → Result (Unit {0})
    → Option String
    → Result (List BrokerCommand) × Broker
unfolding after_phase
perform b e now (err m) action = (err m, b)
perform b e now crash action = (crash, b)
perform b e now (ok _) none = (crash, b)
perform b e now (ok _) (some a) =
    let c = command a e.key e.phase in
    (
      ok (c ∷ []),
      record b {
        sent = b.sent ++ c ∷ [];
        active_holds = after_phase e.phase e.key now b.active_holds;
      },
    )

-- `event.pointer_id.strip()` is empty: every character is white space. Which characters are, is
-- Python's table, a parameter.
module _ (is_blank : String → Bool) where
  pub validate_event : Broker → ButtonEvent → Result (Unit {0})
  validate_event b e = do
    raise_if (not (contains (control_buttons e.key.interface) e.key.button))
        "button is not allowed for this stable interface"
    raise_if (elim (lookup b.mapping e.key.button) [ none ↦ true | some _ ↦ false ])
        "button has no bounded broker mapping"
    raise_if (is_blank e.key.pointer_id) "pointer_id must be non-empty"

  -- The test of the phase against the allowlist always passes: the list holds every member of the
  -- enumeration.
  pub dispatch : Broker → ButtonEvent → ℕ → Result (List BrokerCommand) × Broker
  unfolding validate_event perform
  dispatch b e now = perform b e now (validate_event b e) (lookup b.mapping e.key.button)

-- The loop of `_release_matching` over a snapshot of the holds. A button without a mapping ends
-- it by a `KeyError`, after its hold was dropped.
pub release_loop :
    (Key → ℕ → Bool)
    → List Hold
    → List BrokerCommand
    → Broker
    → Result (List BrokerCommand) × Broker
release_loop pred [] commands b = (ok commands, b)
release_loop pred (h ∷ hs) commands b = elim (pred h.key h.started) [
  | false ↦ release_loop pred hs commands b
  | true ↦
      let kept = unhold h.key b.active_holds in
      elim (lookup b.mapping h.key.button) [
        | none ↦ (crash, record b { active_holds = kept })
        | some a ↦
            let c = command a h.key up in
            release_loop pred hs (commands ++ c ∷ [])
              (record b { sent = b.sent ++ c ∷ []; active_holds = kept })
      ]
]

pub release_matching : (Key → ℕ → Bool) → Broker → Result (List BrokerCommand) × Broker
unfolding release_loop
release_matching pred b = release_loop pred b.active_holds [] b

-- The reason is discarded.
pub release_all : Broker → Result (List BrokerCommand) × Broker
unfolding release_matching
release_all b = release_matching (λ _ _. true) b

-- `timestamp - started >= self.max_hold_seconds`
abbrev pub is_expired : ℕ → ℕ → ℕ → Bool
is_expired max_hold now started = leb (started + max_hold) now

pub release_expired : Broker → ℕ → Result (List BrokerCommand) × Broker
unfolding release_matching
release_expired b now = release_matching (λ _ started. is_expired b.max_hold now started) b
