-- ===== src/Remote/Broker/Accepts.antt =====
-- Which events `dispatch` accepts, under a mapping that `validate_contract_integrity` accepts.
use skeleton_media.Base.{
  ℕ, String, ◌≡◌, ◌≢◌, inl, inr, Bool, true, false, none, some, List, [], ◌∷◌, ◌++◌, Result, ok,
  err, string_eq, Bool-cases, Option-cases, eq_iff, arith,
}
use skeleton_media.Remote.Contract.{
  ControlInterface, multimedia_remote, gamepad, contains, control_buttons, button_allowlist, keys,
  subset, lookup, validate_contract_integrity,
}
use skeleton_media.Remote.Broker.{
  Broker, ButtonEvent, BrokerCommand, command, validate_event, perform, dispatch,
}

contains-subset :
    (xs ys : List String) (k : String)
    → subset xs ys ≡ true
    → contains xs k ≡ true
    → contains ys k ≡ true
unfolding subset contains
contains-subset [] ys k s c = cc
contains-subset (x ∷ xs) ys k s c = ground (arith, eq_iff x k, contains-subset xs ys k)

lookup-keys :
    (m : List (String × String)) (k : String) → contains (keys m) k ≡ true → lookup m k ≢ none
unfolding lookup contains
lookup-keys [] k c n = cc
lookup-keys ((j, a) ∷ m) k c n = ground (arith, lookup-keys m k)

integrity-subset :
    (m : List (String × String)) (i : ControlInterface)
    → validate_contract_integrity m ≡ ok tt
    → (subset button_allowlist (keys m) ≡ true)
      × (subset (control_buttons i) button_allowlist ≡ true)
unfolding validate_contract_integrity
integrity-subset m multimedia_remote h = ground arith
integrity-subset m gamepad h = ground arith

allowed_is_mapped :
    (m : List (String × String)) (i : ControlInterface) (k : String)
    → validate_contract_integrity m ≡ ok tt
    → contains (control_buttons i) k ≡ true
    → lookup m k ≢ none
allowed_is_mapped m i k h c =
    let s = integrity-subset m i h in
    lookup-keys m k (
      contains-subset button_allowlist (keys m) k s.0
        (contains-subset (control_buttons i) button_allowlist k s.1 c))

-- The ways in which an event is answered.
pub data Answer (is_blank : String → Bool) (b : Broker) (e : ButtonEvent)
    : Result (List BrokerCommand) × Broker → Type 0 where
  foreign :
      {r : Result (List BrokerCommand) × Broker}
      → contains (control_buttons e.key.interface) e.key.button ≡ false
      → r ≡ (err "button is not allowed for this stable interface", b)
      → Answer is_blank b e r
  pointless :
      {r : Result (List BrokerCommand) × Broker}
      → contains (control_buttons e.key.interface) e.key.button ≡ true
      → is_blank e.key.pointer_id ≡ true
      → r ≡ (err "pointer_id must be non-empty", b)
      → Answer is_blank b e r
  sends :
      {r : Result (List BrokerCommand) × Broker} (a : String)
      → contains (control_buttons e.key.interface) e.key.button ≡ true
      → is_blank e.key.pointer_id ≡ false
      → lookup b.mapping e.key.button ≡ some a
      → r.0 ≡ ok (command a e.key e.phase ∷ [])
      → r.1.sent ≡ b.sent ++ command a e.key e.phase ∷ []
      → Answer is_blank b e r

-- With a mapping that passes the integrity check, `dispatch` refuses exactly the buttons outside
-- the list of the interface and the blank pointer ids, and changes nothing then; any other event
-- sends and returns the one command of its mapped action. The missing mapping is never met, as
-- an error or as a `KeyError`.
pub dispatch-Answer :
    (is_blank : String → Bool) (b : Broker) (e : ButtonEvent) (now : ℕ)
    → validate_contract_integrity b.mapping ≡ ok tt
    → Answer is_blank b e (dispatch is_blank b e now)
unfolding dispatch validate_event perform
dispatch-Answer is_blank b e now h =
    elim (Bool-cases (contains (control_buttons e.key.interface) e.key.button)) [
      | inr f ↦ foreign f (rw (f, dispatch))
      | inl c ↦ elim (Option-cases (lookup b.mapping e.key.button)) [
        | inl n ↦ absurd (allowed_is_mapped b.mapping e.key.interface e.key.button h c n)
        | inr (a, q) ↦ elim (Bool-cases (is_blank e.key.pointer_id)) [
          | inl w ↦ pointless c w (rw (c, q, w, dispatch))
          | inr w ↦ sends a c w q (rw (c, q, w, dispatch)) (rw (c, q, w, dispatch))
        ]
      ]
    ]
