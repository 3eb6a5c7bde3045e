-- ===== src/Remote/Broker/Pressed.antt =====
-- What a receiver of the commands believes to be pressed, against the broker's holds.
use skeleton_media.Base.{
  ℕ, String, ◌≡◌, ◌≢◌, refl, ◌∙◌, sym, Bool, true, false, Option, none, some, List, [], ◌∷◌, ◌++◌,
  if◌then◌else◌, Result, ok, err, crash, All, arith,
}
use skeleton_media.Remote.Contract.{lookup}
use skeleton_media.Remote.Broker.{
  Key, key_eq, Hold, Broker, BrokerCommand, ButtonEvent, ButtonPhase, perform, is_held, hold,
  unhold, command, after_phase, validate_event, dispatch,
}
use skeleton_media.Remote.Contract.{down, up, tap}
use skeleton_media.Remote.Broker.Holds.{
  Distinct, Distinct-hold, Distinct-unhold, is_held-hold, is_held-unhold,
}

abbrev is_down : ButtonPhase → Bool
is_down down = true
is_down up = false
is_down tap = false

-- The last command for a key, read in order, was a `down`.
unfoldable pub pressed_from : Bool → List BrokerCommand → Key → Bool
pressed_from d [] k = d
pressed_from d (c ∷ cs) k = pressed_from (if key_eq c.key k then is_down c.phase else d) cs k

unfoldable pub pressed : List BrokerCommand → Key → Bool
unfolding pressed_from
pressed log k = pressed_from false log k

pressed_from-snoc :
    (d : Bool) (log : List BrokerCommand) (c : BrokerCommand) (k : Key)
    → pressed_from d (log ++ c ∷ []) k
      ≡ (if key_eq c.key k then is_down c.phase else pressed_from d log k)
unfolding pressed_from
pressed_from-snoc d [] c k = refl
pressed_from-snoc d (x ∷ log) c k =
    pressed_from-snoc (if key_eq x.key k then is_down x.phase else d) log c k

pub pressed-snoc :
    (log : List BrokerCommand) (c : BrokerCommand) (k : Key)
    → pressed (log ++ c ∷ []) k ≡ (if key_eq c.key k then is_down c.phase else pressed log k)
unfolding pressed
pressed-snoc log c k = pressed_from-snoc false log c k

-- Every hold is of a button that has an action.
abbrev pub Covered : List (String × String) → List Hold → Type 0
Covered m hs = All (λ h. lookup m h.key.button ≢ none) hs

pub record IsSound (b : Broker) : Type 0 where
  pub synced : (k : Key) → is_held b.active_holds k ≡ pressed b.sent k
  pub covered : Covered b.mapping b.active_holds
  pub distinct : Distinct b.active_holds

Covered-hold :
    (m : List (String × String)) (k : Key) (t : ℕ) (hs : List Hold)
    → lookup m k.button ≢ none
    → Covered m hs
    → Covered m (hold k t hs)
unfolding hold
Covered-hold m k t [] a c = (a, tt)
Covered-hold m k t (h ∷ hs) a c = ground (arith, Covered-hold m k t hs a c.1)

pub Covered-unhold :
    (m : List (String × String)) (k : Key) (hs : List Hold) → Covered m hs → Covered m (unhold k hs)
unfolding unhold
Covered-unhold m k [] c = tt
Covered-unhold m k (h ∷ hs) c = ground (arith, Covered-unhold m k hs c.1)

Covered-after_phase :
    (m : List (String × String)) (p : ButtonPhase) (k : Key) (now : ℕ) (hs : List Hold)
    → lookup m k.button ≢ none
    → Covered m hs
    → Covered m (after_phase p k now hs)
unfolding after_phase
Covered-after_phase m down k now hs a c = Covered-hold m k now hs a c
Covered-after_phase m up k now hs a c = Covered-unhold m k hs c
Covered-after_phase m tap k now hs a c = Covered-unhold m k hs c

Distinct-after_phase :
    (p : ButtonPhase) (k : Key) (now : ℕ) (hs : List Hold)
    → Distinct hs
    → Distinct (after_phase p k now hs)
unfolding after_phase
Distinct-after_phase down k now hs d = Distinct-hold k now hs d
Distinct-after_phase up k now hs d = Distinct-unhold k hs d
Distinct-after_phase tap k now hs d = Distinct-unhold k hs d

is_held-after_phase :
    (p : ButtonPhase) (k : Key) (now : ℕ) (hs : List Hold) (j : Key)
    → is_held (after_phase p k now hs) j ≡ (if key_eq k j then is_down p else is_held hs j)
unfolding after_phase
is_held-after_phase down k now hs j = ground (arith, is_held-hold k now hs j)
is_held-after_phase up k now hs j = is_held-unhold k hs j
is_held-after_phase tap k now hs j = is_held-unhold k hs j

perform-IsSound :
    (b : Broker) (e : ButtonEvent) (now : ℕ) (r : Result (Unit {0})) (o : Option String)
    → lookup b.mapping e.key.button ≡ o
    → IsSound b
    → IsSound (perform b e now r o).1
unfolding perform
perform-IsSound b e now (err m) o q s = s
perform-IsSound b e now crash o q s = s
perform-IsSound b e now (ok u) none q s = s
perform-IsSound b e now (ok u) (some a) q s = record {
  synced = λ k. ground (
    arith,
    s.synced k,
    is_held-after_phase e.phase e.key now b.active_holds k,
    pressed-snoc b.sent (command a e.key e.phase) k,
  );
  covered =
      Covered-after_phase b.mapping e.phase e.key now b.active_holds (λ n. cc (sym q ∙ n))
        s.covered;
  distinct = Distinct-after_phase e.phase e.key now b.active_holds s.distinct;
}

-- Whether it accepts the event or not, `dispatch` keeps this: the buttons held are exactly those
-- whose last sent command is a `down`, each has an action, and no key is held twice.
pub dispatch-IsSound :
    (is_blank : String → Bool) (b : Broker) (e : ButtonEvent) (now : ℕ)
    → IsSound b
    → IsSound (dispatch is_blank b e now).1
unfolding dispatch
dispatch-IsSound is_blank b e now s =
    perform-IsSound b e now (validate_event is_blank b e) (lookup b.mapping e.key.button) refl s
