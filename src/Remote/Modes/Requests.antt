-- ===== src/Remote/Modes/Requests.antt =====
-- Sequences of mode requests (adaptive_remote.py, `HomeModeController`).
use skeleton_media.Base.{
  ◌≡◌, refl, subst, true, false, ◌&&◌, List, [], ◌∷◌, ◌++◌, inl, inr, Bool-cases, arith,
}
use skeleton_media.Remote.Contract.{ActiveHomeMode}
use skeleton_media.Remote.Modes.{
  Action, warm_app_switch, select_mode, ModeTransition, same_mode, is_android, request_mode,
  leave_gamepad,
}

-- A user selects modes and leaves the gamepad.
pub data Request : Type 0 where
  select : ActiveHomeMode → Request
  leave : Request

abbrev pub answer : ActiveHomeMode → Request → ModeTransition × ActiveHomeMode
answer active (select m) = request_mode active m
answer active leave = leave_gamepad active

-- The actions of a session, in order, and the mode at its end.
unfoldable pub session : ActiveHomeMode → List Request → List Action × ActiveHomeMode
session active [] = ([], active)
session active (r ∷ rs) =
    let rest = session (answer active r).1 rs in ((answer active r).0.actions ++ rest.0, rest.1)

-- The mode that the last selection named, if there is one.
pub last_selected : ActiveHomeMode → List Request → ActiveHomeMode
last_selected m [] = m
last_selected m (select n ∷ rs) = last_selected n rs
last_selected m (leave ∷ rs) = last_selected m rs

-- Actions that lead from one mode to another. A warm switch goes between two different modes of the
-- Android family; any other change names its mode, and is not within the family.
pub data Leads : ActiveHomeMode → List Action → ActiveHomeMode → Type 0 where
  stay : {m : ActiveHomeMode} → Leads m [] m
  warm :
      {m n k : ActiveHomeMode} {acts : List Action}
      → same_mode n m ≡ false
      → (is_android m && is_android n) ≡ true
      → Leads n acts k
      → Leads m (warm_app_switch ∷ acts) k
  cold :
      {m n k : ActiveHomeMode} {acts : List Action}
      → same_mode n m ≡ false
      → (is_android m && is_android n) ≡ false
      → Leads n acts k
      → Leads m (select_mode n ∷ acts) k

same_mode_eq : (a b : ActiveHomeMode) → same_mode a b ≡ true → a ≡ b
same_mode_eq a b h = ground arith

request-Leads :
    (m n : ActiveHomeMode) {acts : List Action} {k : ActiveHomeMode}
    → Leads n acts k
    → Leads m ((request_mode m n).0.actions ++ acts) k
unfolding request_mode
request-Leads m n {acts} {k} l = elim (Bool-cases (same_mode n m)) [
  | inl e ↦ rw (e, request_mode) (subst (λ p. Leads p acts k) (same_mode_eq n m e) l)
  | inr d ↦ elim (Bool-cases (is_android m && is_android n)) [
    | inl w ↦ rw (d, w, request_mode) (warm d w l)
    | inr c ↦ rw (d, c, request_mode) (cold d c l)
  ]
]

mode-request : (m n : ActiveHomeMode) → (request_mode m n).1 ≡ n
unfolding request_mode
mode-request m n = ground (arith, same_mode_eq n m)

-- Whatever a user selects, the controller ends in the mode that was selected last (in its first mode
-- if none was), and its actions lead there: each is for a real change, it is a warm switch exactly
-- for a change within the Android family, and it names the mode otherwise.
pub session-Leads :
    (m : ActiveHomeMode) (rs : List Request)
    → Leads m (session m rs).0 (session m rs).1 × ((session m rs).1 ≡ last_selected m rs)
unfolding session last_selected leave_gamepad
session-Leads m [] = (stay, refl)
session-Leads m (select n ∷ rs) =
    let e = mode-request m n in let ih = session-Leads n rs in rw e (request-Leads m n ih.0, ih.1)
session-Leads m (leave ∷ rs) = session-Leads m rs
