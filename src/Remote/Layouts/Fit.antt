-- ===== src/Remote/Layouts/Fit.antt =====
-- What a rendered layout shows, against the contract and the orientation bridge.
mod Tests
use skeleton_media.Base.{
  ℕ, ◌+◌, ◌≡◌, subst, refl, String, Bool, true, false, not, ◌&&◌, ◌||◌, List, [], ◌∷◌, ◌==◌,
  string_eq, nat_eq, leb, ltb, Result, ok, err, crash, all, any, inl, inr, Bool-cases, arith,
  length,
}
use skeleton_media.Remote.Contract.{
  ActiveHomeMode, ControlInterface, multimedia_remote, gamepad, control_buttons, contains, subset,
}
use skeleton_media.Remote.Modes.{
  OrientationMode, portrait, landscape, orientation_bridge_for, multimedia_profile_for_mode,
}
use skeleton_media.Remote.Layouts.{
  ButtonLayout, bounds, RemoteRenderSpec, button_ids, multimedia_buttons, universal_buttons,
  render_multimedia_remote, render_universal_gamepad, render,
}

-- The button is shown, and lies in the viewport.
abbrev pub lies_within : ℕ → ℕ → ButtonLayout → Bool
lies_within w h b =
    ltb 0 b.width && (ltb 0 b.height && (leb (b.x + b.width) w && leb (b.y + b.height) h))

-- Each name stands once.
abbrev pub is_distinct : List String → Bool
is_distinct [] = true
is_distinct (n ∷ ns) = not (any (λ m. m == n) ns) && is_distinct ns

-- The layout is one of the interface: it shows exactly the interface's buttons, each once and inside
-- the viewport, in the orientation that the bridge asks for.
pub record IsLayout (i : ControlInterface) (w h : ℕ) (r : RemoteRenderSpec) : Type 0 where
  pub of_interface : r.interface ≡ i
  pub viewport : (r.width ≡ w) × (r.height ≡ h)
  pub oriented : (native : Bool) → r.orientation ≡ (orientation_bridge_for i native).desired
  pub complete : subset (control_buttons i) (button_ids r) ≡ true
  pub closed : subset (button_ids r) (control_buttons i) ≡ true
  pub once : is_distinct (button_ids r) ≡ true
  pub inside : all (lies_within w h) r.buttons ≡ true

-- The reference viewport of the interface.
abbrev pub is_viewport : ControlInterface → ℕ → ℕ → Bool
is_viewport multimedia_remote w h = (w == 390) && (h == 844)
is_viewport gamepad w h = (w == 844) && (h == 390)

abbrev pub IsRendered : ControlInterface → ℕ → ℕ → Result RemoteRenderSpec → Type 0
IsRendered i w h (ok r) = (is_viewport i w h ≡ true) × IsLayout i w h r
IsRendered i w h (err message) = is_viewport i w h ≡ false
IsRendered i w h crash = ⊥

remote_layout :
    (mode : ActiveHomeMode)
    → IsRendered multimedia_remote 390 844 (render multimedia_remote 390 844 mode)
unfolding render_multimedia_remote orientation_bridge_for contains subset
remote_layout mode = (
  refl,
  record {
    of_interface = refl;
    viewport = (refl, refl);
    oriented = λ native. refl;
    complete = refl;
    closed = refl;
    once = refl;
    inside = refl;
  },
)

gamepad_layout : (mode : ActiveHomeMode) → IsRendered gamepad 844 390 (render gamepad 844 390 mode)
unfolding render_universal_gamepad orientation_bridge_for contains subset
gamepad_layout mode = (
  refl,
  record {
    of_interface = refl;
    viewport = (refl, refl);
    oriented = λ native. refl;
    complete = refl;
    closed = refl;
    once = refl;
    inside = refl;
  },
)

both : (a b x y : ℕ) → ((a == x) && (b == y)) ≡ true → (x ≡ a) × (y ≡ b)
both a b x y h = (ground arith, ground arith)

-- Each renderer raises exactly outside the reference viewport of its interface. In it, it returns a
-- layout that shows exactly the buttons that the contract allows the interface, each once and
-- with its bounds inside the viewport, in the orientation that the bridge asks for.
pub render-IsRendered :
    (i : ControlInterface) (w h : ℕ) (mode : ActiveHomeMode) → IsRendered i w h (render i w h mode)
unfolding render_multimedia_remote render_universal_gamepad
render-IsRendered multimedia_remote w h mode = elim (Bool-cases ((w == 390) && (h == 844))) [
  | inr n ↦ rw n n
  | inl y ↦
      let (p, q) = both w h 390 844 y in
      subst (λ a. IsRendered multimedia_remote a h (render multimedia_remote a h mode)) p
        (subst (λ b. IsRendered multimedia_remote 390 b (render multimedia_remote 390 b mode)) q
          (remote_layout mode))
]
render-IsRendered gamepad w h mode = elim (Bool-cases ((w == 844) && (h == 390))) [
  | inr n ↦ rw n n
  | inl y ↦
      let (p, q) = both w h 844 390 y in
      subst (λ a. IsRendered gamepad a h (render gamepad a h mode)) p
        (subst (λ b. IsRendered gamepad 844 b (render gamepad 844 b mode)) q (gamepad_layout mode))
]
