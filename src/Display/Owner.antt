-- ===== src/Display/Owner.antt =====
-- What a decision on the display rests on.
use skeleton_media.Base.{
  ◌↔◌, ◌≡◌, ◌≢◌, refl, sym, ◌∙◌, ap, String, true, false, not, ◌||◌, Option, none, some, ◌⊎◌, inl,
  inr, Option-cases, arith,
}
use Prim.Native.String.{◌++◌}
use skeleton_media.Value.{Value, null}
use skeleton_media.Display.Android.{android_playing, android_clear, android_active}
use skeleton_media.Display.Player.{
  Ownership, owner, clear, unknown, Observation, observe, Texts, player_observation,
}
use skeleton_media.Display.{
  Mode, ModeClass, mode_off, mode_foreground_owner, mode_desktop_video, mode_android_video,
  mode_android_ambiguous, mode_name, decide_mode, class_of, android_media_observation,
  mode_from_payload, decide_class, decide_from_snapshots, Probes, live_mode, live_decision,
  player_for, dump_for,
}

module _ (tx : Texts) where
  -- The answers of the probes that confirm a video on the display.
  abbrev pub ShowsVideo : ModeClass → Probes → Type 0
  ShowsVideo mode_foreground_owner p = Unit
  ShowsVideo mode_desktop_video p =
      (v : Value) × (p.player_probe ≡ some v) × ((player_observation tx v).state ≡ owner)
  ShowsVideo mode_android_video p =
      (out : String) × (p.android_probe ≡ some out) × (android_playing tx.letters out ≡ true)
  ShowsVideo _ p = ⊥

  -- The answers of the probes that are taken to say that there is none.
  abbrev pub ShowsNone : ModeClass → Probes → Type 0
  ShowsNone mode_off p = Unit
  ShowsNone mode_foreground_owner p = ⊥
  ShowsNone mode_desktop_video p =
      (v : Value) × (p.player_probe ≡ some v) × ((player_observation tx v).state ≡ clear)
  ShowsNone _ p =
      (out : String) × (p.android_probe ≡ some out)
      × (android_playing tx.letters out ≡ false)
      × ((android_clear tx.letters out || not (android_active tx.letters out)) ≡ true)

  -- The mode is known, and the probes confirm what `Shows` asks in its class.
  abbrev pub Known : (ModeClass → Probes → Type 0) → Probes → Type 0
  Known Shows p =
      (mp : Value) × (m : Mode) × (p.mode_probe ≡ some mp)
      × (mode_from_payload tx mp ≡ some m)
      × Shows (class_of m) p

  null_unknown : (player_observation tx null).state ≡ unknown
  unfolding player_observation
  null_unknown = refl

  module _ (seen : Observation) where
    desktop-owner :
        (o : Option Value) (d : Option String)
        → (decide_class tx mode_desktop_video seen (player_for tx mode_desktop_video o) d).state
          ≡ owner
        → (v : Value) × (o ≡ some v) × ((player_observation tx v).state ≡ owner)
    unfolding decide_class
    desktop-owner none d e = ground (arith, null_unknown)
    desktop-owner (some v) d e = (v, refl, ground arith)

    desktop-clear :
        (o : Option Value) (d : Option String)
        → (decide_class tx mode_desktop_video seen (player_for tx mode_desktop_video o) d).state
          ≡ clear
        → (v : Value) × (o ≡ some v) × ((player_observation tx v).state ≡ clear)
    unfolding decide_class
    desktop-clear none d e = ground (arith, null_unknown)
    desktop-clear (some v) d e = (v, refl, ground arith)

    class-owner :
        (k : ModeClass) (o : Option Value) (d : Option String) (mp : Option Value)
        → (decide_class tx k seen (player_for tx k o) (dump_for tx k d)).state ≡ owner
        → ShowsVideo k (record { mode_probe = mp; player_probe = o; android_probe = d })
    unfolding decide_class android_media_observation
    class-owner mode_off o d mp e = ground arith
    class-owner mode_foreground_owner o d mp e = tt
    class-owner mode_desktop_video o d mp e = desktop-owner o none e
    class-owner mode_android_video o none mp e = ground arith
    class-owner mode_android_video o (some out) mp e = (out, refl, ground arith)
    class-owner mode_android_ambiguous o none mp e = ground arith
    class-owner mode_android_ambiguous o (some out) mp e = ground arith

    class-clear :
        (k : ModeClass) (o : Option Value) (d : Option String) (mp : Option Value)
        → (decide_class tx k seen (player_for tx k o) (dump_for tx k d)).state ≡ clear
        → ShowsNone k (record { mode_probe = mp; player_probe = o; android_probe = d })
    unfolding decide_class android_media_observation
    class-clear mode_off o d mp e = tt
    class-clear mode_foreground_owner o d mp e = ground arith
    class-clear mode_desktop_video o d mp e = desktop-clear o none e
    class-clear mode_android_video o none mp e = ground arith
    class-clear mode_android_video o (some out) mp e = (out, refl, ground arith, ground arith)
    class-clear mode_android_ambiguous o none mp e = ground arith
    class-clear mode_android_ambiguous o (some out) mp e = (out, refl, ground arith, ground arith)

    class-is_clear :
        (k : ModeClass) (o : Option Value) (d : Option String) (mp : Option Value)
        → ShowsNone k (record { mode_probe = mp; player_probe = o; android_probe = d })
        → (decide_class tx k seen (player_for tx k o) (dump_for tx k d)).state ≡ clear
    unfolding decide_class android_media_observation
    class-is_clear mode_off o d mp h = refl
    class-is_clear mode_foreground_owner o d mp h = elim h [ ]
    class-is_clear mode_desktop_video o d mp (v, q, s) = rw (q) (ground (arith, s))
    class-is_clear mode_android_video o d mp (out, q, a, b) = rw (q) (ground (arith, a, b))
    class-is_clear mode_android_ambiguous o d mp (out, q, a, b) = rw (q) (ground (arith, a, b))

  live_probed :
      (p : Probes) (mp : Value)
      → p.mode_probe ≡ some mp
      → live_decision tx p ≡ live_mode tx mp (mode_from_payload tx mp) p
  unfolding live_decision
  live_probed p mp q = rw (q)

  live_mode-none :
      (p : Probes) (mp : Value)
      → mode_from_payload tx mp ≡ none
      → (live_mode tx mp none p).state ≡ unknown
  unfolding live_mode decide_from_snapshots decide_mode
  live_mode-none p mp n = ap (λ r. (decide_mode tx r null none).state) n

  live_mode-some :
      (p : Probes) (mp : Value) (m : Mode)
      → mode_from_payload tx mp ≡ some m
      → live_mode tx mp (some m) p
        ≡ decide_class tx
            (class_of m)
            (observe "skeleton_cast_mode" clear ("mode_" ++ mode_name m))
            (player_for tx (class_of m) p.player_probe)
            (dump_for tx (class_of m) p.android_probe)
  unfolding live_mode decide_from_snapshots decide_mode
  live_mode-some p mp m f =
      ap
        (λ r.
          decide_mode tx r (player_for tx (class_of m) p.player_probe)
            (dump_for tx (class_of m) p.android_probe))
        f

  -- A decision other than `unknown` comes from the branch of a known mode.
  live_decision-Known :
      (Shows : ModeClass → Probes → Type 0) (goal : Ownership) (p : Probes)
      → goal ≢ unknown
      → ((m : Mode) (seen : Observation)
          → (decide_class tx
              (class_of m)
              seen
              (player_for tx (class_of m) p.player_probe)
              (dump_for tx (class_of m) p.android_probe)).state
            ≡ goal
          → Shows (class_of m) p)
      → (live_decision tx p).state ≡ goal
      → Known Shows p
  unfolding live_decision
  live_decision-Known Shows goal p known shows e = elim (Option-cases p.mode_probe) [
    | inl n ↦ absurd (known (sym (rw (n, live_decision) at e)))
    | inr (mp, q) ↦ probed mp q (Option-cases (mode_from_payload tx mp))
  ]
    where
      probed :
          (mp : Value)
          → p.mode_probe ≡ some mp
          → (mode_from_payload tx mp ≡ none) ⊎ ((m : Mode) × (mode_from_payload tx mp ≡ some m))
          → Known Shows p
      probed mp q (inl n) = absurd (
          known (
            sym e
            ∙ ap (λ d. d.state) (live_probed p mp q)
            ∙ ap (λ r. (live_mode tx mp r p).state) n
            ∙ live_mode-none p mp n))
      probed mp q (inr (m, f)) = (
        mp,
        m,
        q,
        f,
        shows m _ (
            sym (
              ap (λ d. d.state)
                (live_probed p mp q ∙ ap (λ r. live_mode tx mp r p) f ∙ live_mode-some p mp m f))
            ∙ e),
      )

clear-Known :
    (tx : Texts) (p : Probes) → Known tx (ShowsNone tx) p → (live_decision tx p).state ≡ clear
clear-Known tx p (mp, m, q, f, h) =
    ap (λ d. d.state)
      (live_probed tx p mp q ∙ ap (λ r. live_mode tx mp r p) f ∙ live_mode-some tx p mp m f)
    ∙ class-is_clear tx (observe "skeleton_cast_mode" clear ("mode_" ++ mode_name m)) (class_of m)
        p.player_probe p.android_probe p.mode_probe h

-- The live decision is OWNER only if the mode was read and is known, and it is a foreground mode, or
-- a desktop video mode whose player was read and is observed to own the display, or an Android
-- video mode whose dump was read and has a session with the number of a state that plays. A failed probe, an unknown mode
-- and the generic Android mode never give OWNER.
pub live-owner :
    (tx : Texts) (p : Probes) → (live_decision tx p).state ≡ owner → Known tx (ShowsVideo tx) p
live-owner tx p =
    live_decision-Known tx (ShowsVideo tx) owner p (λ e. cc)
      λ m seen. class-owner tx seen (class_of m) p.player_probe p.android_probe p.mode_probe

-- The live decision is CLEAR exactly if the mode was read and is known, and it is the mode `off`, or a
-- desktop video mode whose player was read and is observed not to play, or an Android mode whose
-- dump was read, has no session with the number of a state that plays, and either has one with the
-- number of a state that does not, or has none that says that it is active, as a dump without any
-- session. A failed probe never gives CLEAR.
pub live-clear :
    (tx : Texts) (p : Probes) → ((live_decision tx p).state ≡ clear) ↔ Known tx (ShowsNone tx) p
live-clear tx p = (
  live_decision-Known tx (ShowsNone tx) clear p (λ e. cc)
      (λ m seen. class-clear tx seen (class_of m) p.player_probe p.android_probe p.mode_probe),
  clear-Known tx p,
)
