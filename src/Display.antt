-- ===== src/Display.antt =====
-- Who owns the display (skeleton_media/home_edge/media_display_ownership.py). `Player` models the
-- observation of the player, `Android` the expressions that are searched in the dump of the media
-- sessions, this file the decision; `Owner` holds the proofs.
pub mod Android
pub mod Player
mod Owner
mod Tests
use skeleton_media.Base.{
  String, Bool, true, false, not, ◌||◌, Option, none, some, List, [], ◌∷◌, ◌==◌, string_eq,
  if◌then◌else◌, ℕ,
}
use Prim.Native.String.{◌++◌}
use skeleton_media.Value.{Value, null, obj, text, get}
use skeleton_media.Display.Android.{android_playing, android_clear, android_active}
use skeleton_media.Display.Player.{
  Ownership, owner, clear, unknown, Observation, observe, Texts, player_observation,
}

-- The members of `KNOWN_MODES`.
pub data Mode : Type 0 where
  off games mpv vlc chrome kiosk youtube airscreen android : Mode

abbrev mode_name : Mode → String
mode_name off = "off"
mode_name games = "games"
mode_name mpv = "mpv"
mode_name vlc = "vlc"
mode_name chrome = "chrome"
mode_name kiosk = "kiosk"
mode_name youtube = "youtube"
mode_name airscreen = "airscreen"
mode_name android = "android"

abbrev known_modes : List Mode
known_modes = off ∷ games ∷ mpv ∷ vlc ∷ chrome ∷ kiosk ∷ youtube ∷ airscreen ∷ android ∷ []

-- `mode if mode in KNOWN_MODES else None`
mode_among : List Mode → String → Option Mode
mode_among [] s = none
mode_among (m ∷ ms) s = if mode_name m == s then some m else mode_among ms s

-- The five sets of modes, which share no mode.
pub data ModeClass : Type 0 where
  mode_off mode_foreground_owner mode_desktop_video mode_android_video mode_android_ambiguous :
      ModeClass

pub class_of : Mode → ModeClass
class_of off = mode_off
class_of games = mode_foreground_owner
class_of mpv = mode_desktop_video
class_of vlc = mode_desktop_video
class_of chrome = mode_desktop_video
class_of kiosk = mode_desktop_video
class_of youtube = mode_android_video
class_of airscreen = mode_android_video
class_of android = mode_android_ambiguous

pub record OwnershipDecision : Type 0 where
  pub state : Ownership
  pub reason : String
  pub observations : List Observation

pub exit_code : OwnershipDecision → ℕ
exit_code d = elim d.state [ owner ↦ 0 | clear ↦ 1 | unknown ↦ 2 ]

-- What the probes answer, if they are asked: `none` is a `RuntimeError`, or no dump.
pub record Probes : Type 0 where
  pub mode_probe : Option Value
  pub player_probe : Option Value
  pub android_probe : Option String

module _ (tx : Texts) where
  pub android_media_observation : Option String → Bool → Observation
  android_media_observation none video_mode_confirmed =
      observe "android_media_session" unknown "android_probe_unavailable"
  android_media_observation (some output) video_mode_confirmed =
      if android_playing tx.letters output
      then if video_mode_confirmed
        then observe "android_media_session" owner "android_video_playing"
        else observe "android_media_session" unknown "android_playing_video_unconfirmed"
      else if android_clear tx.letters output || not (android_active tx.letters output)
      then observe "android_media_session" clear "android_not_playing"
      else observe "android_media_session" unknown "android_state_unresolved"

  pub mode_from_payload : Value → Option Mode
  unfolding mode_among
  mode_from_payload (obj fs) = elim (get fs "mode") [
    | none ↦ none
    | some (text s) ↦ mode_among known_modes (tx.strip_lower s)
    | some _ ↦ none
  ]
  mode_from_payload _ = none

  abbrev decide : Ownership → String → List Observation → OwnershipDecision
  decide s r os = record { state = s; reason = r; observations = os }

  -- The branches on a known mode; the first observation is of the mode.
  decide_class : ModeClass → Observation → Value → Option String → OwnershipDecision
  unfolding android_media_observation
  decide_class mode_foreground_owner seen player dump =
      decide owner "confirmed_foreground_display_owner"
        (seen ∷ observe "foreground_mode" owner "foreground_display_owner" ∷ [])
  decide_class mode_off seen player dump = decide clear "display_mode_off" (seen ∷ [])
  decide_class mode_desktop_video seen player dump =
      let o = player_observation tx player in
      elim o.state [
        | owner ↦ decide owner "confirmed_video_playing" (seen ∷ o ∷ [])
        | clear ↦ decide clear "confirmed_video_not_playing" (seen ∷ o ∷ [])
        | unknown ↦ decide unknown "desktop_video_state_unknown" (seen ∷ o ∷ [])
      ]
  decide_class mode_android_video seen player dump =
      let o = android_media_observation dump true in
      elim o.state [
        | owner ↦ decide owner "confirmed_android_video_playing" (seen ∷ o ∷ [])
        | clear ↦ decide clear "confirmed_android_video_not_playing" (seen ∷ o ∷ [])
        | unknown ↦ decide unknown "android_video_state_unknown" (seen ∷ o ∷ [])
      ]
  decide_class mode_android_ambiguous seen player dump =
      let o = android_media_observation dump false in
      elim o.state [
        | clear ↦ decide clear "android_media_clear" (seen ∷ o ∷ [])
        | _ ↦ decide unknown "android_display_ownership_ambiguous" (seen ∷ o ∷ [])
      ]

  decide_mode : Option Mode → Value → Option String → OwnershipDecision
  unfolding decide_class class_of
  decide_mode none player dump =
      decide unknown "authoritative_mode_unknown"
        (observe "skeleton_cast_mode" unknown "mode_unresolved" ∷ [])
  decide_mode (some m) player dump =
      decide_class (class_of m) (observe "skeleton_cast_mode" clear ("mode_" ++ mode_name m)) player
        dump

  pub decide_from_snapshots : Value → Value → Option String → OwnershipDecision
  unfolding decide_mode
  decide_from_snapshots mode_payload player_payload android_media_dump =
      decide_mode (mode_from_payload mode_payload) player_payload android_media_dump

  -- A probe that fails, or is not made, leaves `None`.
  abbrev pub player_for : ModeClass → Option Value → Value
  player_for mode_desktop_video (some v) = v
  player_for _ _ = null

  abbrev pub dump_for : ModeClass → Option String → Option String
  dump_for mode_android_video d = d
  dump_for mode_android_ambiguous d = d
  dump_for _ d = none

  live_mode : Value → Option Mode → Probes → OwnershipDecision
  unfolding class_of
  live_mode mp none p = decide_from_snapshots mp null none
  live_mode mp (some m) p =
      decide_from_snapshots mp (player_for (class_of m) p.player_probe)
        (dump_for (class_of m) p.android_probe)

  pub live_decision : Probes → OwnershipDecision
  unfolding live_mode
  live_decision p = elim p.mode_probe [
    | none ↦
        decide unknown "skeleton_cast_mode_unavailable"
          (observe "skeleton_cast_mode" unknown "mode_probe_unavailable" ∷ [])
    | some mp ↦ live_mode mp (mode_from_payload mp) p
  ]
