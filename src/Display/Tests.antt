-- ===== src/Display/Tests.antt =====
-- Decisions at concrete inputs.
use skeleton_media.Base.{
  ◌↔◌, leb, ◌&&◌, ◌||◌, ◌+◌, nat_eq, ◌≡◌, refl, true, false, none, some, ◌==◌, string_eq,
}
use skeleton_media.Value.{bool, text, obj, field, end, get}
use skeleton_media.Display.Android.{Letters, android_playing, android_clear, android_active}
use skeleton_media.Display.Player.{owner, clear, Texts, player_observation}
use skeleton_media.Display.{Probes, live_decision, decide_from_snapshots, mode_from_payload}
use skeleton_media.Display.Owner.{ShowsVideo, ShowsNone, Known, live-owner, live-clear}

-- The letters of ASCII.
abbrev ascii : Letters
ascii = record {
  is_word = λ c. leb b'0' c && leb c b'9' || leb b'A' c && leb c b'Z' || leb b'a' c && leb c b'z';
  is_space = λ c. c == b' ';
  same_letter = λ l c. l == c || leb b'a' l && (c + 32 == l);
}

abbrev plain : Texts
plain = record {
  python = record {
    str_of = λ v. "?";
    int_of = λ s. none;
    float_of = λ s. none;
    dict_of = λ v. none;
  };
  strip_lower = λ s. s;
  sub_other = λ s. s;
  strip_underscore = λ s. s;
  letters = ascii;
}

plays_android : android_playing ascii "mystate=3 state=3" ≡ true
unfolding android_playing
plays_android = refl

plays_no_android : android_playing ascii "mystate=3 state=30" ≡ false
unfolding android_playing
plays_no_android = refl

abbrev playing : Probes
playing = record {
  mode_probe = some (obj (field "mode" (text "mpv") end));
  player_probe = some (obj (field "running" (bool true) (field "pause" (bool false) end)));
  android_probe = none;
}

abbrev stopped : Probes
stopped = record {
  mode_probe = some (obj (field "mode" (text "youtube") end));
  player_probe = none;
  android_probe = some "x { State = playbackstate {state=2, position=0}";
}

plays : (live_decision plain playing).state ≡ owner
unfolding live_decision decide_from_snapshots mode_from_payload player_observation get
plays = refl

stops : (live_decision plain stopped).state ≡ clear
unfolding live_decision decide_from_snapshots mode_from_payload get android_playing android_clear
    android_active
stops = refl

-- A dump without any session is CLEAR.
abbrev without_sessions : Probes
without_sessions = record {
  mode_probe = some (obj (field "mode" (text "youtube") end));
  player_probe = none;
  android_probe = some "";
}

no_session_is_clear : (live_decision plain without_sessions).state ≡ clear
unfolding live_decision decide_from_snapshots mode_from_payload get android_playing android_clear
    android_active
no_session_is_clear = refl

live-owner_example : Known plain (ShowsVideo plain) playing
live-owner_example = live-owner plain playing plays

live-clear_example :
    ((live_decision plain stopped).state ≡ clear) ↔ Known plain (ShowsNone plain) stopped
live-clear_example = live-clear plain stopped

stopped-Known : Known plain (ShowsNone plain) stopped
stopped-Known = (live-clear plain stopped).0 stops
