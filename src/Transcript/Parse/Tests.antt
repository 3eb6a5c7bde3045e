-- ===== src/Transcript/Parse/Tests.antt =====
-- Parsing at concrete inputs.
use skeleton_media.Base.{◌≡◌, refl, String, none, some, [], ◌∷◌, ok}
use skeleton_media.Transcript.Segments.{TextLibrary, segment, normalize_text}
use skeleton_media.Transcript.Parse.{
  parse_timestamp, cue_times, push, lines_of, vtt_loop, parse_vtt,
}
use skeleton_media.Transcript.Parse.Lines.{scan, between, parse_vtt-scan}

abbrev as_is : String → String
as_is s = s

abbrev library : TextLibrary
library = record {
  drop_tags = as_is;
  unescape = as_is;
  drop_zero_width = as_is;
  join_spaces = as_is;
  strip = as_is;
  casefold = as_is;
}

timestamp_read : parse_timestamp library "01:02:03,250" ≡ ok 3723250
unfolding parse_timestamp
timestamp_read = refl

vtt_read :
    parse_vtt library "uk" "test" "WEBVTT\r\n\n00:00:01.000-->00:00:02.500\nHello\nthere\n"
    ≡ some (
        ok (
          record {
            start_seconds = 1000;
            end_seconds = 2500;
            text = "Hello there";
            language = "uk";
            provider = "test";
            confidence = none;
            provenance = "subtitle";
          }
          ∷ []))
unfolding parse_vtt vtt_loop cue_times parse_timestamp push segment normalize_text
vtt_read = refl

parse_vtt-scan_example :
    parse_vtt library "uk" "test" "WEBVTT\n\n00:00:01.000-->00:00:02.500\nHello"
    ≡ some
        (scan library "uk" "test" between (lines_of "WEBVTT\n\n00:00:01.000-->00:00:02.500\nHello"))
parse_vtt-scan_example =
    parse_vtt-scan library "uk" "test" "WEBVTT\n\n00:00:01.000-->00:00:02.500\nHello"
