-- ===== src/Artifacts/Items.antt =====
-- The files below a directory (artifact_store.py): the inventory of a workspace, and what is read back
-- of a revision.
use skeleton_media.Base.{
  ℕ, zero, suc, String, Bool, true, false, not, ◌||◌, List, [], ◌∷◌, ◌==◌, string_eq, nat_eq,
  if◌then◌else◌, Result, ok, ◌>>=◌, ◌>>◌, raise_if,
}
use Prim.Native.String.{◌++◌}
use skeleton_media.Value.{Value}
use skeleton_media.Artifacts.Paths.{pieces}
use skeleton_media.Artifacts.Manifest.{ArtifactEntry, checked_entry, Inventory}

-- What the code takes from Python's library: `str.strip`, `path.suffix.casefold()` of a path, and the
-- SHA-256 of a text and of the JSON text of a value, in hexadecimal digits.
pub record Library : Type 0 where
  pub strip : String → String
  pub suffix : String → String
  pub sha256_text : String → String
  pub digest : Value → String

pub data Kind : Type 0 where
  link file other : Kind

-- What `rglob("*")` finds below a directory, in the order of `sorted`: the path relative to the
-- directory, and for a file the SHA-256 and the size of its content.
pub record Item : Type 0 where
  pub relative : String
  pub kind : Kind
  pub sha256 : String
  pub size : ℕ

abbrev pub is_link : Kind → Bool
is_link link = true
is_link _ = false

abbrev pub is_file : Kind → Bool
is_file file = true
is_file _ = false

abbrev last_piece : List String → String
last_piece [] = ""
last_piece (p ∷ []) = p
last_piece (p ∷ q ∷ ps) = last_piece (q ∷ ps)

-- `path.name`
abbrev pub name_of : String → String
name_of path = last_piece (pieces path)

abbrev pub ends_with : String → String → Bool
ends_with ending String.[] = ending == ""
ends_with ending (String.◌∷◌ c s) = ending == String.◌∷◌ c s || ends_with ending s

abbrev pub take_text : ℕ → String → String
take_text zero s = ""
take_text (suc n) String.[] = ""
take_text (suc n) (String.◌∷◌ c s) = String.◌∷◌ c (take_text n s)

abbrev media_types : List (String × String)
media_types =
    (".json", "application/json")
    ∷ (".jsonl", "application/x-ndjson")
    ∷ (".vtt", "text/vtt")
    ∷ (".srt", "application/x-subrip")
    ∷ (".md", "text/markdown")
    ∷ (".txt", "text/plain")
    ∷ (".jpg", "image/jpeg")
    ∷ (".jpeg", "image/jpeg")
    ∷ (".png", "image/png")
    ∷ (".wav", "audio/wav")
    ∷ (".mp4", "video/mp4")
    ∷ (".mkv", "video/x-matroska")
    ∷ (".webm", "video/webm")
    ∷ []

abbrev typed : String → List (String × String) → String
typed s [] = "application/octet-stream"
typed s (t ∷ ts) = if t.0 == s then t.1 else typed s ts

abbrev pub is_skipped : Item → Bool
is_skipped x =
    not (is_file x.kind)
    || name_of x.relative == "manifest.json"
    || ends_with ".part" (name_of x.relative)

abbrev pub is_unread : Item → Bool
is_unread x = not (is_file x.kind) || name_of x.relative == "manifest.json"

module _ (lib : Library) where
  abbrev pub entry_of : String → String → Item → ArtifactEntry
  entry_of processing_revision producer x = record {
    artifact_id = "artifact:" ++ take_text 32 (lib.sha256_text x.relative);
    relative_path = x.relative;
    sha256 = x.sha256;
    byte_size = x.size;
    media_type = typed (lib.suffix x.relative) media_types;
    producer = producer;
    processing_revision = processing_revision;
  }

  abbrev pub with_entry :
      Result ArtifactEntry → Result (List ArtifactEntry) → Result (List ArtifactEntry)
  with_entry entry rest = do e ← entry; es ← rest; ok (e ∷ es)

  -- `_inventory`
  unfoldable pub inventory : String → String → List Item → Result (List ArtifactEntry)
  unfolding checked_entry
  inventory processing_revision producer [] = ok []
  inventory processing_revision producer (x ∷ xs) =
      let rest = inventory processing_revision producer xs in
      do
        raise_if (is_link x.kind) "ARTIFACT_SYMLINK_REJECTED"
        (if is_skipped x
            then rest
            else with_entry (checked_entry lib.strip (entry_of processing_revision producer x))
                rest)

  -- The loop of `_verify_target`.
  unfoldable pub readback : List Item → Result Inventory
  readback [] = ok []
  readback (x ∷ xs) =
      let rest = readback xs in
      do
        raise_if (is_link x.kind) "ARTIFACT_SYMLINK_REJECTED"
        (if is_unread x then rest else (rest >>= λ i. ok ((x.relative, (x.sha256, x.size)) ∷ i)))
