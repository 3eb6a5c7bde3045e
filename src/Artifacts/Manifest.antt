-- ===== src/Artifacts/Manifest.antt =====
-- Manifests (manifest.py): entries, the constructor's tests, the digest, and the comparison with what
-- lies on disk. `digest` is the SHA-256 of the JSON text of a value, `strip` Python's `str.strip`.
pub mod Sets
pub mod Exact
use skeleton_media.Base.{
  ℕ, zero, suc, ◌+◌, String, Bool, true, false, not, ◌&&◌, ◌||◌, Option, none, some, List, [], ◌∷◌,
  map, any, select, length, leb, ◌==◌, string_eq, nat_eq, if◌then◌else◌, Result, ok, err, crash,
  ◌>>=◌, ◌>>◌, raise_if,
}
use skeleton_media.Value.{Value, Items, Fields, text, int, arr, obj, nil, cons, end, field, codes}
use skeleton_media.Values.Fields.{is_opaque_id, is_sha256, is_longer_than}
use skeleton_media.Values.Record.{ProcessingMode, archive, mode_value}
use skeleton_media.Artifacts.Paths.{validate_relative_artifact_path}

pub record ArtifactEntry : Type 0 where
  pub artifact_id : String
  pub relative_path : String
  pub sha256 : String
  pub byte_size : ℕ
  pub media_type : String
  pub producer : String
  pub processing_revision : String

pub record ArtifactManifest : Type 0 where
  pub schema : String
  pub video_record_id : String
  pub processing_revision : String
  pub mode : ProcessingMode
  pub entries : List ArtifactEntry

abbrev pub has : String → List String → Bool
has x = any (λ y. y == x)

-- The members of `set(xs)`.
unfoldable pub set_of : List String → List String
set_of [] = []
set_of (x ∷ xs) = if has x xs then set_of xs else x ∷ set_of xs

-- `xs - ys` of two sets
unfoldable pub minus : List String → List String → List String
minus xs ys = select (λ x. not (has x ys)) xs

abbrev pub paths : List ArtifactEntry → List String
paths = map (λ e. e.relative_path)

abbrev pub ids : List ArtifactEntry → List String
ids = map (λ e. e.artifact_id)

-- `len(xs) == len(set(xs))`
unfoldable pub all_differ : List String → Bool
unfolding set_of
all_differ xs = length xs == length (set_of xs)

-- `ArtifactManifest(...)`
unfoldable pub checked_manifest : ArtifactManifest → Result ArtifactManifest
unfolding all_differ
checked_manifest m = do
  raise_if (not (all_differ (ids m.entries)) || not (all_differ (paths m.entries)))
      "DUPLICATE_ARTIFACT_IDENTITY"
  ok m

unfoldable pub build_manifest :
    String → String → ProcessingMode → List ArtifactEntry → Result ArtifactManifest
unfolding checked_manifest
build_manifest video_record_id processing_revision mode entries = checked_manifest (record {
  schema = "skeleton.video_understanding.manifest.v1";
  video_record_id = video_record_id;
  processing_revision = processing_revision;
  mode = mode;
  entries = entries;
})

module _ (strip : String → String) where
  abbrev pub is_bad_field : ℕ → String → Bool
  is_bad_field maximum value = strip value == "" || is_longer_than maximum value

  -- `ArtifactEntry(...)`
  unfoldable pub checked_entry : ArtifactEntry → Result ArtifactEntry
  unfolding is_opaque_id is_sha256 validate_relative_artifact_path
  checked_entry e = do
    raise_if (not (is_opaque_id e.artifact_id)) "INVALID_ARTIFACT_ID"
    normalized ← validate_relative_artifact_path e.relative_path
    raise_if (not (is_sha256 e.sha256)) "INVALID_ARTIFACT_HASH"
    raise_if (is_bad_field 256 e.media_type) "INVALID_ARTIFACT_FIELD"
    raise_if (is_bad_field 256 e.producer) "INVALID_ARTIFACT_FIELD"
    raise_if (is_bad_field 128 e.processing_revision) "INVALID_ARTIFACT_FIELD"
    ok (record e { relative_path = normalized })

unfoldable pub source_retention : ProcessingMode → String
source_retention archive = "RETAIN_SOURCE"
source_retention _ = "DELETE_TEMP_AFTER_VERIFY"

-- The order of texts by code points: the first is not after the second.
abbrev pub is_before : List ℕ → List ℕ → Bool
is_before [] ds = true
is_before (c ∷ cs) [] = false
is_before (c ∷ cs) (d ∷ ds) = if c == d then is_before cs ds else leb c d

abbrev insert_entry : ArtifactEntry → List ArtifactEntry → List ArtifactEntry
insert_entry e [] = e ∷ []
insert_entry e (f ∷ fs) =
    if is_before (codes e.artifact_id) (codes f.artifact_id)
    then e ∷ f ∷ fs
    else f ∷ insert_entry e fs

-- `sorted(entries, key=…artifact_id)`
abbrev sorted_entries : List ArtifactEntry → List ArtifactEntry
sorted_entries [] = []
sorted_entries (e ∷ es) = insert_entry e (sorted_entries es)

-- `asdict`
abbrev entry_dict : ArtifactEntry → Value
entry_dict e = obj (
    field "artifact_id" (text e.artifact_id) (
      field "relative_path" (text e.relative_path) (
        field "sha256" (text e.sha256) (
          field "byte_size" (int e.byte_size) (
            field "media_type" (text e.media_type) (
              field "producer" (text e.producer)
                (field "processing_revision" (text e.processing_revision) end)))))))

abbrev entry_dicts : List ArtifactEntry → Items
entry_dicts [] = nil
entry_dicts (e ∷ es) = cons (entry_dict e) (entry_dicts es)

unfoldable pub private_dict : ArtifactManifest → Value
unfolding source_retention
private_dict m = obj (
    field "schema" (text m.schema) (
      field "video_record_id" (text m.video_record_id) (
        field "processing_revision" (text m.processing_revision) (
          field "mode" (text (mode_value m.mode)) (
            field "source_retention" (text (source_retention m.mode))
              (field "entries" (arr (entry_dicts (sorted_entries m.entries))) end))))))

module _ (digest : Value → String) where
  unfoldable pub deterministic_hash : ArtifactManifest → String
  unfolding private_dict
  deterministic_hash m = digest (private_dict m)

-- What lies on disk: for each path, the hash and the size. The first entry of a path counts.
abbrev pub Inventory : Type 0
Inventory = List (String × (String × ℕ))

unfoldable pub observed_at : Inventory → String → Option (String × ℕ)
observed_at [] p = none
observed_at (x ∷ xs) p = if x.0 == p then some x.1 else observed_at xs p

abbrev pub is_mismatch : Option (String × ℕ) → ArtifactEntry → Bool
is_mismatch none e = false
is_mismatch (some o) e = not (o.0 == e.sha256) || not (o.1 == e.byte_size)

-- The loop of `verify_inventory` over the entries.
unfoldable pub mismatched : Inventory → List ArtifactEntry → ℕ
unfolding observed_at
mismatched inventory [] = 0
mismatched inventory (e ∷ es) =
    if is_mismatch (observed_at inventory e.relative_path) e
    then suc (mismatched inventory es)
    else mismatched inventory es

pub record Verification : Type 0 where
  pub verified : Bool
  pub entry_count : ℕ
  pub missing_count : ℕ
  pub mismatched_count : ℕ
  pub unexpected_count : ℕ

unfoldable pub verify_inventory : ArtifactManifest → Inventory → Verification
unfolding set_of minus mismatched
verify_inventory manifest inventory =
    let expected_paths = set_of (paths manifest.entries) in
    let observed_paths = set_of (map (λ x. x.0) inventory) in
    let missing_paths = minus expected_paths observed_paths in
    let unexpected_paths = minus observed_paths expected_paths in
    let mismatched = mismatched inventory manifest.entries in
    record {
      verified = (length missing_paths == 0) && (length unexpected_paths == 0) && (mismatched == 0);
      entry_count = length manifest.entries;
      missing_count = length missing_paths;
      mismatched_count = mismatched;
      unexpected_count = length unexpected_paths;
    }
