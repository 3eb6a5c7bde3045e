-- ===== src/Artifacts/Store.antt =====
-- `PrivateArtifactStore` (artifact_store.py): the promotion of a workspace to a revision, and its
-- readback. The store is the list of its revisions.
pub mod WriteOnce
pub mod Readback
pub mod Refines
pub mod Receipts
pub mod Leftovers
pub mod Succeeds
use skeleton_media.Base.{
  ℕ, zero, suc, String, Bool, true, false, not, ◌&&◌, ◌||◌, Option, none, some, List, [], ◌∷◌, any,
  length, leb, ◌==◌, string_eq, nat_eq, if◌then◌else◌, Result, ok, err, crash, ◌>>=◌, ◌>>◌,
  raise_if,
}
use Prim.Native.Char.{code}
use Prim.Native.String.{◌++◌}
use skeleton_media.Value.{Value, Fields, text, int, bool, obj, end, field, get, codes}
use skeleton_media.Values.Fields.{is_opaque_id}
use skeleton_media.Values.Record.{ProcessingMode}
use skeleton_media.Artifacts.Paths.{pieces, is_absolute}
use skeleton_media.Artifacts.Manifest.{
  ArtifactEntry, ArtifactManifest, checked_entry, build_manifest, private_dict, deterministic_hash,
  Inventory, verify_inventory,
}
pub use skeleton_media.Artifacts.Items.{
  Library, Kind, link, file, other, Item, is_link, is_file, name_of, ends_with, is_skipped,
  is_unread, entry_of, with_entry,
}
unfoldable pub use skeleton_media.Artifacts.Items.{inventory, readback}

-- A revision is kept in the directory of its identities; one that is a single dot drops out of the path.
abbrev pub Place : Type 0
Place = String × String

abbrev pub same_place : Place → Place → Bool
same_place j k = j.0 == k.0 && (j.1 == k.1)

-- A directory: its files and what `manifest.json` holds, `none` if that is no readable mapping.
pub record Target : Type 0 where
  pub items : List Item
  pub manifest_json : Option Fields

pub record Revision : Type 0 where
  pub key : Place
  pub target : Target

unfoldable pub revision_at : List Revision → Place → Option Target
revision_at [] k = none
revision_at (r ∷ rs) k = if same_place r.key k then some r.target else revision_at rs k

-- The directory at a key; the directory above revisions has no manifest.
unfoldable pub existing : List Revision → Place → Option Target
unfolding revision_at
existing rs k = elim (revision_at rs k) [
  | some t ↦ some t
  | none ↦
      if k.0 == "" && any (λ r. r.key.0 == k.1) rs
      then some (record { items = []; manifest_json = none })
      else none
]

-- `".." in value`
abbrev has_dots : String → Bool
has_dots String.[] = false
has_dots (String.◌∷◌ c s) = (code c == b'.') && starts_dot s || has_dots s
  where
    starts_dot : String → Bool
    starts_dot String.[] = false
    starts_dot (String.◌∷◌ d t) = code d == b'.'

-- `_safe_id`
unfoldable pub safe_id : String → Result String
unfolding is_opaque_id
safe_id value = do
  raise_if (not (is_opaque_id value && leb (length (codes value)) 160) || has_dots value)
      "ARTIFACT_ID_INVALID"
  ok value

unfoldable pub target_root : String → String → Result Place
unfolding safe_id
target_root video_record_id processing_revision = do
  i ← safe_id video_record_id
  r ← safe_id processing_revision
  raise_if (i == "." && r == ".") "ARTIFACT_PATH_ESCAPE"
  ok (if i == "." then ("", r) else if r == "." then ("", i) else (i, r))

-- A call of `finalize`. `is_staged` says that the workspace lies below the staging root, and
-- `is_replaced` whether `os.replace` succeeds, should the call get there.
pub record Finalize : Type 0 where
  pub items : List Item
  pub video_record_id : String
  pub processing_revision : String
  pub mode : ProcessingMode
  pub producer : String
  pub is_staged : Bool
  pub is_replaced : Bool

pub record FinalizedArtifact : Type 0 where
  pub video_record_id : String
  pub processing_revision : String
  pub root : Place
  pub manifest_hash : String
  pub entry_count : ℕ
  pub replay : Bool

unfoldable pub public_receipt : FinalizedArtifact → Value
public_receipt a = obj (
    field "schema" (text "skeleton.video_understanding.artifact_receipt.v1") (
      field "status" (text (if a.replay then "REPLAY" else "FINALIZED"))
        (field "entry_count" (int a.entry_count) (field "readback_verified" (bool true) end))))

-- An exception that is no `VideoUnderstandingError`.
abbrev pub crash_if : Bool → Result (Unit {0})
crash_if true = crash
crash_if false = ok tt

-- `payload.get("manifest_hash") == h`
abbrev pub is_text : Option Value → String → Bool
is_text (some (text s)) h = s == h
is_text _ h = false

abbrev pub has_hash : Fields → String → Bool
has_hash payload h = is_text (get payload "manifest_hash") h

-- `_read_manifest`
unfoldable pub read_manifest : Target → Result Fields
read_manifest t = elim t.manifest_json [ some p ↦ ok p | none ↦ err "MANIFEST_READ_FAILED" ]

-- What `_atomic_json_write` meets: its temporary file exists, or `manifest.json` is no file.
abbrev pub is_blocked : Item → Bool
is_blocked x =
    x.relative == "manifest.json.part" || (x.relative == "manifest.json" && not (is_file x.kind))

pub record Prepared : Type 0 where
  pub manifest : ArtifactManifest
  pub hash : String
  pub key : Place

module _ (lib : Library) where
  -- `_verify_target`
  unfoldable pub verify_target : Target → ArtifactManifest → Result (Unit {0})
  unfolding readback verify_inventory read_manifest deterministic_hash get
  verify_target t manifest = do
    i ← readback lib t.items
    raise_if (not (verify_inventory manifest i).verified) "ARTIFACT_READBACK_FAILED"
    payload ← read_manifest t
    raise_if (not (has_hash payload (deterministic_hash lib.digest manifest)))
        "MANIFEST_READBACK_FAILED"
    ok tt

  unfoldable pub manifest_payload : ArtifactManifest → Fields
  unfolding private_dict deterministic_hash
  manifest_payload m =
      field "manifest" (private_dict m)
        (field "manifest_hash" (text (deterministic_hash lib.digest m)) end)

  -- `finalize` up to the target.
  unfoldable pub prepare : Finalize → Result Prepared
  unfolding inventory build_manifest deterministic_hash target_root
  prepare c = do
    raise_if (not c.is_staged) "ARTIFACT_WORKSPACE_INVALID"
    entries ← inventory lib c.processing_revision c.producer c.items
    raise_if (length entries == 0) "ARTIFACT_SET_EMPTY"
    manifest ← build_manifest c.video_record_id c.processing_revision c.mode entries
    crash_if (any is_blocked c.items)
    key ← target_root c.video_record_id c.processing_revision
    ok (record { manifest = manifest; hash = deterministic_hash lib.digest manifest; key = key })

  unfoldable pub receipt_of : Finalize → Prepared → Bool → FinalizedArtifact
  receipt_of c p replay = record {
    video_record_id = c.video_record_id;
    processing_revision = c.processing_revision;
    root = p.key;
    manifest_hash = p.hash;
    entry_count = length p.manifest.entries;
    replay = replay;
  }

  -- `finalize` where the target exists.
  unfoldable pub replayed : Finalize → Prepared → Target → Result FinalizedArtifact
  unfolding read_manifest verify_target receipt_of get
  replayed c p t = do
    payload ← read_manifest t
    raise_if (not (has_hash payload p.hash)) "ARTIFACT_REVISION_CONFLICT"
    verify_target t p.manifest
    ok (receipt_of c p true)

  unfoldable pub promoted : Finalize → Prepared → Target
  unfolding manifest_payload
  promoted c p = record { items = c.items; manifest_json = some (manifest_payload p.manifest) }

  -- `os.replace`, and what follows if it succeeded.
  unfoldable pub promote :
      List Revision → Finalize → Prepared → Bool → List Revision × Result FinalizedArtifact
  unfolding promoted verify_target receipt_of
  promote rs c p true = (
    record { key = p.key; target = promoted c p } ∷ rs,
    verify_target (promoted c p) p.manifest >> ok (receipt_of c p false),
  )
  promote rs c p false = (rs, err "ARTIFACT_PROMOTION_FAILED")

  unfoldable pub finalize_at :
      List Revision → Finalize → Prepared → Option Target → List Revision × Result FinalizedArtifact
  unfolding replayed promote
  finalize_at rs c p (some t) = (rs, replayed c p t)
  finalize_at rs c p none = promote rs c p c.is_replaced

  unfoldable pub finalize : List Revision → Finalize → List Revision × Result FinalizedArtifact
  unfolding prepare finalize_at existing
  finalize rs c = elim (prepare c) [
    | ok p ↦ finalize_at rs c p (existing rs p.key)
    | err e ↦ (rs, err e)
    | crash ↦ (rs, crash)
  ]

  -- Calls one after the other, with their answers.
  unfoldable pub finalize_all :
      List Revision → List Finalize → List Revision × List (Result FinalizedArtifact)
  unfolding finalize
  finalize_all rs [] = (rs, [])
  finalize_all rs (c ∷ cs) =
      let first = finalize rs c in let rest = finalize_all first.0 cs in (rest.0, first.1 ∷ rest.1)
