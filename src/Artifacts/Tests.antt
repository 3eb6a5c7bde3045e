-- ===== src/Artifacts/Tests.antt =====
-- The store at concrete inputs.
use skeleton_media.Base.{
  ◌⊎◌, ◌≡◌, refl, ◌↔◌, String, true, false, none, some, [], ◌∷◌, any, ok, All,
}
use skeleton_media.Values.Fields.{is_opaque_id, is_sha256}
use skeleton_media.Values.Record.{standard}
use skeleton_media.Artifacts.Paths.Inside.{validate_relative_artifact_path-inside}
use skeleton_media.Artifacts.Paths.{
  is_absolute, is_upward, validate_relative_artifact_path, pieces, parts, join,
}
use skeleton_media.Artifacts.Manifest.{
  ArtifactEntry, ArtifactManifest, Inventory, set_of, all_differ, checked_manifest, build_manifest,
  checked_entry, observed_at, verify_inventory, deterministic_hash,
}
use skeleton_media.Artifacts.Manifest.Sets.{promised}
use skeleton_media.Artifacts.Manifest.Exact.{verify_inventory-exact}
use skeleton_media.Artifacts.Store.{
  Library, Item, file, entry_of, inventory, Place, Target, revision_at, existing, safe_id,
  target_root, Finalize, Prepared, prepare, receipt_of, finalize, finalize_all,
}
use skeleton_media.Artifacts.Store.WriteOnce.{Steps}
use skeleton_media.Artifacts.Store.Refines.{finalize_all_refines}
use skeleton_media.Artifacts.Store.Receipts.{Stands, finalize_all-Stands}
use skeleton_media.Artifacts.Store.Leftovers.{is_leftover}
use skeleton_media.Artifacts.Store.Succeeds.{finalize-first}

abbrev hash : String
hash = "00000000000000000000000000000000000000000000000000000000000000ff"

abbrev lib : Library
lib = record { strip = λ s. s; suffix = λ s. ".json"; sha256_text = λ s. hash; digest = λ v. hash }

abbrev record_file : Item
record_file = record { relative = "text/record.json"; kind = file; sha256 = hash; size = 12 }

abbrev call : Finalize
call = record {
  items = record_file ∷ [];
  video_record_id = "vr_1";
  processing_revision = "r1";
  mode = standard;
  producer = "test";
  is_staged = true;
  is_replaced = true;
}

abbrev entry : ArtifactEntry
entry = entry_of lib "r1" "test" record_file

abbrev manifest : ArtifactManifest
manifest = record {
  schema = "skeleton.video_understanding.manifest.v1";
  video_record_id = "vr_1";
  processing_revision = "r1";
  mode = standard;
  entries = entry ∷ [];
}

abbrev disk : Inventory
disk = ("text/record.json", (hash, 12)) ∷ []

manifest_accepted : checked_manifest manifest ≡ ok manifest
unfolding checked_manifest all_differ set_of
manifest_accepted = refl

verify_inventory-exact_example :
    ((verify_inventory manifest disk).verified ≡ true)
    ↔ ((p : String) → observed_at disk p ≡ promised manifest.entries p)
verify_inventory-exact_example = verify_inventory-exact manifest manifest disk manifest_accepted

abbrev prepared : Prepared
prepared = record { manifest = manifest; hash = hash; key = ("vr_1", "r1") }

call-prepared : prepare lib call ≡ ok prepared
unfolding prepare inventory checked_entry is_opaque_id is_sha256 validate_relative_artifact_path
    parts join build_manifest checked_manifest all_differ set_of deterministic_hash target_root
    safe_id
call-prepared = refl

call_free : existing [] prepared.key ≡ none
unfolding existing revision_at
call_free = refl

call_posix : join (parts "text/record.json") ≡ "text/record.json"
unfolding join parts
call_posix = refl

finalize-first_example :
    ((finalize lib [] call).1 ≡ ok (receipt_of lib call prepared false))
    ↔ (any is_leftover call.items ≡ false)
finalize-first_example =
    finalize-first lib [] call prepared call-prepared call_free refl (call_posix, tt)

finalize_all_refines_example :
    Steps lib
      (call ∷ call ∷ [])
      (revision_at [])
      (revision_at (finalize_all lib [] (call ∷ call ∷ [])).0)
      (finalize_all lib [] (call ∷ call ∷ [])).1
finalize_all_refines_example = finalize_all_refines lib [] (call ∷ call ∷ [])

finalize_all-Stands_example :
    ((k : Place) (t : Target)
      → revision_at [] k ≡ some t
      → revision_at (finalize_all lib [] (call ∷ call ∷ [])).0 k ≡ some t)
    × All
        (Stands lib (revision_at (finalize_all lib [] (call ∷ call ∷ [])).0))
        (finalize_all lib [] (call ∷ call ∷ [])).1
finalize_all-Stands_example = finalize_all-Stands lib [] (call ∷ call ∷ [])

path_accepted : validate_relative_artifact_path "a/./b" ≡ ok "a/b"
unfolding validate_relative_artifact_path parts join
path_accepted = refl

validate_relative_artifact_path-inside_example :
    (is_absolute "a/b" ≡ false)
    × (parts "a/b" ≡ parts "a/./b")
    × ((◌≡◌ {A = String} "a/b" ".") ⊎ (any is_upward (pieces "a/b") ≡ false))
validate_relative_artifact_path-inside_example =
    validate_relative_artifact_path-inside "a/./b" "a/b" path_accepted
