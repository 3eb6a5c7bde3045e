-- ===== src/Queue/Operations/Lease.antt =====
-- What a lease protects: the record of a worker, against every other caller of the queue.
use skeleton_media.Base.{
  ℕ, ◌≡◌, ◌≢◌, refl, sym, ◌∙◌, ap, subst, String, true, false, Option, some, List, [], ◌∷◌, Result,
  ok, err, crash, inl, inr, Bool-cases, ltb,
}
use mathlib.Core.Option.{some-injective}
use skeleton_media.Queue.Records.{pending, processing, QueueRecord, is_token}
use skeleton_media.Queue.Records.RoundTrip.{IsValid}
use skeleton_media.Queue.Files.{Files, look, read, sorted_names}
use skeleton_media.Queue.Operations.{
  M, continue, Config, is_leased, recovered, claimed, is_owner, lease_or_default, recover_one,
  recover_loop, recover_expired, claim_loop, claim,
}
use skeleton_media.Queue.Operations.Consistent.{content_of, IsConsistent, look-move_other}
use skeleton_media.Queue.Operations.Steps.{recover_one_lem, claim_read_lem, read_valid}
use skeleton_media.Queue.Operations.Keeps.{empty, full, slot, recover_one-Keeps, claim_loop-Keeps}
use skeleton_media.Queue.Operations.Find.{content_injective}

-- The record stands in `processing`.
pub record IsHeld (r : QueueRecord) (fs : Files) : Type 0 where
  pub at : look processing r.record_id fs ≡ some (content_of r)
  pub valid : IsValid r
  pub consistent : IsConsistent fs

continue-holds :
    {A B : Type 0} {r : QueueRecord} (x : Result A × Files) (f : A → M B)
    → IsHeld r x.1
    → ((a : A) (gs : Files) → IsHeld r gs → IsHeld r (f a gs).1)
    → IsHeld r (continue x f).1
continue-holds (ok a, fs) f h k = k a fs h
continue-holds (err e, fs) f h k = h
continue-holds (crash, fs) f h k = h

module _ (cfg : Config) (r : QueueRecord) where
  -- Another record with its name in `processing` is the record itself.
  held_is :
      (r' : QueueRecord) (fs : Files)
      → IsHeld r fs
      → look processing r'.record_id fs ≡ some (content_of r')
      → IsValid r'
      → r'.record_id ≡ r.record_id
      → r' ≡ r
  held_is r' fs h at v e =
      let same : some (content_of r') ≡ some (content_of r) =
        sym at ∙ ap (λ o. look processing o fs) e ∙ h.at in
      content_injective cfg r' r v h.valid (some-injective _ _ same)

  pub stays :
      (fs gs : Files)
      → IsHeld r fs
      → IsConsistent gs
      → look processing r.record_id gs ≡ look processing r.record_id fs
      → IsHeld r gs
  stays fs gs h k e = record { at = e ∙ h.at; valid = h.valid; consistent = k }

  recover_one-look :
      (now : ℕ) (n : String) (fs : Files)
      → is_leased r now ≡ true
      → IsHeld r fs
      → look processing r.record_id (recover_one cfg now n fs).1 ≡ look processing r.record_id fs
  recover_one-look now n fs l h = elim (slot processing n fs h.consistent) [
    | empty e ↦ unfold recover_one read in rw e
    | full r' named at k ↦
        rw (named, recover_one_lem cfg r' fs now at k.valid)
          (elim (Bool-cases (is_leased r' now)) [
            | inl leased ↦ rw leased
            | inr over ↦ rw over (
                look-move_other processing pending r'.record_id (recovered r' now) fs processing
                  r.record_id
                  λ e.
                    let q : is_leased r' now ≡ is_leased r now =
                      ap (λ x. is_leased x now) (held_is r' fs h at k.valid e) in
                    cc)
          ])
  ]

  pub recover_loop-holds :
      (now : ℕ) (ns : List String) (fs : Files)
      → is_leased r now ≡ true
      → IsHeld r fs
      → IsHeld r (recover_loop cfg now ns fs).1
  unfolding recover_loop
  recover_loop-holds now [] fs l h = h
  recover_loop-holds now (n ∷ ns) fs l h =
      continue-holds (recover_one cfg now n fs) _
        (stays fs _ h (recover_one-Keeps cfg now n fs h.consistent) (recover_one-look now n fs l h))
        λ k gs g.
          continue-holds (recover_loop cfg now ns gs) _ (recover_loop-holds now ns gs l g)
            (λ m ks i. i)

  -- A pending record is not the held one: one name is in one directory.
  pending_other :
      (r' : QueueRecord) (fs : Files)
      → IsHeld r fs
      → look pending r'.record_id fs ≡ some (content_of r')
      → r'.record_id ≢ r.record_id
  pending_other r' fs h at e =
      let p : look pending r.record_id fs ≡ some (content_of r') =
        subst (λ o. look pending o fs ≡ some (content_of r')) e at in
      let q = h.consistent.single pending processing r.record_id _ _ p h.at in cc

  claim_loop-look :
      (worker : String) (lease now : ℕ) (ns : List String) (fs : Files)
      → is_token worker ≡ true
      → IsHeld r fs
      → look processing r.record_id (claim_loop cfg worker lease now ns fs).1
        ≡ look processing r.record_id fs
  unfolding claim_loop
  claim_loop-look worker lease now [] fs w h = refl
  claim_loop-look worker lease now (n ∷ ns) fs w h = elim (slot pending n fs h.consistent) [
    | empty e ↦ unfold read in rw e
    | full r' named at k ↦
        rw (named, at, read_valid cfg.python r' k.valid)
          (rw
            (claim_read_lem cfg r' fs worker lease now (claim_loop cfg worker lease now ns) k.valid
              w)
            (elim (Bool-cases (ltb now r'.available_at)) [
              | inl later ↦ rw later (claim_loop-look worker lease now ns fs w h)
              | inr ready ↦ rw ready (
                  look-move_other pending processing r'.record_id (claimed r' worker lease now) fs
                    processing r.record_id (pending_other r' fs h at))
            ]))
  ]

  pub claim-holds :
      (worker : String) (lease : Option ℕ) (now : ℕ) (fs : Files)
      → is_leased r now ≡ true
      → IsHeld r fs
      → IsHeld r (claim cfg worker lease now fs).1
  unfolding claim recover_expired
  claim-holds worker lease now fs l h = elim (Bool-cases (is_token worker)) [
    | inr bad ↦ rw bad h
    | inl w ↦ rw w (
        continue-holds (recover_expired cfg now fs) _
          (recover_loop-holds now (sorted_names processing fs) fs l h)
          λ k gs g.
            let names = sorted_names pending gs in
            stays gs _ g
              (claim_loop-Keeps cfg worker (lease_or_default cfg lease) now names w gs g.consistent)
              (claim_loop-look worker (lease_or_default cfg lease) now names gs w g))
  ]

  -- A record that another worker owns is not the held one.
  pub owner_other :
      (worker : String) (r' : QueueRecord) (fs : Files)
      → IsHeld r fs
      → is_owner r worker ≡ false
      → look processing r'.record_id fs ≡ some (content_of r')
      → IsValid r'
      → is_owner r' worker ≡ true
      → r'.record_id ≢ r.record_id
  owner_other worker r' fs h w at v o e =
      let q : is_owner r' worker ≡ is_owner r worker =
        ap (λ x. is_owner x worker) (held_is r' fs h at v e) in
      cc
