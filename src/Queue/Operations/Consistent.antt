-- ===== src/Queue/Operations/Consistent.antt =====
-- What the directories hold between two calls of `FileQueue`, and the changes that keep it.
use skeleton_media.Base.{
  ◌≡◌, ◌≢◌, sym, ◌∙◌, subst, String, false, none, some, ◌⊎◌, inl, inr, Bool-cases, arith,
}
use skeleton_media.Value.{obj}
use skeleton_media.Queue.Records.{QueueState, processing, QueueRecord, record_to_dict}
use skeleton_media.Queue.Records.RoundTrip.{IsValid}
use skeleton_media.Queue.Files.{Content, value, Files, look, unlink, store, write}
use skeleton_media.Queue.Files.Laws.{same_path, same_path_iff, look-unlink, look-store}

-- A record in `processing` has a lease and a worker, and no other record has either.
abbrev pub LeaseFits : QueueState → QueueRecord → Type 0
LeaseFits processing r = (r.lease_until ≢ none) × (r.worker_id ≢ none)
LeaseFits _ r = (r.lease_until ≡ none) × (r.worker_id ≡ none)

abbrev pub content_of : QueueRecord → Content
content_of r = value (obj (record_to_dict r))

-- The file of a state and a name holds a valid record of that state and that identity.
pub record IsStored (s : QueueState) (n : String) (r : QueueRecord) : Type 0 where
  pub in_state : r.state ≡ s
  pub named : r.record_id ≡ n
  pub valid : IsValid r
  pub fits : LeaseFits s r

-- Every file is such a record, and no name is in two directories.
pub record IsConsistent (fs : Files) : Type 0 where
  pub stored :
      (s : QueueState) (n : String) (c : Content)
      → look s n fs ≡ some c
      → (r : QueueRecord) × (c ≡ content_of r) × IsStored s n r
  pub single :
      (s t : QueueState) (n : String) (c d : Content)
      → look s n fs ≡ some c
      → look t n fs ≡ some d
      → s ≡ t

same_looks :
    (fs gs : Files)
    → ((t : QueueState) (m : String) → look t m fs ≡ look t m gs)
    → IsConsistent gs
    → IsConsistent fs
same_looks fs gs e h = record {
  stored = λ s n c p. h.stored s n c (sym (e s n) ∙ p);
  single = λ s t n c d p q. h.single s t n c d (sym (e s n) ∙ p) (sym (e t n) ∙ q);
}

-- A file that is removed takes nothing else with it.
unlink_inv :
    (s : QueueState) (n : String) (fs : Files) (t : QueueState) (m : String) (c : Content)
    → look t m (unlink s n fs) ≡ some c
    → (look t m fs ≡ some c) × (same_path s n t m ≡ false)
unlink_inv s n fs t m c p = ground (arith, look-unlink s n fs t m)

unlink-IsConsistent :
    (s : QueueState) (n : String) (fs : Files) → IsConsistent fs → IsConsistent (unlink s n fs)
unlink-IsConsistent s n fs h = record {
  stored = λ t m c p. h.stored t m c (unlink_inv s n fs t m c p).0;
  single = λ t u m c d p q.
      h.single t u m c d (unlink_inv s n fs t m c p).0 (unlink_inv s n fs u m d q).0;
}

pub look-write_self :
    (s : QueueState) (n : String) (r : QueueRecord) (fs : Files)
    → look s n (write s n r fs) ≡ some (content_of r)
unfolding write
look-write_self s n r fs =
    ground (arith, look-store s n (content_of r) fs s n, same_path_iff s n s n)

-- A change of one name leaves every other name alone.
pub look-write_other :
    (s : QueueState) (n : String) (r : QueueRecord) (fs : Files) (t : QueueState) (m : String)
    → n ≢ m
    → look t m (write s n r fs) ≡ look t m fs
unfolding write
look-write_other s n r fs t m d =
    ground (arith, look-store s n (content_of r) fs t m, same_path_iff s n t m)

pub look-move_other :
    (a s : QueueState) (n : String) (r : QueueRecord) (fs : Files) (t : QueueState) (m : String)
    → n ≢ m
    → look t m (unlink a n (write s n r fs)) ≡ look t m fs
look-move_other a s n r fs t m d = ground (
  arith,
  look-unlink a n (write s n r fs) t m,
  same_path_iff a n t m,
  look-write_other s n r fs t m d,
)

module _ (s : QueueState) (n : String) (r : QueueRecord) (fs : Files) where
  write_inv :
      (t : QueueState) (m : String) (c : Content)
      → look t m (write s n r fs) ≡ some c
      → ((s ≡ t) × (n ≡ m) × (c ≡ content_of r))
        ⊎ ((look t m fs ≡ some c) × (same_path s n t m ≡ false))
  unfolding write
  write_inv t m c p = elim (Bool-cases (same_path s n t m)) [
    | inl e ↦ inl (
      ((same_path_iff s n t m).0 e).0,
      ((same_path_iff s n t m).0 e).1,
      ground (arith, look-store s n (content_of r) fs t m),
    )
    | inr e ↦ inr (ground (arith, look-store s n (content_of r) fs t m), e)
  ]

  -- Writing a fitting record keeps this, if its name is in no other directory.
  pub write-IsConsistent :
      IsConsistent fs
      → ((t : QueueState) (d : Content) → look t n fs ≡ some d → t ≡ s)
      → IsStored s n r
      → IsConsistent (write s n r fs)
  write-IsConsistent h only k = record {
    stored = λ t m c p. elim (write_inv t m c p) [
      | inl (e, f, g) ↦ (r, g, subst (λ u. IsStored u m r) e (subst (λ o. IsStored s o r) f k))
      | inr (q, _) ↦ h.stored t m c q
    ];
    single = λ t u m c d p q. elim (write_inv t m c p) [
      | inl (e, f, g) ↦ elim (write_inv u m d q) [
        | inl (e', _, _) ↦ sym e ∙ e'
        | inr (q', _) ↦ sym e ∙ sym (only u d (subst (λ o. look u o fs ≡ some d) (sym f) q'))
      ]
      | inr (p', _) ↦ elim (write_inv u m d q) [
        | inl (e', f, _) ↦ only t c (subst (λ o. look t o fs ≡ some c) (sym f) p') ∙ e'
        | inr (q', _) ↦ h.single t u m c d p' q'
      ]
    ];
  }

module _ (s : QueueState) (n : String) (r : QueueRecord) (fs : Files) (a : QueueState)
    (d : a ≢ s) where
  swap_looks :
      (t : QueueState) (m : String)
      → look t m (unlink a n (write s n r fs)) ≡ look t m (write s n r (unlink a n fs))
  unfolding write
  swap_looks t m = ground (
    arith,
    look-unlink a n (store s n (content_of r) fs) t m,
    look-store s n (content_of r) fs t m,
    look-store s n (content_of r) (unlink a n fs) t m,
    look-unlink a n fs t m,
    same_path_iff a n t m,
    same_path_iff s n t m,
  )

  -- So does moving a record: writing it to another directory, then removing it from the first.
  pub move-IsConsistent :
      IsConsistent fs
      → ((t : QueueState) (c : Content) → look t n fs ≡ some c → t ≡ a)
      → IsStored s n r
      → IsConsistent (unlink a n (write s n r fs))
  move-IsConsistent h only k =
      same_looks _ (write s n r (unlink a n fs)) swap_looks
        (write-IsConsistent s n r (unlink a n fs) (unlink-IsConsistent a n fs h) gone k)
    where
      gone : (t : QueueState) (c : Content) → look t n (unlink a n fs) ≡ some c → t ≡ s
      gone t c p =
          let q = unlink_inv a n fs t n c p in
          let e = only t c q.0 in ground (arith, same_path_iff a n t n)
