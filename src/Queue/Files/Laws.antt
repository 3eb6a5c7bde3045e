-- ===== src/Queue/Files/Laws.antt =====
-- The directories by their lookups.
use skeleton_media.Base.{
  ◌≡◌, ◌↔◌, refl, String, Bool, true, ◌&&◌, none, some, [], ◌∷◌, ◌==◌, string_eq, if◌then◌else◌,
  eq_iff, arith,
}
use skeleton_media.Queue.Records.{QueueState}
use skeleton_media.Queue.Files.{Content, File, Files, same_state, is_at, look, unlink, store}

pub same_state_iff : (s t : QueueState) → (same_state s t ≡ true) ↔ (s ≡ t)
unfolding same_state
same_state_iff s t = ground arith

-- `s` and `n` name the same path as `t` and `m`.
pub same_path : QueueState → String → QueueState → String → Bool
same_path s n t m = same_state s t && (n == m)

pub same_path_iff :
    (s : QueueState) (n : String) (t : QueueState) (m : String)
    → (same_path s n t m ≡ true) ↔ ((s ≡ t) × (n ≡ m))
unfolding same_path
same_path_iff s n t m = ground (arith, same_state_iff s t, eq_iff n m)

is_at-left :
    (s : QueueState) (n : String) (f : File) (t : QueueState) (m : String)
    → is_at s n f ≡ true
    → is_at t m f ≡ same_path s n t m
unfolding is_at same_path same_state
is_at-left s n f t m h =
    let e : f.state ≡ s = ground (arith, same_state_iff f.state s) in
    let g : f.name ≡ n = ground (arith, eq_iff f.name n) in rw (e, g)

same_state_comm : (s t : QueueState) → same_state s t ≡ same_state t s
same_state_comm s t = ground (arith, same_state_iff s t, same_state_iff t s)

text_comm : (n m : String) → (n == m) ≡ (m == n)
text_comm n m = ground (arith, eq_iff n m, eq_iff m n)

pub same_path_comm :
    (s : QueueState) (n : String) (t : QueueState) (m : String)
    → same_path s n t m ≡ same_path t m s n
unfolding same_path
same_path_comm s n t m = rw (same_state_comm s t, text_comm n m)

is_at-right :
    (s : QueueState) (n : String) (f : File) (t : QueueState) (m : String)
    → is_at t m f ≡ true
    → is_at s n f ≡ same_path s n t m
is_at-right s n f t m h = rw (same_path_comm s n t m) (is_at-left t m f s n h)

pub look-unlink :
    (s : QueueState) (n : String) (fs : Files) (t : QueueState) (m : String)
    → look t m (unlink s n fs) ≡ (if same_path s n t m then none else look t m fs)
unfolding look unlink
look-unlink s n [] t m = ground arith
look-unlink s n (f ∷ fs) t m =
    ground (arith, is_at-left s n f t m, is_at-right s n f t m, look-unlink s n fs t m)

is_at-stored :
    (s : QueueState) (n : String) (c : Content) (t : QueueState) (m : String)
    → is_at t m (record { state = s; name = n; content = c }) ≡ same_path s n t m
unfolding is_at same_path
is_at-stored s n c t m = refl

pub look-store :
    (s : QueueState) (n : String) (c : Content) (fs : Files) (t : QueueState) (m : String)
    → look t m (store s n c fs) ≡ (if same_path s n t m then some c else look t m fs)
unfolding look store
look-store s n c fs t m = ground (arith, is_at-stored s n c t m, look-unlink s n fs t m)
