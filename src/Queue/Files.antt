-- ===== src/Queue/Files.antt =====
-- The directories of `FileQueue` (queue.py): a file is named by its state and the stem of its name.
-- A write is `_write`: the temporary file that it renames is never seen by a reader under the lock.
pub mod Laws
use skeleton_media.Base.{
  ℕ, ◌+◌, ◌≡◌, String, Bool, true, false, ◌&&◌, ◌||◌, Option, none, some, List, [], ◌∷◌, ◌==◌,
  string_eq, nat_eq, leb, if◌then◌else◌, length, Result, ok, err, crash, ◌>>=◌, arith, Eq,
}
use skeleton_media.Value.{Value, obj, Python}
use skeleton_media.Queue.Records.{
  QueueState, pending, processing, done, failed, quarantined, QueueRecord, record_to_dict,
  from_dict,
}
use Prim.Native.String.{compare}
use Prim.Native.Nat.{Ordering}

-- What `json.loads(path.read_text())` gives: a value, or an `OSError`, `UnicodeDecodeError` or
-- `JSONDecodeError`.
pub data Content : Type 0 where
  value : Value → Content
  unreadable : Content

pub record File : Type 0 where
  pub state : QueueState
  pub name : String
  pub content : Content

abbrev pub Files : Type 0
Files = List File

abbrev state_index : QueueState → ℕ
state_index pending = 0
state_index processing = 1
state_index done = 2
state_index failed = 3
state_index quarantined = 4

unfoldable pub same_state : QueueState → QueueState → Bool
same_state s t = state_index s == state_index t

-- The file is the one at this path.
unfoldable pub is_at : QueueState → String → File → Bool
unfolding same_state
is_at s n f = same_state f.state s && (f.name == n)

-- `path.exists()`, with the content.
unfoldable pub look : QueueState → String → Files → Option Content
look s n [] = none
look s n (f ∷ fs) = if is_at s n f then some f.content else look s n fs

-- `path.unlink()`
unfoldable pub unlink : QueueState → String → Files → Files
unlink s n [] = []
unlink s n (f ∷ fs) = if is_at s n f then unlink s n fs else f ∷ unlink s n fs

-- `os.replace(temporary, path)`
unfoldable pub store : QueueState → String → Content → Files → Files
store s n c fs = record { state = s; name = n; content = c } ∷ unlink s n fs

-- `_write`: JSON of the record's dictionary.
unfoldable pub write : QueueState → String → QueueRecord → Files → Files
unfolding store
write s n r fs = store s n (value (obj (record_to_dict r))) fs

-- `_read`
unfoldable pub read : Python → Option Content → Result QueueRecord
read py none = err "QUEUE_RECORD_NOT_FOUND"
read py (some unreadable) = err "QUEUE_RECORD_UNREADABLE"
read py (some (value (obj d))) = from_dict py d
read py (some (value _)) = err "QUEUE_RECORD_INVALID"

-- Text order by code points, as Python compares names.
text_leb : String → String → Bool
text_leb a b = elim (compare a b) [ Ordering.gt ↦ false | _ ↦ true ]

insert_name : String → List String → List String
unfolding text_leb
insert_name n [] = n ∷ []
insert_name n (m ∷ ms) = if text_leb n m then n ∷ m ∷ ms else m ∷ insert_name n ms

-- `sorted((root / state).glob("job_*.json"))`, as stems. Only job files stand in the directories.
unfoldable pub sorted_names : QueueState → Files → List String
unfolding insert_name same_state
sorted_names s [] = []
sorted_names s (f ∷ fs) =
    let rest = sorted_names s fs in if same_state f.state s then insert_name f.name rest else rest

-- `len(tuple((root / state).glob(…)))`
unfoldable pub count_in : QueueState → Files → ℕ
unfolding same_state
count_in s [] = 0
count_in s (f ∷ fs) = let rest = count_in s fs in if same_state f.state s then rest + 1 else rest
