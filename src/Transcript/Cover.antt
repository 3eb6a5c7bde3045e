-- ===== src/Transcript/Cover.antt =====
-- `_union_duration` (transcript.py). Times are whole milliseconds.
pub mod Union
use skeleton_media.Base.{
  ℕ, suc, ◌+◌, ◌-◌, Bool, true, false, ◌&&◌, ◌||◌, List, [], ◌∷◌, ◌==◌, nat_eq, ltb, leb, max,
  if◌then◌else◌,
}

abbrev pub Range : Type 0
Range = ℕ × ℕ

-- The order of pairs.
abbrev pub range_leb : Range → Range → Bool
range_leb a b = ltb a.0 b.0 || ((a.0 == b.0) && leb a.1 b.1)

pub insert_range : Range → List Range → List Range
insert_range r [] = r ∷ []
insert_range r (x ∷ xs) =
    let rest = insert_range r xs in if range_leb r x then r ∷ x ∷ xs else x ∷ rest

-- `sorted(ranges)`
pub sort_ranges : List Range → List Range
unfolding insert_range
sort_ranges [] = []
sort_ranges (r ∷ rs) = insert_range r (sort_ranges rs)

-- The loop over the ordered ranges, with `total`, `current_start` and `current_end`. The subtraction
-- stops at 0, as the code's `max(0.0, …)` does.
pub merge_loop : ℕ → ℕ → ℕ → List Range → ℕ
merge_loop total s e [] = total + (e - s)
merge_loop total s e (r ∷ rs) = elim (leb r.0 e) [
  | true ↦ merge_loop total s (max e r.1) rs
  | false ↦ merge_loop (total + (e - s)) r.0 r.1 rs
]

merge_all : List Range → ℕ
unfolding merge_loop
merge_all [] = 0
merge_all (r ∷ rs) = merge_loop 0 r.0 r.1 rs

pub union_duration : List Range → ℕ
unfolding sort_ranges merge_all
union_duration rs = merge_all (sort_ranges rs)
