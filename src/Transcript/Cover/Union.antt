-- ===== src/Transcript/Cover/Union.antt =====
-- The duration of a union is the number of milliseconds that lie in one of the ranges.
use skeleton_media.Base.{
  ℕ, zero, suc, ◌+◌, ◌-◌, ◌≤◌, ◌<◌, ◌≡◌, refl, sym, ap, ◌∙◌, Bool, true, false, ◌&&◌, ◌||◌, List,
  [], ◌∷◌, ltb, leb, max, min, if◌then◌else◌, any, All, inl, inr, Bool-cases, arith, leb→le,
}
use native.Mathlib.Nat.{max-le}
use skeleton_media.Transcript.Cover.{
  Range, range_leb, insert_range, sort_ranges, merge_loop, merge_all, union_duration,
}

-- The millisecond that starts at `t` lies in the range.
abbrev pub lies_in : ℕ → Range → Bool
lies_in t r = leb r.0 t && ltb t r.1

abbrev pub is_covered : List Range → ℕ → Bool
is_covered rs t = any (lies_in t) rs

-- The number of times below a bound that satisfy a test.
unfoldable pub count_below : ℕ → (ℕ → Bool) → ℕ
count_below zero f = 0
count_below (suc n) f = let rest = count_below n f in if f n then rest + 1 else rest

pub count_below-ext :
    (n : ℕ) (f g : ℕ → Bool) → ((t : ℕ) → f t ≡ g t) → count_below n f ≡ count_below n g
unfolding count_below
count_below-ext zero f g h = refl
count_below-ext (suc n) f g h = rw (h n, count_below-ext n f g h)

count_below-lies_in : (n : ℕ) (r : Range) → count_below n (λ t. lies_in t r) ≡ min n r.1 - r.0
unfolding count_below
count_below-lies_in zero r = ground arith
count_below-lies_in (suc n) r = ground (arith, count_below-lies_in n r)

-- Two tests that never hold at once count apart.
count_below-or :
    (n : ℕ) (f g : ℕ → Bool)
    → ((t : ℕ) → f t ≡ true → g t ≡ false)
    → count_below n (λ t. f t || g t) ≡ count_below n f + count_below n g
unfolding count_below
count_below-or zero f g h = refl
count_below-or (suc n) f g h = elim (Bool-cases (f n)) [
  | inl y ↦ rw (y, h n y, count_below-or n f g h) (omega arith)
  | inr y ↦ elim (Bool-cases (g n)) [
    | inl z ↦ rw (y, z, count_below-or n f g h) (omega arith)
    | inr z ↦ rw (y, z, count_below-or n f g h)
  ]
]

-- The starts do not fall, and are at least the first argument.
abbrev IsSortedFrom : ℕ → List Range → Type 0
IsSortedFrom s [] = Unit
IsSortedFrom s (r ∷ rs) = (s ≤ r.0) × IsSortedFrom r.0 rs

later : (s : ℕ) (r : Range) (rs : List Range) → IsSortedFrom s (r ∷ rs) → IsSortedFrom s rs
later s r [] o = tt
later s r (x ∷ xs) o = (omega (arith, o.0, o.1.0), o.1.1)

before_start : (t s : ℕ) (rs : List Range) → IsSortedFrom s rs → t < s → is_covered rs t ≡ false
before_start t s [] o l = refl
before_start t s (r ∷ rs) o l = ground (arith, before_start t r.0 rs o.1 (omega (arith, o.0)))

-- A range that starts in the one before it extends it.
pub joined :
    (s e : ℕ) (r : Range) (rs : List Range) (t : ℕ)
    → s ≤ r.0
    → r.0 ≤ e
    → is_covered ((s, max e r.1) ∷ rs) t ≡ is_covered ((s, e) ∷ r ∷ rs) t
joined s e r rs t a b = ground arith

count-one : (n : ℕ) (r : Range) → r.1 ≤ n → count_below n (is_covered (r ∷ [])) ≡ r.1 - r.0
count-one n r h =
    count_below-ext n (is_covered (r ∷ [])) (λ t. lies_in t r) (λ t. ground arith)
    ∙ (count_below-lies_in n r ∙ omega (arith, h))

-- A range that starts after the end of the one before it counts apart.
count-apart :
    (n : ℕ) (x r : Range) (rs : List Range)
    → x.1 ≤ n
    → x.1 < r.0
    → IsSortedFrom r.0 rs
    → count_below n (is_covered (x ∷ r ∷ rs)) ≡ (x.1 - x.0) + count_below n (is_covered (r ∷ rs))
count-apart n x r rs h l o =
    count_below-or n (λ t. lies_in t x) (is_covered (r ∷ rs))
      (λ t y. before_start t r.0 (r ∷ rs) (omega arith, o) (ground arith))
    ∙ rw (count_below-lies_in n x) (omega (arith, h))

merge_loop_lem :
    (n total s e : ℕ) (rs : List Range)
    → IsSortedFrom s rs
    → e ≤ n
    → All (λ r. r.1 ≤ n) rs
    → merge_loop total s e rs ≡ total + count_below n (is_covered ((s, e) ∷ rs))
unfolding merge_loop
merge_loop_lem n total s e [] o h a = rw (count-one n (s, e) h)
merge_loop_lem n total s e (r ∷ rs) o h a = elim (Bool-cases (leb r.0 e)) [
  | inl j ↦
      rw (j, merge_loop)
        (merge_loop_lem n total s (max e r.1) rs (later s r rs o) (max-le h a.0) a.1
          ∙ ap (λ k. total + k)
              (count_below-ext n _ _ (λ t. joined s e r rs t o.0 (leb→le r.0 e j))))
  | inr j ↦
      rw (j, merge_loop)
        (merge_loop_lem n (total + (e - s)) r.0 r.1 rs o.1 a.0 a.1
          ∙ rw (count-apart n (s, e) r rs h (ground arith) o.1) (omega arith))
]

insert_range-covers :
    (r : Range) (rs : List Range) (t : ℕ) → is_covered (insert_range r rs) t ≡ is_covered (r ∷ rs) t
unfolding insert_range
insert_range-covers r [] t = refl
insert_range-covers r (x ∷ xs) t = elim (Bool-cases (range_leb r x)) [
  | inl y ↦ rw y
  | inr y ↦ rw (y, insert_range-covers r xs t) (ground arith)
]

insert_range-IsSortedFrom :
    (s : ℕ) (r : Range) (rs : List Range)
    → s ≤ r.0
    → IsSortedFrom s rs
    → IsSortedFrom s (insert_range r rs)
unfolding insert_range
insert_range-IsSortedFrom s r [] l o = (l, tt)
insert_range-IsSortedFrom s r (x ∷ xs) l o = elim (Bool-cases (range_leb r x)) [
  | inl y ↦ rw y (l, (ground arith, o.1))
  | inr y ↦ rw y (o.0, insert_range-IsSortedFrom x.0 r xs (ground arith) o.1)
]

insert_range-All :
    (n : ℕ) (r : Range) (rs : List Range)
    → r.1 ≤ n
    → All (λ x. x.1 ≤ n) rs
    → All (λ x. x.1 ≤ n) (insert_range r rs)
unfolding insert_range
insert_range-All n r [] l a = (l, tt)
insert_range-All n r (x ∷ xs) l a = elim (Bool-cases (range_leb r x)) [
  | inl y ↦ rw y (l, a)
  | inr y ↦ rw y (a.0, insert_range-All n r xs l a.1)
]

sort_ranges-covers : (rs : List Range) (t : ℕ) → is_covered (sort_ranges rs) t ≡ is_covered rs t
unfolding sort_ranges
sort_ranges-covers [] t = refl
sort_ranges-covers (r ∷ rs) t =
    insert_range-covers r (sort_ranges rs) t ∙ rw (sort_ranges-covers rs t)

sort_ranges-IsSortedFrom : (rs : List Range) → IsSortedFrom 0 (sort_ranges rs)
unfolding sort_ranges
sort_ranges-IsSortedFrom [] = tt
sort_ranges-IsSortedFrom (r ∷ rs) =
    insert_range-IsSortedFrom 0 r (sort_ranges rs) (omega arith) (sort_ranges-IsSortedFrom rs)

sort_ranges-All :
    (n : ℕ) (rs : List Range) → All (λ x. x.1 ≤ n) rs → All (λ x. x.1 ≤ n) (sort_ranges rs)
unfolding sort_ranges
sort_ranges-All n [] a = tt
sort_ranges-All n (r ∷ rs) a = insert_range-All n r (sort_ranges rs) a.0 (sort_ranges-All n rs a.1)

count-nothing : (n : ℕ) → count_below n (is_covered []) ≡ 0
unfolding count_below
count-nothing zero = refl
count-nothing (suc n) = rw (count-nothing n)

merge_all_lem :
    (n : ℕ) (rs : List Range)
    → IsSortedFrom 0 rs
    → All (λ r. r.1 ≤ n) rs
    → merge_all rs ≡ count_below n (is_covered rs)
unfolding merge_all
merge_all_lem n [] o a = sym (count-nothing n)
merge_all_lem n (r ∷ rs) o a = merge_loop_lem n 0 r.0 r.1 rs o.1 a.0 a.1 ∙ omega arith

-- The union of ranges, in any order, overlapping or not, lasts exactly as many milliseconds as there
-- are in one of the ranges, counted up to any bound that no range exceeds.
pub union_duration-counts :
    (n : ℕ) (rs : List Range)
    → All (λ r. r.1 ≤ n) rs
    → union_duration rs ≡ count_below n (is_covered rs)
unfolding union_duration
union_duration-counts n rs a =
    merge_all_lem n (sort_ranges rs) (sort_ranges-IsSortedFrom rs) (sort_ranges-All n rs a)
    ∙ count_below-ext n _ _ (sort_ranges-covers rs)
