-- ===== src/Remote/Broker/Holds.antt =====
-- The dictionary of held buttons, by its lookups.
use skeleton_media.Base.{
  ℕ, ◌≡◌, ◌↔◌, refl, subst, true, false, ◌||◌, Option, none, some, List, [], ◌∷◌, if◌then◌else◌,
  eq_iff, arith, string_eq,
}
use skeleton_media.Remote.Broker.{Key, key_eq, Hold, is_held, hold, unhold}

key_eq_refl : (a : Key) → key_eq a a ≡ true
unfolding key_eq
key_eq_refl a = ground (arith, eq_iff a.button a.button, eq_iff a.pointer_id a.pointer_id)

eq_of_key_eq : (a b : Key) → key_eq a b ≡ true → a ≡ b
unfolding key_eq
eq_of_key_eq a b h = ground (arith, eq_iff a.button b.button, eq_iff a.pointer_id b.pointer_id)

pub key_eq_iff : (a b : Key) → (key_eq a b ≡ true) ↔ (a ≡ b)
key_eq_iff a b = (eq_of_key_eq a b, λ e. subst (λ c. key_eq a c ≡ true) e (key_eq_refl a))

pub is_held-hold :
    (k : Key) (t : ℕ) (hs : List Hold) (j : Key)
    → is_held (hold k t hs) j ≡ (key_eq k j || is_held hs j)
unfolding is_held hold
is_held-hold k t [] j = refl
is_held-hold k t (h ∷ hs) j =
    ground (arith, key_eq_iff h.key k, key_eq_iff h.key j, key_eq_iff k j, is_held-hold k t hs j)

pub is_held-unhold :
    (k : Key) (hs : List Hold) (j : Key)
    → is_held (unhold k hs) j ≡ (if key_eq k j then false else is_held hs j)
unfolding is_held unhold
is_held-unhold k [] j = ground arith
is_held-unhold k (h ∷ hs) j =
    ground (arith, key_eq_iff h.key k, key_eq_iff h.key j, key_eq_iff k j, is_held-unhold k hs j)

-- `active_holds.get(key)`
unfoldable pub started_at : List Hold → Key → Option ℕ
started_at [] k = none
started_at (h ∷ hs) k = if key_eq h.key k then some h.started else started_at hs k

-- No key is held twice.
abbrev pub Distinct : List Hold → Type 0
Distinct [] = Unit
Distinct (h ∷ hs) = (is_held hs h.key ≡ false) × Distinct hs

pub Distinct-hold : (k : Key) (t : ℕ) (hs : List Hold) → Distinct hs → Distinct (hold k t hs)
unfolding is_held hold
Distinct-hold k t [] d = (refl, tt)
Distinct-hold k t (h ∷ hs) d = ground (
  arith,
  key_eq_iff h.key k,
  key_eq_iff k h.key,
  is_held-hold k t hs h.key,
  Distinct-hold k t hs d.1,
)

pub Distinct-unhold : (k : Key) (hs : List Hold) → Distinct hs → Distinct (unhold k hs)
unfolding is_held unhold
Distinct-unhold k [] d = tt
Distinct-unhold k (h ∷ hs) d = ground (arith, is_held-unhold k hs h.key, Distinct-unhold k hs d.1)

pub is_held-started_at :
    (hs : List Hold) (k : Key)
    → is_held hs k ≡ elim (started_at hs k) [ none ↦ false | some _ ↦ true ]
unfolding is_held started_at
is_held-started_at [] k = refl
is_held-started_at (h ∷ hs) k = ground (arith, is_held-started_at hs k)
