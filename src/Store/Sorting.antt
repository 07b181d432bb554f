-- ===== src/Store/Sorting.antt =====
-- The order of Go strings, `sort.Strings`, and `slices.BinarySearch` as the listings of
-- manager/store/inmemory/store.go use it.
use Prim.Native.Nat.{Ordering, compare as compare_ℕ}
use Prim.Native.Nat.compare as compare_ℕ
use Prim.Native.String.{compare, then as order_then}
use Prim.Native.String.compare
use maeve_csms_reservations.Prelude.{
  ℕ, zero, suc, String, ◌≡◌, refl, Bool, true, false, some, List, [], ◌∷◌, ◌==◌, get_elem?, any,
  if◌then◌else◌, Bool-cases, inl, inr,
}

abbrev pub str_le_answer : Ordering → Bool
str_le_answer Ordering.lt = true
str_le_answer Ordering.eq = true
str_le_answer Ordering.gt = false

-- `s <= t`, by code points, which is Go's order of the UTF-8 bytes.
abbrev pub str_le : String → String → Bool
str_le s t = str_le_answer (compare s t)

-- `sort.Strings`
unfoldable pub insert_sorted : String → List String → List String
insert_sorted x [] = x ∷ []
insert_sorted x (y ∷ l) = if str_le x y then x ∷ y ∷ l else y ∷ insert_sorted x l

unfoldable pub sort_strings : List String → List String
unfolding insert_sorted
sort_strings [] = []
sort_strings (x ∷ l) = insert_sorted x (sort_strings l)

abbrev pub BelowHead : String → List String → Type 0
BelowHead x [] = Unit
BelowHead x (y ∷ l) = str_le x y ≡ true

abbrev pub Sorted : List String → Type 0
Sorted [] = Unit
Sorted (x ∷ l) = BelowHead x l × Sorted l

abbrev flip : Ordering → Ordering
flip Ordering.lt = Ordering.gt
flip Ordering.eq = Ordering.eq
flip Ordering.gt = Ordering.lt

flip-compare_ℕ : (m n : ℕ) → flip (compare_ℕ m n) ≡ compare_ℕ n m
flip-compare_ℕ zero zero = refl
flip-compare_ℕ zero (suc n) = rw (compare_ℕ.zero-suc, compare_ℕ.suc-zero)
flip-compare_ℕ (suc m) zero = rw (compare_ℕ.zero-suc, compare_ℕ.suc-zero)
flip-compare_ℕ (suc m) (suc n) = rw (compare_ℕ.suc-suc, compare_ℕ.suc-suc) (flip-compare_ℕ m n)

flip-then : (a b : Ordering) → flip (order_then a b) ≡ order_then (flip a) (flip b)
flip-then Ordering.lt b = refl
flip-then Ordering.eq b = refl
flip-then Ordering.gt b = refl

flip-compare : (s t : String) → flip (compare s t) ≡ compare t s
flip-compare String.[] String.[] = rw compare.nil-nil
flip-compare String.[] (String.◌∷◌ d t) = rw (compare.nil-cons, compare.cons-nil)
flip-compare (String.◌∷◌ c s) String.[] = rw (compare.nil-cons, compare.cons-nil)
flip-compare (String.◌∷◌ c s) (String.◌∷◌ d t) =
    rw (compare.cons-cons, flip-then, flip-compare_ℕ, flip-compare s t, compare.cons-cons)

le_of_flip : (o p : Ordering) → flip o ≡ p → str_le_answer o ≡ false → str_le_answer p ≡ true
le_of_flip Ordering.gt p h e = rw (← h)
le_of_flip Ordering.lt p h e = cc
le_of_flip Ordering.eq p h e = cc

str_le_total : (s t : String) → str_le s t ≡ false → str_le t s ≡ true
str_le_total s t h = le_of_flip (compare s t) (compare t s) (flip-compare s t) h

below_insert :
    (y x : String) (l : List String)
    → str_le y x ≡ true
    → BelowHead y l
    → BelowHead y (insert_sorted x l)
unfolding insert_sorted
below_insert y x [] h k = h
below_insert y x (z ∷ l) h k = elim (Bool-cases (str_le x z)) [ inl e ↦ rw e h | inr e ↦ rw e k ]

insert_sorted-Sorted : (x : String) (l : List String) → Sorted l → Sorted (insert_sorted x l)
unfolding insert_sorted
insert_sorted-Sorted x [] h = (tt, tt)
insert_sorted-Sorted x (y ∷ l) h = elim (Bool-cases (str_le x y)) [
  | inl le ↦ rw le (le, h)
  | inr gt ↦ rw gt (below_insert y x l (str_le_total x y gt) h.0, insert_sorted-Sorted x l h.1)
]

-- `sort.Strings` sorts.
pub sort_strings-Sorted : (l : List String) → Sorted (sort_strings l)
unfolding sort_strings
sort_strings-Sorted [] = tt
sort_strings-Sorted (x ∷ l) = insert_sorted-Sorted x (sort_strings l) (sort_strings-Sorted l)

-- What the documentation of `slices.BinarySearch` says: in a sorted slice it tells whether the
-- target is there, and if so, a place where it is.
pub record BinarySearch : Type 0 where
  pub search : List String → String → ℕ × Bool
  pub found_iff : (l : List String) (x : String) → Sorted l → (search l x).1 ≡ any (λ y. y == x) l
  pub found_at :
      (l : List String) (x : String)
      → Sorted l
      → (search l x).1 ≡ true
      → get_elem? l (search l x).0 ≡ some x
