-- ===== src/Gateway/Ring.antt =====
-- The `container/ring` of Go's library, as gateway/pipe/pipe.go uses it: the cell that the pointer
-- is at, and the others in the order of `Next`. A pointer that is nil has no cells: who reads one
-- panics.
use maeve_csms_reservations.Prelude.{
  ℕ, zero, suc, Bool, true, false, Option, none, some, List, [], ◌∷◌, ◌++◌, replicate, length,
  length-append, ◌≡◌, refl, ap, arith,
}

pub record Ring {ℓ} (A : Type ℓ) : Type ℓ where
  pub is_nil : Bool
  pub value : Option A
  pub others : List (Option A)

module _ {ℓ} {A : Type ℓ} where
  -- `ring.New(n)`; without cells it is the nil pointer.
  unfoldable pub new : ℕ → Ring A
  new zero = record { is_nil = true; value = none; others = [] }
  new (suc n) = record { is_nil = false; value = none; others = replicate n none }

  -- The other cells after a move to the next one, which is not among them.
  unfoldable pub rotate : List (Option A) → Option A → List (Option A)
  rotate [] last = []
  rotate (x ∷ xs) last = xs ++ (last ∷ [])

  -- `r = r.Next(); r.Value = v`
  unfoldable pub put_next : A → Ring A → Ring A
  unfolding rotate
  put_next v r = record r { value = some v; others = rotate r.others r.value }

  abbrev pub size : Ring A → ℕ
  size r = suc (length r.others)

  -- The values that the ring remembers, from the current cell on.
  abbrev pub present : List (Option A) → List A
  present [] = []
  present (none ∷ xs) = present xs
  present (some x ∷ xs) = x ∷ present xs

  abbrev pub remembered : Ring A → List A
  remembered r = present (r.value ∷ r.others)

  length-rotate : (xs : List (Option A)) (last : Option A) → length (rotate xs last) ≡ length xs
  unfolding rotate
  length-rotate [] last = refl
  length-rotate (x ∷ xs) last = omega (arith, length-append xs (last ∷ []))

  pub size-put_next : (v : A) (r : Ring A) → size (put_next v r) ≡ size r
  unfolding put_next
  size-put_next v r = ap suc (length-rotate r.others r.value)
