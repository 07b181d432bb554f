-- ===== src/Prelude/Dict.antt =====
-- Go maps with string keys, as association lists. The order of the list stands for the order in
-- which a `range` loop happens to visit the map, which Go leaves open.
use maeve_csms_reservations.Prelude.{
  String, ◌≡◌, refl, Bool, false, inl, inr, ◌||◌, Option, none, some, List, [], ◌∷◌, map, arith,
  ◌==◌, eq_iff, if◌then◌else◌, Bool-cases, any, All,
}

abbrev pub Dict {ℓ} : Type ℓ → Type ℓ
Dict V = List (String × V)

module _ {ℓ} {V : Type ℓ} where
  abbrev pub keys : Dict V → List String
  keys = map (λ e. e.0)

  abbrev pub values : Dict V → List V
  values = map (λ e. e.1)

  -- `m[k]`, where `none` is the zero value of a missing key.
  unfoldable pub lookup : String → Dict V → Option V
  lookup key [] = none
  lookup key (entry ∷ rest) = if entry.0 == key then some entry.1 else lookup key rest

  -- `m[k] = v`
  unfoldable pub insert : String → V → Dict V → Dict V
  insert key new [] = (key, new) ∷ []
  insert key new (entry ∷ rest) =
      if entry.0 == key then (key, new) ∷ rest else entry ∷ insert key new rest

  -- `delete(m, k)`
  unfoldable pub remove : String → Dict V → Dict V
  remove key [] = []
  remove key (entry ∷ rest) =
      let others = remove key rest in if entry.0 == key then others else entry ∷ others

  pub lookup-insert :
      (key other : String) (new : V) (dict : Dict V)
      → lookup other (insert key new dict) ≡ (if key == other then some new else lookup other dict)
  unfolding lookup insert
  lookup-insert key other new [] = refl
  lookup-insert key other new ((first, old) ∷ rest) =
      let ih = lookup-insert key other new rest in
      ground (arith, ih, eq_iff first other, eq_iff first key, eq_iff key other)

  pub lookup-remove :
      (key other : String) (dict : Dict V)
      → lookup other (remove key dict) ≡ (if key == other then none else lookup other dict)
  unfolding lookup remove
  lookup-remove key other [] = ground arith
  lookup-remove key other ((first, old) ∷ rest) =
      let ih = lookup-remove key other rest in
      ground (arith, ih, eq_iff first other, eq_iff first key, eq_iff key other)

  -- No key stands twice.
  abbrev pub Distinct : Dict V → Type 0
  Distinct [] = Unit
  Distinct ((k, _) ∷ m) = (any (λ j. j == k) (keys m) ≡ false) × Distinct m

  any-keys-insert :
      (p : String → Bool) (k : String) (v : V) (m : Dict V)
      → any p (keys (insert k v m)) ≡ (p k || any p (keys m))
  unfolding insert
  any-keys-insert p k v [] = refl
  any-keys-insert p k v ((j, w) ∷ m) = elim (Bool-cases (j == k)) [
    | inl e ↦ rw ((eq_iff j k).0 e) (ground (arith, eq_iff k k))
    | inr e ↦ rw e (ground (arith, any-keys-insert p k v m))
  ]

  pub insert-Distinct : (k : String) (v : V) (m : Dict V) → Distinct m → Distinct (insert k v m)
  unfolding insert
  insert-Distinct k v [] h = (refl, tt)
  insert-Distinct k v ((j, w) ∷ m) h = elim (Bool-cases (j == k)) [
    | inl e ↦ rw e (rw (← (eq_iff j k).0 e) h)
    | inr e ↦ rw e (
      rw (any-keys-insert (λ i. i == j) k v m) (ground (arith, eq_iff k j, eq_iff j k)),
      insert-Distinct k v m h.1,
    )
  ]

-- What every entry has, the one that a lookup finds has.
pub lookup-All {ℓ κ} :
    {V : Type ℓ} (good : String × V → Type κ) (key : String) (dict : Dict V) {found : V}
    → All good dict
    → lookup key dict ≡ some found
    → good (key, found)
unfolding lookup
lookup-All good key [] h e = ground arith
lookup-All good key ((first, v) ∷ rest) {found} (here, others) e =
    elim (Bool-cases (first == key)) [
      | inl same ↦
          (let k = (eq_iff first key).0 same in
            let f : v ≡ found = ground arith in rw (← k, ← f) here)
      | inr differ ↦ lookup-All good key rest others (ground arith)
    ]

pub insert-All {ℓ κ} :
    {V : Type ℓ} (good : String × V → Type κ) (key : String) (new : V) (dict : Dict V)
    → All good dict
    → good (key, new)
    → All good (insert key new dict)
unfolding insert
insert-All good key new [] h g = (g, tt)
insert-All good key new (entry ∷ rest) (here, others) g = elim (Bool-cases (entry.0 == key)) [
  | inl same ↦ rw same (g, others)
  | inr differ ↦ rw differ (here, insert-All good key new rest others g)
]
