-- ===== src/Store/InMemory/Listing/Paging.antt =====
-- What the pages of the listings of manager/store/inmemory/store.go hold.
use Prim.Native.Nat.{min}
use mathlib.Core.List.{append_assoc}
use maeve_csms_reservations.Prelude.{
  ℕ, zero, suc, ◌+◌, ◌-◌, ◌≤◌, ◌<◌, ◌≡◌, refl, sym, ◌∙◌, ap, subst, String, true, false, some, List,
  [], ◌∷◌, ◌++◌, arith, ◌==◌, eq_iff, eq_refl, length, length-append, take, drop, get_elem?, any,
}
use maeve_csms_reservations.Store.Sorting.{BinarySearch, Sorted}
use maeve_csms_reservations.Store.InMemory.Listing.{page_keys}

min-zero : (b : ℕ) → min 0 b ≡ 0
min-zero b = omega arith

min-suc : (a b : ℕ) → min (suc a) (suc b) ≡ suc (min a b)
min-suc a b = omega arith

module _ {ℓ} {A : Type ℓ} where
  take-nil : (n : ℕ) → take {A = A} n [] ≡ []
  take-nil zero = refl
  take-nil (suc n) = refl

  take-min : (n : ℕ) (l : List A) → take (min n (length l)) l ≡ take n l
  take-min zero l = ap (λ k. take k l) (min-zero (length l))
  take-min (suc n) [] = take-nil (min (suc n) 0)
  take-min (suc n) (x ∷ l) =
      ap (λ k. take k (x ∷ l)) (min-suc n (length l)) ∙ ap (◌∷◌ x) (take-min n l)

  length-drop : (i : ℕ) (l : List A) → length (drop i l) ≡ length l - i
  length-drop zero l = omega arith
  length-drop (suc i) [] = omega arith
  length-drop (suc i) (x ∷ l) = omega (arith, length-drop i l)

  drop-append : (l k : List A) → drop (length l) (l ++ k) ≡ k
  drop-append [] k = refl
  drop-append (x ∷ l) k = drop-append l k

-- The slice `keys[i:max]` is the page of `n` keys from place `i` on, or what there is of it.
slice_lem :
    (i n : ℕ) (ks : List String)
    → i ≤ length ks
    → take (min (i + n) (length ks) - i) (drop i ks) ≡ take n (drop i ks)
slice_lem i n ks h =
    ap (λ k. take k (drop i ks)) (omega (arith, length-drop {0} i ks)) ∙ take-min n (drop i ks)

-- No key stands twice.
abbrev pub UniqueKeys : List String → Type 0
UniqueKeys [] = Unit
UniqueKeys (k ∷ ks) = (any (λ j. j == k) ks ≡ false) × UniqueKeys ks

some-some : {x y : String} → some x ≡ some y → x ≡ y
some-some h = cc

any_of_get :
    (k : String) (l : List String) (i : ℕ) → get_elem? l i ≡ some k → any (λ j. j == k) l ≡ true
any_of_get k [] i h = cc
any_of_get k (x ∷ l) zero h = ground (arith, (eq_iff x k).1 (some-some h))
any_of_get k (x ∷ l) (suc i) h = ground (arith, any_of_get k l i h)

any_in_middle :
    (x : String) (pre post : List String) (k : String)
    → (k == x) ≡ true
    → any (λ j. j == x) (pre ++ (k ∷ post)) ≡ true
any_in_middle x [] post k h = ground arith
any_in_middle x (y ∷ pre) post k h = ground (arith, any_in_middle x pre post k h)

-- The only place of a key.
place_lem :
    (pre post : List String) (k : String) (i : ℕ)
    → UniqueKeys (pre ++ (k ∷ post))
    → get_elem? (pre ++ (k ∷ post)) i ≡ some k
    → i ≡ length pre
place_lem [] post k zero u h = refl
place_lem [] post k (suc i) u h = cc (any_of_get k post i h, u.0)
place_lem (x ∷ pre) post k zero u h =
    cc (any_in_middle x pre post k ((eq_iff k x).1 (sym (some-some h))), u.0)
place_lem (x ∷ pre) post k (suc i) u h = ap suc (place_lem pre post k i u.1 h)

drop-append_suc {ℓ} :
    {A : Type ℓ} (l : List A) (x : A) (k : List A) → drop (suc (length l)) (l ++ (x ∷ k)) ≡ k
drop-append_suc [] x k = refl
drop-append_suc (y ∷ l) x k = drop-append_suc l x k

-- The last element, or `d`.
abbrev pub last_or : String → List String → String
last_or d [] = d
last_or d (x ∷ l) = last_or x l

-- A list splits behind its last element.
split_last :
    (x : String) (l : List String) → (init : List String) × (x ∷ l ≡ init ++ (last_or x l ∷ []))
split_last x [] = ([], refl)
split_last x (y ∷ l) = let (init, e) = split_last y l in (x ∷ init, ap (◌∷◌ x) e)

take-append-drop : (n : ℕ) (l : List String) → l ≡ take n l ++ drop n l
take-append-drop zero l = refl
take-append-drop (suc n) [] = refl
take-append-drop (suc n) (x ∷ l) = ap (◌∷◌ x) (take-append-drop n l)

take-cons : (n : ℕ) (x : String) (l : List String) → 0 < n → take n (x ∷ l) ≡ x ∷ take (n - 1) l
take-cons zero x l h = absurd (omega arith)
take-cons (suc n) x l h = ap (λ k. x ∷ take k l) (omega arith)

-- The place where a page ends, in the whole list.
regroup :
    (pre init tail beyond post : List String) (previous x last : String)
    → x ∷ tail ≡ init ++ (last ∷ [])
    → post ≡ tail ++ beyond
    → pre ++ (previous ∷ x ∷ post) ≡ (pre ++ (previous ∷ init)) ++ (last ∷ beyond)
regroup pre init tail beyond post previous x last e f =
    ap (λ l. pre ++ (previous ∷ l))
      (ap (◌∷◌ x) f ∙ ap (λ l. l ++ beyond) e ∙ append_assoc init (last ∷ []) beyond)
    ∙ sym (append_assoc pre (previous ∷ init) (last ∷ beyond))

regroup_first :
    (init tail beyond post : List String) (x last : String)
    → x ∷ tail ≡ init ++ (last ∷ [])
    → post ≡ tail ++ beyond
    → x ∷ post ≡ init ++ (last ∷ beyond)
regroup_first init tail beyond post x last e f =
    ap (◌∷◌ x) f ∙ ap (λ l. l ++ beyond) e ∙ append_assoc init (last ∷ []) beyond

-- A page, and the pages behind its last key; an empty page is the last one.
abbrev pub join_pages : List String → (String → List String) → List String
join_pages [] rest = []
join_pages (k ∷ page) rest = (k ∷ page) ++ rest (last_or k page)

module _ (binary_search : BinarySearch) (n : ℕ) where
  -- If the previous key is no longer there, or was none, the page is the first one.
  pub page_keys_restart :
      (previous : String) (ks : List String)
      → Sorted ks
      → any (λ k. k == previous) ks ≡ false
      → page_keys binary_search n previous ks ≡ take n ks
  unfolding page_keys
  page_keys_restart previous ks sorted missing =
      let e = binary_search.found_iff ks previous sorted ∙ missing in
      rw e (slice_lem 0 n ks (omega arith))

  -- Otherwise it holds the keys right behind the previous one.
  pub page_keys_next :
      (pre post : List String) (previous : String)
      → Sorted (pre ++ (previous ∷ post))
      → UniqueKeys (pre ++ (previous ∷ post))
      → page_keys binary_search n previous (pre ++ (previous ∷ post)) ≡ take n post
  unfolding page_keys
  page_keys_next pre post previous sorted unique =
      let ks = pre ++ (previous ∷ post) in
      let found =
        binary_search.found_iff ks previous sorted
        ∙ any_in_middle previous pre post previous (eq_refl previous) in
      let place =
        place_lem pre post previous _ unique (binary_search.found_at ks previous sorted found) in
      rw (found, place)
        (slice_lem (suc (length pre)) n ks (omega (arith, length-append {0} pre (previous ∷ post)))
          ∙ ap (take n) (drop-append_suc pre previous post))

  -- Pages that follow one another, each behind the last key of the one before, until one is empty.
  unfoldable pub sweep : ℕ → String → List String → List String
  unfolding page_keys
  sweep zero previous ks = []
  sweep (suc fuel) previous ks =
      join_pages (page_keys binary_search n previous ks) (λ last. sweep fuel last ks)

  sweep_behind :
      (fuel : ℕ) (pre post : List String) (previous : String)
      → 0 < n
      → length post < fuel
      → Sorted (pre ++ (previous ∷ post))
      → UniqueKeys (pre ++ (previous ∷ post))
      → sweep fuel previous (pre ++ (previous ∷ post)) ≡ post
  unfolding sweep
  sweep_behind zero pre post previous pos enough sorted unique = absurd (omega arith)
  sweep_behind (suc fuel) pre [] previous pos enough sorted unique =
      rw (page_keys_next pre [] previous sorted unique, sweep, take-nil n)
  sweep_behind (suc fuel) pre (x ∷ post) previous pos enough sorted unique =
      let tail = take (n - 1) post in
      let beyond = drop (n - 1) post in
      let (init, e) = split_last x tail in
      let page = page_keys_next pre (x ∷ post) previous sorted unique ∙ take-cons n x post pos in
      let whole =
        regroup pre init tail beyond post previous x (last_or x tail) e
          (take-append-drop (n - 1) post) in
      let shorter : length beyond < fuel = omega (arith, length-drop {0} (n - 1) post) in
      let ih =
        subst (λ ks. sweep fuel (last_or x tail) ks ≡ beyond) (sym whole)
          (sweep_behind fuel (pre ++ (previous ∷ init)) beyond (last_or x tail) pos shorter
            (subst Sorted whole sorted) (subst UniqueKeys whole unique)) in
      rw (page, sweep, ih) (sym (ap (◌∷◌ x) (take-append-drop (n - 1) post)))

  -- For a sorted list of keys with none twice, pages of at least one key and a previous key that is
  -- not among them, a sweep comes to every key, in order and once; fuel for one page more than
  -- there are keys is enough.
  pub sweep_all :
      (fuel : ℕ) (previous : String) (ks : List String)
      → 0 < n
      → length ks < fuel
      → Sorted ks
      → UniqueKeys ks
      → any (λ k. k == previous) ks ≡ false
      → sweep fuel previous ks ≡ ks
  unfolding sweep
  sweep_all zero previous ks pos enough sorted unique missing = absurd (omega arith)
  sweep_all (suc fuel) previous [] pos enough sorted unique missing =
      rw (page_keys_restart previous [] sorted missing, sweep, take-nil n) refl
  sweep_all (suc fuel) previous (x ∷ post) pos enough sorted unique missing =
      let tail = take (n - 1) post in
      let beyond = drop (n - 1) post in
      let (init, e) = split_last x tail in
      let page = page_keys_restart previous (x ∷ post) sorted missing ∙ take-cons n x post pos in
      let whole =
        regroup_first init tail beyond post x (last_or x tail) e (take-append-drop (n - 1) post) in
      let shorter : length beyond < fuel = omega (arith, length-drop {0} (n - 1) post) in
      let ih =
        subst (λ ks. sweep fuel (last_or x tail) ks ≡ beyond) (sym whole)
          (sweep_behind fuel init beyond (last_or x tail) pos shorter (subst Sorted whole sorted)
            (subst UniqueKeys whole unique)) in
      rw (page, sweep, ih) (sym (ap (◌∷◌ x) (take-append-drop (n - 1) post)))
