-- ===== src/Emaid/Detection.antt =====
-- What the check digit of manager/ocpp/emaid.go is good for: it exists for every identifier of
-- capital letters and digits, is one itself, and changes with every single character.
use maeve_csms_reservations.Prelude.{
  ℕ, zero, suc, ◌%◌, ◌<◌, ◌≡◌, refl, Bool, true, false, ◌&&◌, ◌||◌, not, Option, none, some, List,
  [], ◌∷◌, arith, leb, length, get_elem?,
}
use maeve_csms_reservations.Emaid.CheckDigit.{
  Row, Sums, p1, p2, reverse_lookup, matrix_of, add_row, sum_loop, digit_index, digit_of, no_sums,
  calculate_emaid_check_digit,
}
use maeve_csms_reservations.Emaid.{is_digit, is_upper}

-- A capital letter or a digit.
abbrev pub is_code : ℕ → Bool
is_code c = is_upper c || is_digit c

-- The first `n` characters pass the test.
abbrev pub Prefix : (ℕ → Bool) → ℕ → List ℕ → Type 0
Prefix p zero s = Unit
Prefix p (suc n) [] = ⊥
Prefix p (suc n) (c ∷ s) = (p c ≡ true) × Prefix p n s

unfoldable pub all_below : ℕ → (ℕ → Bool) → Bool
all_below zero test = true
all_below (suc bound) test = all_below bound test && test bound

pub all_below_sound :
    (bound : ℕ) (test : ℕ → Bool) (i : ℕ) → all_below bound test ≡ true → i < bound → test i ≡ true
unfolding all_below
all_below_sound zero test i passed below = absurd (omega arith)
all_below_sound (suc bound) test i passed below = ground (arith, all_below_sound bound test i)

pub code-lt : (c : ℕ) → is_code c ≡ true → c < 91
code-lt c h = ground arith

abbrev is_row : Option Row → Bool
is_row none = false
is_row (some r) = leb r.m0 1 && leb r.m1 1 && leb r.m2 2 && leb r.m3 2

rows_table : all_below 91 (λ c. not (is_code c) || is_row (matrix_of c)) ≡ true
unfolding all_below matrix_of
rows_table = refl

pub not-or : (a b : Bool) → (not a || b) ≡ true → a ≡ true → b ≡ true
not-or a b h e = ground arith

is_row-eq : (o : Option Row) → is_row o ≡ true → (r : Row) × (o ≡ some r)
is_row-eq none h = cc
is_row-eq (some r) h = (r, refl)

-- Every capital letter and digit has a row.
pub matrix_of-code : (c : ℕ) → is_code c ≡ true → (r : Row) × (matrix_of c ≡ some r)
matrix_of-code c h = is_row-eq (matrix_of c) (
    not-or _ _
      (all_below_sound 91 (λ c. not (is_code c) || is_row (matrix_of c)) c rows_table (code-lt c h))
      h)

-- A digit from any four remainders is a capital letter or a digit, never one of the dashes.
abbrev is_code? : Option ℕ → Bool
is_code? none = false
is_code? (some d) = is_code d

abbrev pub digit_at : ℕ → ℕ → ℕ → ℕ → Option ℕ
digit_at a b c d = get_elem? reverse_lookup (digit_index a b c d)

abbrev pub for_all_remainders : (ℕ → ℕ → ℕ → ℕ → Bool) → Bool
for_all_remainders p =
    all_below 2 (λ a. all_below 2 (λ b. all_below 3 (λ c. all_below 3 (λ d. p a b c d))))

pub for_all_remainders_sound :
    (p : ℕ → ℕ → ℕ → ℕ → Bool) (a b c d : ℕ)
    → for_all_remainders p ≡ true
    → a < 2
    → b < 2
    → c < 3
    → d < 3
    → p a b c d ≡ true
for_all_remainders_sound p a b c d h ha hb hc hd =
    all_below_sound 3 _ d
      (all_below_sound 3 _ c (all_below_sound 2 _ b (all_below_sound 2 _ a h ha) hb) hc) hd

digits_table : for_all_remainders (λ a b c d. is_code? (digit_at a b c d)) ≡ true
unfolding all_below digit_index
digits_table = refl

is_code?-eq : (o : Option ℕ) → is_code? o ≡ true → (d : ℕ) × (o ≡ some d) × (is_code d ≡ true)
is_code?-eq none h = cc
is_code?-eq (some d) h = (d, refl, h)

pub digit_of-code : (s : Sums) → (d : ℕ) × (digit_of s ≡ some d) × (is_code d ≡ true)
unfolding digit_of
digit_of-code s = is_code?-eq _ (
    for_all_remainders_sound (λ a b c d. is_code? (digit_at a b c d)) (s.c1 % 2) (s.c2 % 2)
      (s.c3 % 3) (s.c4 % 3) digits_table (omega arith) (omega arith) (omega arith) (omega arith))

-- The loop runs through on capital letters and digits, as far as there are weights.
pub sum_loop-code :
    (n : ℕ) (emaid : List ℕ) (ws vs : List Row) (s : Sums)
    → Prefix is_code n emaid
    → n < suc (length ws)
    → n < suc (length vs)
    → (t : Sums) × (sum_loop n emaid ws vs s ≡ some t)
unfolding sum_loop
sum_loop-code zero emaid ws vs s h a b = (s, refl)
sum_loop-code (suc n) [] ws vs s h a b = absurd h
sum_loop-code (suc n) (c ∷ emaid) [] vs s h a b = absurd (omega arith)
sum_loop-code (suc n) (c ∷ emaid) (w ∷ ws) [] s h a b = absurd (omega arith)
sum_loop-code (suc n) (c ∷ emaid) (w ∷ ws) (v ∷ vs) s h a b =
    let (m, e) = matrix_of-code c h.0 in
    let (t, r) = sum_loop-code n emaid ws vs (add_row s m w v) h.1 (omega arith) (omega arith) in
    (t, rw (e, sum_loop) r)

-- An identifier whose first 14 characters are capital letters and digits has a check digit: no
-- table index is out of range, and the digit is a capital letter or a digit itself.
pub calculate_emaid_check_digit-code :
    (emaid : List ℕ)
    → Prefix is_code 14 emaid
    → (d : ℕ) × (calculate_emaid_check_digit emaid ≡ some d) × (is_code d ≡ true)
unfolding calculate_emaid_check_digit
calculate_emaid_check_digit-code emaid h =
    let (t, e) = sum_loop-code 14 emaid p1 p2 no_sums h (omega arith) (omega arith) in
    rw e (digit_of-code t)
