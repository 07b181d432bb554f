-- ===== src/Emaid/CheckDigit.antt =====
-- `calculateEmaidCheckDigit` of manager/ocpp/emaid.go and its tables.
use maeve_csms_reservations.Prelude.{
  ℕ, zero, suc, ◌+◌, ◌-◌, ◌*◌, ◌%◌, Option, none, some, List, [], ◌∷◌, get_elem?,
}

-- A row of four small numbers.
pub record Row : Type 0 where
  pub m0 : ℕ
  pub m1 : ℕ
  pub m2 : ℕ
  pub m3 : ℕ

abbrev pub row : ℕ → ℕ → ℕ → ℕ → Row
row a b c d = record { m0 = a; m1 = b; m2 = c; m3 = d }

-- `reverseLookup`
abbrev pub reverse_lookup : List ℕ
reverse_lookup =
    b'0' ∷ b'I' ∷ b'9' ∷ b'R' ∷ b'3' ∷ b'L' ∷ b'C' ∷ b'U' ∷ b'6' ∷ b'O' ∷ b'F' ∷ b'X' ∷ b'-' ∷ b'-'
    ∷ b'-' ∷ b'-' ∷ b'1' ∷ b'J' ∷ b'A' ∷ b'S' ∷ b'4' ∷ b'M' ∷ b'D' ∷ b'V' ∷ b'7' ∷ b'P' ∷ b'G'
    ∷ b'Y' ∷ b'-' ∷ b'-' ∷ b'-' ∷ b'-' ∷ b'2' ∷ b'K' ∷ b'B' ∷ b'T' ∷ b'5' ∷ b'N' ∷ b'E' ∷ b'W'
    ∷ b'8' ∷ b'Q' ∷ b'H' ∷ b'Z' ∷ []

-- `lookupTable`, by the distance from the character 0; `none` is an empty row.
abbrev pub lookup_table : List (Option Row)
lookup_table =
    some (row 0 0 0 0)
    ∷ some (row 0 0 0 1)
    ∷ some (row 0 0 0 2)
    ∷ some (row 0 0 1 0)
    ∷ some (row 0 0 1 1)
    ∷ some (row 0 0 1 2)
    ∷ some (row 0 0 2 0)
    ∷ some (row 0 0 2 1)
    ∷ some (row 0 0 2 2)
    ∷ some (row 0 1 0 0)
    ∷ none
    ∷ none
    ∷ none
    ∷ none
    ∷ none
    ∷ none
    ∷ none
    ∷ some (row 0 1 0 1)
    ∷ some (row 0 1 0 2)
    ∷ some (row 0 1 1 0)
    ∷ some (row 0 1 1 1)
    ∷ some (row 0 1 1 2)
    ∷ some (row 0 1 2 0)
    ∷ some (row 0 1 2 1)
    ∷ some (row 0 1 2 2)
    ∷ some (row 1 0 0 0)
    ∷ some (row 1 0 0 1)
    ∷ some (row 1 0 0 2)
    ∷ some (row 1 0 1 0)
    ∷ some (row 1 0 1 1)
    ∷ some (row 1 0 1 2)
    ∷ some (row 1 0 2 0)
    ∷ some (row 1 0 2 1)
    ∷ some (row 1 0 2 2)
    ∷ some (row 1 1 0 0)
    ∷ some (row 1 1 0 1)
    ∷ some (row 1 1 0 2)
    ∷ some (row 1 1 1 0)
    ∷ some (row 1 1 1 1)
    ∷ some (row 1 1 1 2)
    ∷ some (row 1 1 2 0)
    ∷ some (row 1 1 2 1)
    ∷ some (row 1 1 2 2)
    ∷ []

-- `p1`
abbrev pub p1 : List Row
p1 =
    row 0 1 1 1
    ∷ row 1 1 1 0
    ∷ row 1 0 0 1
    ∷ row 0 1 1 1
    ∷ row 1 1 1 0
    ∷ row 1 0 0 1
    ∷ row 0 1 1 1
    ∷ row 1 1 1 0
    ∷ row 1 0 0 1
    ∷ row 0 1 1 1
    ∷ row 1 1 1 0
    ∷ row 1 0 0 1
    ∷ row 0 1 1 1
    ∷ row 1 1 1 0
    ∷ row 1 0 0 1
    ∷ []

-- `p2`
abbrev pub p2 : List Row
p2 =
    row 0 1 1 2
    ∷ row 1 2 2 2
    ∷ row 2 2 2 0
    ∷ row 2 0 0 2
    ∷ row 0 2 2 1
    ∷ row 2 1 1 1
    ∷ row 1 1 1 0
    ∷ row 1 0 0 1
    ∷ row 0 1 1 2
    ∷ row 1 2 2 2
    ∷ row 2 2 2 0
    ∷ row 2 0 0 2
    ∷ row 0 2 2 1
    ∷ row 2 1 1 1
    ∷ row 1 1 1 0
    ∷ []

-- `lookupTable[c-'0']`; a byte below the character 0 wraps to an index past the table's end, and
-- an empty row has no `matrix[0]`. Both panic.
unfoldable pub matrix_of : ℕ → Option Row
matrix_of c = elim (get_elem? lookup_table ((c + 256 - b'0') % 256)) [ none ↦ none | some r ↦ r ]

-- The four sums c1, c2, c3, c4.
pub record Sums : Type 0 where
  pub c1 : ℕ
  pub c2 : ℕ
  pub c3 : ℕ
  pub c4 : ℕ

-- The body of the loop.
unfoldable pub add_row : Sums → Row → Row → Row → Sums
add_row s m a b = record {
  c1 = s.c1 + (m.m0 * a.m0 + m.m1 * a.m2);
  c2 = s.c2 + (m.m0 * a.m1 + m.m1 * a.m3);
  c3 = s.c3 + (m.m2 * b.m0 + m.m3 * b.m2);
  c4 = s.c4 + (m.m2 * b.m1 + m.m3 * b.m3);
}

-- `for i := 0; i < 14; i++`: the rounds left, and `emaid[i:]`, `p1[i:]`, `p2[i:]`. `none` is a
-- panic, on a byte with no row or on an identifier that is too short.
unfoldable pub sum_loop : ℕ → List ℕ → List Row → List Row → Sums → Option Sums
unfolding matrix_of add_row
sum_loop zero emaid ws vs s = some s
sum_loop (suc n) (c ∷ emaid) (a ∷ ws) (b ∷ vs) s = elim (matrix_of c) [
  | none ↦ none
  | some m ↦ sum_loop n emaid ws vs (add_row s m a b)
]
sum_loop (suc n) _ _ _ s = none

-- `switch c4`
abbrev pub r1_of : ℕ → ℕ
r1_of zero = 0
r1_of (suc zero) = 2
r1_of (suc (suc zero)) = 1
r1_of (suc (suc (suc _))) = 0

-- `switch c3 + r1`
abbrev pub r2_of : ℕ → ℕ
r2_of zero = 0
r2_of (suc zero) = 2
r2_of (suc (suc zero)) = 1
r2_of (suc (suc (suc zero))) = 0
r2_of (suc (suc (suc (suc zero)))) = 2
r2_of (suc (suc (suc (suc (suc _))))) = 0

-- The index into `reverseLookup`, from the four remainders.
unfoldable pub digit_index : ℕ → ℕ → ℕ → ℕ → ℕ
digit_index c1 c2 c3 c4 = let r1 = r1_of c4 in c1 + c2 * 2 + r1 * 4 + r2_of (c3 + r1) * 16

unfoldable pub digit_of : Sums → Option ℕ
unfolding digit_index
digit_of s = get_elem? reverse_lookup (digit_index (s.c1 % 2) (s.c2 % 2) (s.c3 % 3) (s.c4 % 3))

abbrev pub no_sums : Sums
no_sums = record { c1 = 0; c2 = 0; c3 = 0; c4 = 0 }

abbrev pub digit_of_sums : Option Sums → Option ℕ
digit_of_sums none = none
digit_of_sums (some s) = digit_of s

unfoldable pub calculate_emaid_check_digit : List ℕ → Option ℕ
unfolding sum_loop digit_of
calculate_emaid_check_digit emaid = digit_of_sums (sum_loop 14 emaid p1 p2 no_sums)
