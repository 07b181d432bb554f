-- ===== src/Emaid.antt =====
-- manager/ocpp/emaid.go: contract identifiers (eMAIDs) and their check digit. A Go string is the
-- list of its bytes; `none` is the error of `NormalizeEmaid`.
pub mod CheckDigit
pub mod Detection
pub mod FixedPoint
pub mod NormalForm
pub mod Substitution
pub mod Examples
use maeve_csms_reservations.Prelude.{
  ℕ, zero, suc, ◌+◌, ◌-◌, Bool, ◌&&◌, ◌||◌, Option, none, some, List, [], ◌∷◌, ◌++◌, map, leb, ltb,
  nat_eq, if◌then◌else◌, length, get_elem?,
}
use maeve_csms_reservations.Emaid.CheckDigit.{calculate_emaid_check_digit}

abbrev pub is_digit : ℕ → Bool
is_digit c = leb b'0' c && leb c b'9'

abbrev pub is_upper : ℕ → Bool
is_upper c = leb b'A' c && leb c b'Z'

abbrev pub is_lower : ℕ → Bool
is_lower c = leb b'a' c && leb c b'z'

-- `[A-Za-z]`
abbrev pub is_alpha : ℕ → Bool
is_alpha c = is_upper c || is_lower c

-- `[A-Za-z0-9]`
abbrev pub is_alnum : ℕ → Bool
is_alnum c = is_alpha c || is_digit c

-- `strings.ToUpper`, on one ASCII character
unfoldable pub to_upper : ℕ → ℕ
to_upper c = if is_lower c then c - 32 else c

-- `([class]{n})`: the group and the rest of the input
abbrev cons_group : ℕ → Option (List ℕ × List ℕ) → Option (List ℕ × List ℕ)
cons_group c none = none
cons_group c (some (group, rest)) = some (c ∷ group, rest)

unfoldable pub repeat_class : (ℕ → Bool) → ℕ → List ℕ → Option (List ℕ × List ℕ)
repeat_class class zero s = some ([], s)
repeat_class class (suc n) [] = none
repeat_class class (suc n) (c ∷ s) = if class c then cons_group c (repeat_class class n s) else none

-- `(-?)`
unfoldable pub optional_dash : List ℕ → List ℕ
optional_dash [] = []
optional_dash (c ∷ s) = if nat_eq c b'-' then s else c ∷ s

-- `([A-Za-z0-9])?`
unfoldable pub optional_alnum : List ℕ → List ℕ
optional_alnum [] = []
optional_alnum (c ∷ s) = if is_alnum c then c ∷ [] else []

infixl 5 ◌>>=◌
abbrev pub ◌>>=◌ {ℓ κ} : {A : Type ℓ} {B : Type κ} → Option A → (A → Option B) → Option B
none >>= f = none
some a >>= f = f a

-- `emaidPattern` at one position of the input: groups 1, 3, 5 and 7. No class holds `-`, so the
-- greedy choices of the optional groups are never taken back.
unfoldable pub match_here : List ℕ → Option (List ℕ)
unfolding repeat_class optional_dash optional_alnum
match_here s = do
  (country, s1) ← repeat_class is_alpha 2 s
  (provider, s2) ← repeat_class is_alnum 3 (optional_dash s1)
  (instance_id, s3) ← repeat_class is_alnum 9 (optional_dash s2)
  some (country ++ (provider ++ (instance_id ++ optional_alnum (optional_dash s3))))

-- `FindStringSubmatch`: the leftmost match; the pattern has no anchors.
unfoldable pub find_submatch : List ℕ → Option (List ℕ)
unfolding match_here
find_submatch [] = match_here []
find_submatch (c ∷ s) =
    let rest = find_submatch s in elim (match_here (c ∷ s)) [ some m ↦ some m | none ↦ rest ]

abbrev upper_case : Option (List ℕ) → Option (List ℕ)
upper_case none = none
upper_case (some str) = some (map to_upper str)

unfoldable pub normalize_shape : List ℕ → Option (List ℕ)
unfolding find_submatch
normalize_shape emaid = upper_case (find_submatch emaid)

-- What `NormalizeEmaid` comes to: a panic (an index out of range), an error or a string.
pub data Outcome : Type 0 where
  panic : Outcome
  invalid : Outcome
  bad_check_digit : (found expected : ℕ) → Outcome
  ok : List ℕ → Outcome

-- The digit's comparison with the 15th character, or its addition to a string that has none.
abbrev pub compare_digit : List ℕ → ℕ → Option ℕ → Outcome
compare_digit norm digit none = ok (norm ++ (digit ∷ []))
compare_digit norm digit (some found) =
    if nat_eq digit found then ok norm else bad_check_digit found digit

abbrev pub finish : List ℕ → Option ℕ → Outcome
finish norm none = panic
finish norm (some digit) = compare_digit norm digit (get_elem? norm 14)

abbrev pub checked : Option (List ℕ) → Outcome
checked none = invalid
checked (some norm) = finish norm (calculate_emaid_check_digit norm)

unfoldable pub normalize_emaid : List ℕ → Outcome
unfolding normalize_shape calculate_emaid_check_digit
normalize_emaid emaid = checked (normalize_shape emaid)
