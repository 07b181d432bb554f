-- ===== src/Emaid/Examples.antt =====
-- Concrete identifiers for the theorems on manager/ocpp/emaid.go, from emaid_test.go beside it.
use maeve_csms_reservations.Prelude.{ℕ, ◌≡◌, ◌≢◌, refl, List, [], ◌∷◌, ◌++◌, some, true, arith}
use maeve_csms_reservations.Emaid.{panic, ok, normalize_emaid, to_upper}
use maeve_csms_reservations.Emaid.CheckDigit.{calculate_emaid_check_digit}
use maeve_csms_reservations.Emaid.Detection.{is_code, calculate_emaid_check_digit-code}
use maeve_csms_reservations.Emaid.Substitution.{check_digit-substitution}
use maeve_csms_reservations.Emaid.FixedPoint.{normalize_emaid-ne-panic, normalize_emaid_idem}

abbrev before : List ℕ
before = b'G' ∷ b'B' ∷ b'T' ∷ b'W' ∷ b'K' ∷ b'0' ∷ b'1' ∷ []

abbrev after : List ℕ
after = b'3' ∷ b'4' ∷ b'5' ∷ b'6' ∷ b'7' ∷ b'8' ∷ []

abbrev identifier : List ℕ
identifier = before ++ (b'2' ∷ after)

abbrev pub typed : List ℕ
typed =
    b'G' ∷ b'B' ∷ b'-' ∷ b'T' ∷ b'W' ∷ b'K' ∷ b'-' ∷ b'0' ∷ b'1' ∷ b'2' ∷ b'3' ∷ b'4' ∷ b'5' ∷ b'6'
    ∷ b'7' ∷ b'8' ∷ b'-' ∷ b'V' ∷ []

abbrev pub normal : List ℕ
normal =
    b'G' ∷ b'B' ∷ b'T' ∷ b'W' ∷ b'K' ∷ b'0' ∷ b'1' ∷ b'2' ∷ b'3' ∷ b'4' ∷ b'5' ∷ b'6' ∷ b'7' ∷ b'8'
    ∷ b'V' ∷ []

digit_test : calculate_emaid_check_digit identifier ≡ some b'V'
unfolding calculate_emaid_check_digit
digit_test = refl

other_digit_test :
    calculate_emaid_check_digit (
      b'G' ∷ b'B' ∷ b'T' ∷ b'W' ∷ b'K' ∷ b'1' ∷ b'2' ∷ b'3' ∷ b'4' ∷ b'5' ∷ b'6' ∷ b'7' ∷ b'8'
      ∷ b'9' ∷ [])
    ≡ some b'B'
unfolding calculate_emaid_check_digit
other_digit_test = refl

pub typed-normal : normalize_emaid typed ≡ ok normal
unfolding normalize_emaid to_upper
typed-normal = refl

calculate_emaid_check_digit-code_example :
    (d : ℕ) × (calculate_emaid_check_digit identifier ≡ some d) × (is_code d ≡ true)
calculate_emaid_check_digit-code_example = calculate_emaid_check_digit-code identifier (
  refl,
  (
    refl,
    (
      refl,
      (refl, (refl, (refl, (refl, (refl, (refl, (refl, (refl, (refl, (refl, (refl, tt))))))))))),
    ),
  ),
)

check_digit-substitution_example :
    calculate_emaid_check_digit (before ++ (b'2' ∷ after))
    ≢ calculate_emaid_check_digit (before ++ (b'Z' ∷ after))
check_digit-substitution_example =
    check_digit-substitution before after b'2' b'Z' (omega arith)
      (
        refl,
        (
          refl,
          (
            refl,
            (
              refl,
              (refl, (refl, (refl, (refl, (refl, (refl, (refl, (refl, (refl, (refl, tt)))))))))),
            ),
          ),
        ),
      )
      (
        refl,
        (
          refl,
          (
            refl,
            (
              refl,
              (refl, (refl, (refl, (refl, (refl, (refl, (refl, (refl, (refl, (refl, tt)))))))))),
            ),
          ),
        ),
      )
      (omega arith)

normalize_emaid-ne-panic_example : normalize_emaid typed ≢ panic
normalize_emaid-ne-panic_example = normalize_emaid-ne-panic typed

normalize_emaid_idem_example : normalize_emaid normal ≡ ok normal
normalize_emaid_idem_example = normalize_emaid_idem typed normal typed-normal
