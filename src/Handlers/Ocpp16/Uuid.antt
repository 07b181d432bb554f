-- ===== src/Handlers/Ocpp16/Uuid.antt =====
-- manager/handlers/ocpp16/start_transaction.go: the transaction ids of OCPP 1.6, as UUIDs.
use maeve_csms_reservations.Prelude.{
  ℕ, ◌+◌, ◌-◌, ◌*◌, ◌/◌, ◌%◌, ◌<◌, ◌≡◌, sym, ap, ◌∙◌, String, List, [], ◌∷◌, arith,
}
use maeve_csms_reservations.Prelude.Int.{ℤ, pos, negsuc}

-- `(byte)(i >> k)`: the shift rounds down, also for a negative number.
abbrev pub shifted_byte : ℕ → ℤ → ℕ
shifted_byte divisor (pos n) = n / divisor % 256
shifted_byte divisor (negsuc n) = 255 - n / divisor % 256

-- The text of 16 bytes, `uuid.FromBytes(bytes).String()`.
abbrev pub UuidText : Type 0
UuidText = List ℕ → String

abbrev pub uuid_bytes : ℤ → List ℕ
uuid_bytes transaction_id =
    0
    ∷ 0
    ∷ 0
    ∷ 0
    ∷ 0
    ∷ 0
    ∷ 0
    ∷ 0
    ∷ 0
    ∷ 0
    ∷ 0
    ∷ 0
    ∷ shifted_byte 16777216 transaction_id
    ∷ shifted_byte 65536 transaction_id
    ∷ shifted_byte 256 transaction_id
    ∷ shifted_byte 1 transaction_id
    ∷ []

unfoldable pub convert_to_uuid : UuidText → ℤ → String
convert_to_uuid text transaction_id = text (uuid_bytes transaction_id)

-- The number that the last four of sixteen bytes make.
number_of : List ℕ → ℕ
number_of (_ ∷ _ ∷ _ ∷ _ ∷ _ ∷ _ ∷ _ ∷ _ ∷ _ ∷ _ ∷ _ ∷ _ ∷ a ∷ b ∷ c ∷ d ∷ []) =
    ((a * 256 + b) * 256 + c) * 256 + d
number_of _ = 0

number_of-uuid_bytes : (n : ℕ) → n < 4294967296 → number_of (uuid_bytes (pos n)) ≡ n
unfolding number_of
number_of-uuid_bytes n h = omega arith

-- Two transaction ids from 0 to 2^32 - 1 have the same sixteen bytes only if they are equal.
pub uuid_bytes_injective :
    (m n : ℕ) → m < 4294967296 → n < 4294967296 → uuid_bytes (pos m) ≡ uuid_bytes (pos n) → m ≡ n
uuid_bytes_injective m n hm hn e =
    sym (number_of-uuid_bytes m hm) ∙ ap number_of e ∙ number_of-uuid_bytes n hn
