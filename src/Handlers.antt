-- ===== src/Handlers.antt =====
-- manager/handlers/: what the manager does with the messages of a charge station, and what the
-- handlers take from Go's standard library and from packages that are not in the repository.
pub mod Router
pub mod Schemas
pub mod CallMaker
pub mod Ocpp16
pub mod Ocpp201
pub mod Examples
use maeve_csms_reservations.Prelude.{
  ◌≡◌, ap, sym, subst, ℕ, String, Bool, true, false, Option, none, some, ◌==◌, eq_iff, eq_refl,
  List, [], ◌∷◌,
}
use maeve_csms_reservations.Prelude.Int.{ℤ}
use maeve_csms_reservations.Store.Engine.{Result, ok, err, Action}

-- `p != nil && *p == s`
abbrev pub holds : Option String → String → Bool
holds none s = false
holds (some t) s = t == s

pub holds_iff :
    (o : Option String) (text : String)
    → (holds o text ≡ true → o ≡ some text) × (o ≡ some text → holds o text ≡ true)
holds_iff none text = (λ e. absurd (cc), λ e. absurd (cc))
holds_iff (some t) text = (
  λ e. ap some ((eq_iff t text).0 e),
  λ e. subst (λ o. holds o text ≡ true) (sym e) (eq_refl text),
)

-- The float64 conversions: of an int, to an int, and `strconv.ParseFloat(s, 64)`.
pub record Float (F : Type 0) : Type 0 where
  pub of_int : ℤ → F
  pub to_int : F → ℤ
  pub parse_float : String → Result F

-- A computation that may fail and does not touch the state.
abbrev pub returned : {S A : Type 0} → Result A → Action S A
returned r s = (r, s)

abbrev pub ok_cons : {A : Type 0} → A → Result (List A) → Result (List A)
ok_cons b (ok bs) = ok (b ∷ bs)
ok_cons b (err e) = err e

abbrev pub head_then : {A : Type 0} → Result A → Result (List A) → Result (List A)
head_then (ok b) rest = ok_cons b rest
head_then (err e) rest = err e

-- A loop that converts each element, or returns the first error.
abbrev pub convert_each : {A B : Type 0} → (A → Result B) → List A → Result (List B)
convert_each f [] = ok []
convert_each f (a ∷ rest) = head_then (f a) (convert_each f rest)
