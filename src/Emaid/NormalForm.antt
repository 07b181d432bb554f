-- ===== src/Emaid/NormalForm.antt =====
-- `NormalizeEmaid` of manager/ocpp/emaid.go never panics, and what it returns it leaves alone.
use maeve_csms_reservations.Prelude.{
  ℕ, zero, suc, ◌≡◌, refl, Bool, true, none, some, List, [], ◌∷◌, ◌++◌, map, arith, ◌⊎◌, inl, inr,
  Bool-cases,
}
use mathlib.Core.List.{map-append}
use maeve_csms_reservations.Emaid.Detection.{is_code}
use maeve_csms_reservations.Emaid.{
  is_upper, is_alpha, is_alnum, to_upper, repeat_class, optional_dash, optional_alnum, match_here,
  find_submatch, normalize_shape, ◌>>=◌,
}

-- Exactly `n` characters, all of which pass the test.
abbrev pub Chars : (ℕ → Bool) → ℕ → List ℕ → Type 0
Chars p zero [] = Unit
Chars p zero (c ∷ s) = ⊥
Chars p (suc n) [] = ⊥
Chars p (suc n) (c ∷ s) = (p c ≡ true) × Chars p n s

-- At most one character.
abbrev pub AtMostOne : (ℕ → Bool) → List ℕ → Type 0
AtMostOne p [] = Unit
AtMostOne p (c ∷ []) = p c ≡ true
AtMostOne p (c ∷ d ∷ s) = ⊥

-- The shape of a normal form: four groups.
pub record Shape (alpha alnum : ℕ → Bool) (t : List ℕ) : Type 0 where
  pub country : List ℕ
  pub provider : List ℕ
  pub instance_id : List ℕ
  pub digit : List ℕ
  pub is_country : Chars alpha 2 country
  pub is_provider : Chars alnum 3 provider
  pub is_instance : Chars alnum 9 instance_id
  pub is_digit_group : AtMostOne alnum digit
  pub text : t ≡ country ++ (provider ++ (instance_id ++ digit))

-- What a group takes passes the test of its class.
repeat_class-cases :
    (p : ℕ → Bool) (n : ℕ) (s : List ℕ)
    → (repeat_class p n s ≡ none)
      ⊎ ((g : List ℕ) × (r : List ℕ) × (repeat_class p n s ≡ some (g, r)) × Chars p n g)
unfolding repeat_class
repeat_class-cases p zero s = inr ([], s, refl, tt)
repeat_class-cases p (suc n) [] = inl refl
repeat_class-cases p (suc n) (c ∷ s) = elim (Bool-cases (p c)) [
  | inr no_match ↦ inl (rw no_match)
  | inl match ↦ elim (repeat_class-cases p n s) [
    | inl e ↦ inl (rw (match, e))
    | inr (g, r, e, chars) ↦ inr (c ∷ g, r, rw (match, e), (match, chars))
  ]
]

pub repeat_class-append :
    (p : ℕ → Bool) (n : ℕ) (g r : List ℕ) → Chars p n g → repeat_class p n (g ++ r) ≡ some (g, r)
unfolding repeat_class
repeat_class-append p zero [] r h = refl
repeat_class-append p zero (c ∷ g) r h = absurd h
repeat_class-append p (suc n) [] r h = absurd h
repeat_class-append p (suc n) (c ∷ g) r h = rw (h.0, repeat_class-append p n g r h.1)

optional_alnum-AtMostOne : (s : List ℕ) → AtMostOne is_alnum (optional_alnum s)
unfolding optional_alnum
optional_alnum-AtMostOne [] = tt
optional_alnum-AtMostOne (c ∷ s) = elim (Bool-cases (is_alnum c)) [
  | inl e ↦ rw e e
  | inr e ↦ rw e tt
]

match_here-cases :
    (s : List ℕ)
    → (match_here s ≡ none) ⊎ ((t : List ℕ) × (match_here s ≡ some t) × Shape is_alpha is_alnum t)
unfolding match_here
match_here-cases s = elim (repeat_class-cases is_alpha 2 s) [
  | inl e ↦ inl (rw e)
  | inr (a, s1, ea, ha) ↦ elim (repeat_class-cases is_alnum 3 (optional_dash s1)) [
    | inl e ↦ inl (rw (ea, e))
    | inr (b, s2, eb, hb) ↦ elim (repeat_class-cases is_alnum 9 (optional_dash s2)) [
      | inl e ↦ inl (rw (ea, ◌>>=◌, eb, e))
      | inr (c, s3, ec, hc) ↦ inr (
        a ++ (b ++ (c ++ optional_alnum (optional_dash s3))),
        rw (ea, ◌>>=◌, eb, ec),
        record {
          country = a;
          provider = b;
          instance_id = c;
          digit = optional_alnum (optional_dash s3);
          is_country = ha;
          is_provider = hb;
          is_instance = hc;
          is_digit_group = optional_alnum-AtMostOne (optional_dash s3);
          text = refl;
        },
      )
    ]
  ]
]

find_submatch-cases :
    (s : List ℕ)
    → (find_submatch s ≡ none)
      ⊎ ((t : List ℕ) × (find_submatch s ≡ some t) × Shape is_alpha is_alnum t)
unfolding find_submatch
find_submatch-cases [] = match_here-cases []
find_submatch-cases (c ∷ s) = elim (match_here-cases (c ∷ s)) [
  | inr (t, e, shape) ↦ inr (t, rw (e, find_submatch), shape)
  | inl e ↦ elim (find_submatch-cases s) [
    | inl f ↦ inl (rw (e, find_submatch, f))
    | inr (t, f, shape) ↦ inr (t, rw (e, find_submatch, f), shape)
  ]
]

-- Upper case, group by group.
to_upper-alpha : (c : ℕ) → is_alpha c ≡ true → is_upper (to_upper c) ≡ true
unfolding to_upper
to_upper-alpha c h = ground arith

to_upper-alnum : (c : ℕ) → is_alnum c ≡ true → is_code (to_upper c) ≡ true
unfolding to_upper
to_upper-alnum c h = ground arith

pub to_upper-code : (c : ℕ) → is_code c ≡ true → to_upper c ≡ c
unfolding to_upper
to_upper-code c h = ground arith

map-Chars :
    (p q : ℕ → Bool) (f : ℕ → ℕ) (h : (c : ℕ) → p c ≡ true → q (f c) ≡ true) (n : ℕ) (s : List ℕ)
    → Chars p n s
    → Chars q n (map f s)
map-Chars p q f h zero [] k = tt
map-Chars p q f h zero (c ∷ s) k = absurd k
map-Chars p q f h (suc n) [] k = absurd k
map-Chars p q f h (suc n) (c ∷ s) k = (h c k.0, map-Chars p q f h n s k.1)

map-AtMostOne :
    (p q : ℕ → Bool) (f : ℕ → ℕ) (h : (c : ℕ) → p c ≡ true → q (f c) ≡ true) (s : List ℕ)
    → AtMostOne p s
    → AtMostOne q (map f s)
map-AtMostOne p q f h [] k = tt
map-AtMostOne p q f h (c ∷ []) k = h c k
map-AtMostOne p q f h (c ∷ d ∷ s) k = absurd k

upper-Shape : (t : List ℕ) → Shape is_alpha is_alnum t → Shape is_upper is_code (map to_upper t)
upper-Shape t s = record {
  country = map to_upper s.country;
  provider = map to_upper s.provider;
  instance_id = map to_upper s.instance_id;
  digit = map to_upper s.digit;
  is_country = map-Chars is_alpha is_upper to_upper to_upper-alpha 2 s.country s.is_country;
  is_provider = map-Chars is_alnum is_code to_upper to_upper-alnum 3 s.provider s.is_provider;
  is_instance = map-Chars is_alnum is_code to_upper to_upper-alnum 9 s.instance_id s.is_instance;
  is_digit_group = map-AtMostOne is_alnum is_code to_upper to_upper-alnum s.digit s.is_digit_group;
  text = simp (s.text, map-append);
}

-- The shape is that of 14 or 15 characters.
pub normalize_shape-cases :
    (s : List ℕ)
    → (normalize_shape s ≡ none)
      ⊎ ((t : List ℕ) × (normalize_shape s ≡ some t) × Shape is_upper is_code t)
unfolding normalize_shape
normalize_shape-cases s = elim (find_submatch-cases s) [
  | inl e ↦ inl (rw e)
  | inr (t, e, shape) ↦ inr (map to_upper t, rw e, upper-Shape t shape)
]
