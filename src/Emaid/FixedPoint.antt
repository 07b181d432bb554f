-- ===== src/Emaid/FixedPoint.antt =====
-- `NormalizeEmaid` of manager/ocpp/emaid.go leaves what it returns alone, and never panics.
use mathlib.Core.List.{append_assoc, append-nil}
use maeve_csms_reservations.Prelude.{
  ℕ, zero, suc, ◌≡◌, ◌≢◌, refl, Bool, true, Option, none, some, List, [], ◌∷◌, ◌++◌, map, arith,
  nat_eq, get_elem?, inl, inr, Bool-cases, Option-cases, sym, ◌∙◌, ap, nat_eq_of_eq, eq_of_nat_eq,
  subst,
}
use maeve_csms_reservations.Emaid.CheckDigit.{
  sum_loop, calculate_emaid_check_digit, p1, p2, no_sums, Row, Sums, matrix_of, add_row,
}
use maeve_csms_reservations.Emaid.Detection.{is_code, Prefix, calculate_emaid_check_digit-code}
use maeve_csms_reservations.Emaid.NormalForm.{
  Chars, AtMostOne, repeat_class-append, to_upper-code, normalize_shape-cases,
}
use maeve_csms_reservations.Emaid.{
  is_upper, is_alpha, is_alnum, to_upper, optional_dash, optional_alnum, match_here, find_submatch,
  normalize_shape, Outcome, panic, invalid, bad_check_digit, ok, compare_digit, finish,
  normalize_emaid, ◌>>=◌,
}

abbrev plus : ℕ → ℕ → ℕ
plus zero m = m
plus (suc n) m = suc (plus n m)

Chars-mono :
    (p q : ℕ → Bool) (h : (c : ℕ) → p c ≡ true → q c ≡ true) (n : ℕ) (g : List ℕ)
    → Chars p n g
    → Chars q n g
Chars-mono p q h zero [] k = tt
Chars-mono p q h zero (c ∷ g) k = absurd k
Chars-mono p q h (suc n) [] k = absurd k
Chars-mono p q h (suc n) (c ∷ g) k = (h c k.0, Chars-mono p q h n g k.1)

Prefix-append :
    (p : ℕ → Bool) (n m : ℕ) (g r : List ℕ)
    → Chars p n g
    → Prefix p m r
    → Prefix p (plus n m) (g ++ r)
Prefix-append p zero m [] r h k = k
Prefix-append p zero m (c ∷ g) r h k = absurd h
Prefix-append p (suc n) m [] r h k = absurd h
Prefix-append p (suc n) m (c ∷ g) r h k = (h.0, Prefix-append p n m g r h.1 k)

get_elem?-append :
    (p : ℕ → Bool) (n m : ℕ) (g r : List ℕ)
    → Chars p n g
    → get_elem? (g ++ r) (plus n m) ≡ get_elem? r m
get_elem?-append p zero m [] r h = refl
get_elem?-append p zero m (c ∷ g) r h = absurd h
get_elem?-append p (suc n) m [] r h = absurd h
get_elem?-append p (suc n) m (c ∷ g) r h = get_elem?-append p n m g r h.1

-- The loop reads no further than its rounds.
sum_loop-append :
    (n : ℕ) (g r : List ℕ) (ws vs : List Row) (s : Sums)
    → Prefix is_code n g
    → sum_loop n (g ++ r) ws vs s ≡ sum_loop n g ws vs s
unfolding sum_loop
sum_loop-append zero g r ws vs s h = refl
sum_loop-append (suc n) [] r ws vs s h = absurd h
sum_loop-append (suc n) (c ∷ g) r [] vs s h = refl
sum_loop-append (suc n) (c ∷ g) r (w ∷ ws) [] s h = refl
sum_loop-append (suc n) (c ∷ g) r (w ∷ ws) (v ∷ vs) s h = elim (Option-cases (matrix_of c)) [
  | inl e ↦ rw (e, sum_loop)
  | inr (m, e) ↦ rw (e, sum_loop, sum_loop-append n g r ws vs (add_row s m w v) h.1)
]

calculate-append :
    (g r : List ℕ)
    → Prefix is_code 14 g
    → calculate_emaid_check_digit (g ++ r) ≡ calculate_emaid_check_digit g
unfolding calculate_emaid_check_digit
calculate-append g r h = rw (sum_loop-append 14 g r p1 p2 no_sums h)

upper-code : (c : ℕ) → is_upper c ≡ true → is_code c ≡ true
upper-code c h = ground arith

upper-alpha : (c : ℕ) → is_upper c ≡ true → is_alpha c ≡ true
upper-alpha c h = ground arith

code-alnum : (c : ℕ) → is_code c ≡ true → is_alnum c ≡ true
code-alnum c h = ground arith

optional_dash-code :
    (n : ℕ) (g r : List ℕ) → Chars is_code (suc n) g → optional_dash (g ++ r) ≡ g ++ r
unfolding optional_dash
optional_dash-code n [] r h = absurd h
optional_dash-code n (c ∷ g) r h = ground (arith, h.0)

optional_end : (d : List ℕ) → AtMostOne is_code d → optional_alnum (optional_dash d) ≡ d
unfolding optional_alnum optional_dash
optional_end [] h = refl
optional_end (c ∷ []) h = ground arith
optional_end (c ∷ d ∷ s) h = absurd h

map-to_upper :
    (n : ℕ) (g r : List ℕ) → Chars is_code n g → map to_upper r ≡ r → map to_upper (g ++ r) ≡ g ++ r
map-to_upper zero [] r h k = k
map-to_upper zero (c ∷ g) r h k = absurd h
map-to_upper (suc n) [] r h k = absurd h
map-to_upper (suc n) (c ∷ g) r h k = rw (to_upper-code c h.0, map-to_upper n g r h.1 k)

map-to_upper_end : (d : List ℕ) → AtMostOne is_code d → map to_upper d ≡ d
map-to_upper_end [] h = refl
map-to_upper_end (c ∷ []) h = rw (to_upper-code c h)
map-to_upper_end (c ∷ d ∷ s) h = absurd h

-- A match at the start is the leftmost one.
find_submatch_first : (s t : List ℕ) → match_here s ≡ some t → find_submatch s ≡ some t
unfolding find_submatch
find_submatch_first [] t h = h
find_submatch_first (c ∷ s) t h = rw (h, find_submatch)

-- The four groups of a normal form.
module _ (a b c d : List ℕ) (ha : Chars is_upper 2 a) (hb : Chars is_code 3 b)
    (hc : Chars is_code 9 c) (hd : AtMostOne is_code d) where
  abbrev text : List ℕ
  text = a ++ (b ++ (c ++ d))

  text-Prefix : Prefix is_code 14 text
  text-Prefix =
      Prefix-append is_code 2 12 a _ (Chars-mono is_upper is_code upper-code 2 a ha)
        (Prefix-append is_code 3 9 b _ hb (Prefix-append is_code 9 0 c d hc tt))

  text_at_14 : get_elem? text 14 ≡ get_elem? d 0
  text_at_14 =
      get_elem?-append is_upper 2 12 a _ ha
      ∙ get_elem?-append is_code 3 9 b _ hb
      ∙ get_elem?-append is_code 9 0 c d hc

  match_here-text : match_here text ≡ some text
  unfolding match_here
  match_here-text = rw (
    repeat_class-append is_alpha 2 a (b ++ (c ++ d))
        (Chars-mono is_upper is_alpha upper-alpha 2 a ha),
    ◌>>=◌,
    optional_dash-code 2 b (c ++ d) hb,
    repeat_class-append is_alnum 3 b (c ++ d) (Chars-mono is_code is_alnum code-alnum 3 b hb),
    ◌>>=◌,
    optional_dash-code 8 c d hc,
    repeat_class-append is_alnum 9 c d (Chars-mono is_code is_alnum code-alnum 9 c hc),
    ◌>>=◌,
    optional_end d hd,
  )

  normalize_shape-text : normalize_shape text ≡ some text
  unfolding normalize_shape
  normalize_shape-text = rw (find_submatch_first text text match_here-text) (
      ap some (
        map-to_upper 2 a _ (Chars-mono is_upper is_code upper-code 2 a ha)
          (map-to_upper 3 b _ hb (map-to_upper 9 c d hc (map-to_upper_end d hd)))))

  normalize_emaid-text : normalize_emaid text ≡ finish text (calculate_emaid_check_digit text)
  unfolding normalize_emaid
  normalize_emaid-text = rw normalize_shape-text

finish-some :
    (norm : List ℕ) (x : ℕ) {o : Option ℕ}
    → get_elem? norm 14 ≡ o
    → finish norm (some x) ≡ compare_digit norm x o
finish-some norm x e = ap (compare_digit norm x) e

equal_digits : (norm : List ℕ) (x y : ℕ) → x ≡ y → compare_digit norm x (some y) ≡ ok norm
equal_digits norm x y e = rw (nat_eq_of_eq x y e)

ok-ok : {s t : List ℕ} → ok s ≡ ok t → s ≡ t
ok-ok h = cc

-- No panic, and a result that `normalize_emaid` leaves alone.
abbrev Settled : Outcome → Type 0
Settled r = (r ≢ panic) × ((t : List ℕ) → r ≡ ok t → normalize_emaid t ≡ ok t)

Settled-ok : (r : Outcome) (u : List ℕ) → r ≡ ok u → normalize_emaid u ≡ ok u → Settled r
Settled-ok r u e f = (λ p. cc, λ t h. subst (λ v. normalize_emaid v ≡ ok v) (ok-ok (sym e ∙ h)) f)

Settled-bad : (r : Outcome) (x y : ℕ) → r ≡ bad_check_digit x y → Settled r
Settled-bad r x y e = (λ p. cc, λ t h. cc)

-- A complete identifier with the digit that it should have is its own normal form.
module _ (a b c : List ℕ) (x : ℕ) (ha : Chars is_upper 2 a) (hb : Chars is_code 3 b)
    (hc : Chars is_code 9 c) (hx : is_code x ≡ true) where
  normalize_emaid_complete :
      calculate_emaid_check_digit (a ++ (b ++ (c ++ (x ∷ [])))) ≡ some x
      → normalize_emaid (a ++ (b ++ (c ++ (x ∷ [])))) ≡ ok (a ++ (b ++ (c ++ (x ∷ []))))
  normalize_emaid_complete e =
      normalize_emaid-text a b c (x ∷ []) ha hb hc hx
      ∙ ap (finish (a ++ (b ++ (c ++ (x ∷ []))))) e
      ∙ finish-some (a ++ (b ++ (c ++ (x ∷ [])))) x (text_at_14 a b c (x ∷ []) ha hb hc hx)
      ∙ equal_digits _ x x refl

-- What the last step does on an identifier of the right shape.
finish-cases :
    (a b c d : List ℕ) (ha : Chars is_upper 2 a) (hb : Chars is_code 3 b) (hc : Chars is_code 9 c)
    (hd : AtMostOne is_code d)
    → let text = a ++ (b ++ (c ++ d)) in Settled (finish text (calculate_emaid_check_digit text))
finish-cases a b c [] ha hb hc hd =
    let text = a ++ (b ++ (c ++ [])) in
    let (x, e, hx) = calculate_emaid_check_digit-code text (text-Prefix a b c [] ha hb hc hd) in
    let full : text ++ (x ∷ []) ≡ a ++ (b ++ (c ++ (x ∷ []))) = simp (append_assoc, append-nil) in
    Settled-ok _ (a ++ (b ++ (c ++ (x ∷ []))))
      (ap (finish text) e ∙ finish-some text x (text_at_14 a b c [] ha hb hc hd) ∙ ap ok full)
      (normalize_emaid_complete a b c x ha hb hc hx (
        ap calculate_emaid_check_digit (sym full)
        ∙ calculate-append text (x ∷ []) (text-Prefix a b c [] ha hb hc hd)
        ∙ e))
finish-cases a b c (y ∷ []) ha hb hc hd =
    let text = a ++ (b ++ (c ++ (y ∷ []))) in
    let (x, e, hx) =
      calculate_emaid_check_digit-code text (text-Prefix a b c (y ∷ []) ha hb hc hd) in
    let at_end = ap (finish text) e ∙ finish-some text x (text_at_14 a b c (y ∷ []) ha hb hc hd) in
    elim (Bool-cases (nat_eq x y)) [
      | inl same ↦ Settled-ok _ text (at_end ∙ equal_digits text x y (eq_of_nat_eq x y same)) (
          normalize_emaid-text a b c (y ∷ []) ha hb hc hd
          ∙ at_end
          ∙ equal_digits text x y (eq_of_nat_eq x y same))
      | inr other ↦ Settled-bad _ y x (at_end ∙ rw other)
    ]
finish-cases a b c (y ∷ z ∷ d) ha hb hc hd = absurd hd

normalize_emaid_of_none : (s : List ℕ) → normalize_shape s ≡ none → normalize_emaid s ≡ invalid
unfolding normalize_emaid
normalize_emaid_of_none s e = rw e

normalize_emaid_of_some :
    (s t : List ℕ)
    → normalize_shape s ≡ some t
    → normalize_emaid s ≡ finish t (calculate_emaid_check_digit t)
unfolding normalize_emaid
normalize_emaid_of_some s t e = rw e

normalize_emaid-Settled : (s : List ℕ) → Settled (normalize_emaid s)
normalize_emaid-Settled s = elim (normalize_shape-cases s) [
  | inl e ↦ (λ p. cc (normalize_emaid_of_none s e), λ t h. cc (normalize_emaid_of_none s e))
  | inr (t, e, shape) ↦
      rw (normalize_emaid_of_some s t e, shape.text)
        (finish-cases shape.country shape.provider shape.instance_id shape.digit shape.is_country
          shape.is_provider shape.is_instance shape.is_digit_group)
]

-- `NormalizeEmaid` never panics, whatever bytes it is given: the check digit is only calculated
-- for characters that its tables have a row for.
pub normalize_emaid-ne-panic : (s : List ℕ) → normalize_emaid s ≢ panic
normalize_emaid-ne-panic s = (normalize_emaid-Settled s).0

-- A string that `NormalizeEmaid` returns is its own normal form.
pub normalize_emaid_idem : (s t : List ℕ) → normalize_emaid s ≡ ok t → normalize_emaid t ≡ ok t
normalize_emaid_idem s t = (normalize_emaid-Settled s).1 t
