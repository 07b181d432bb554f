-- ===== src/Emaid/Substitution.antt =====
-- The check digit of manager/ocpp/emaid.go notices every single wrong character.
use maeve_csms_reservations.Prelude.{
  ℕ, zero, suc, ◌+◌, ◌*◌, ◌%◌, ◌<◌, ◌≡◌, ◌≢◌, refl, Bool, true, false, ◌&&◌, ◌||◌, not, Option,
  some, List, [], ◌∷◌, ◌++◌, arith, nat_eq, length, inl, inr, Option-cases, and-true, and-intro,
  nat_eq_of_eq, eq_of_nat_eq, sym, ◌∙◌,
}
use maeve_csms_reservations.Emaid.CheckDigit.{
  Row, Sums, p1, p2, matrix_of, add_row, sum_loop, digit_index, digit_of, no_sums,
  calculate_emaid_check_digit,
}
use maeve_csms_reservations.Emaid.Detection.{
  is_code, Prefix, all_below, all_below_sound, code-lt, matrix_of-code, sum_loop-code,
  digit_of-code, digit_at, for_all_remainders, for_all_remainders_sound, not-or,
}

-- Equal remainders, which is all that the digit reads of the sums.
record Same (s t : Sums) : Type 0 where
  c1 : s.c1 % 2 ≡ t.c1 % 2
  c2 : s.c2 % 2 ≡ t.c2 % 2
  c3 : s.c3 % 3 ≡ t.c3 % 3
  c4 : s.c4 % 3 ≡ t.c4 % 3

add-cancel2 : (a b k : ℕ) → (a + k) % 2 ≡ (b + k) % 2 → a % 2 ≡ b % 2
add-cancel2 a b k h = omega arith

add-cancel3 : (a b k : ℕ) → (a + k) % 3 ≡ (b + k) % 3 → a % 3 ≡ b % 3
add-cancel3 a b k h = omega arith

add_row-Same : (s t : Sums) (m w v : Row) → Same (add_row s m w v) (add_row t m w v) → Same s t
unfolding add_row
add_row-Same s t m w v h = record {
  c1 = add-cancel2 s.c1 t.c1 _ h.c1;
  c2 = add-cancel2 s.c2 t.c2 _ h.c2;
  c3 = add-cancel3 s.c3 t.c3 _ h.c3;
  c4 = add-cancel3 s.c4 t.c4 _ h.c4;
}

-- Over the same characters, equal remainders at the end come from equal remainders at the start.
sum_loop-Same :
    (n : ℕ) (emaid : List ℕ) (ws vs : List Row) (s t : Sums) {s' t' : Sums}
    → sum_loop n emaid ws vs s ≡ some s'
    → sum_loop n emaid ws vs t ≡ some t'
    → Same s' t'
    → Same s t
unfolding sum_loop
sum_loop-Same zero emaid ws vs s t p q h = ground arith
sum_loop-Same (suc n) [] ws vs s t p q h = cc
sum_loop-Same (suc n) (c ∷ emaid) [] vs s t p q h = cc
sum_loop-Same (suc n) (c ∷ emaid) (w ∷ ws) [] s t p q h = cc
sum_loop-Same (suc n) (c ∷ emaid) (w ∷ ws) (v ∷ vs) s t p q h = elim (Option-cases (matrix_of c)) [
  | inl e ↦ cc (rw (e, sum_loop) at p)
  | inr (m, e) ↦ add_row-Same s t m w v (
      sum_loop-Same n emaid ws vs (add_row s m w v) (add_row t m w v) (rw (e, sum_loop) at p)
        (rw (e, sum_loop) at q) h)
]

-- One weight of each table tells two characters apart.
abbrev mix2 : ℕ → ℕ → ℕ → ℕ → ℕ
mix2 a b c d = (a * c + b * d) % 2

abbrev mix3 : ℕ → ℕ → ℕ → ℕ → ℕ
mix3 a b c d = (a * c + b * d) % 3

abbrev same_rows : Row → Row → Row → Row → Bool
same_rows w v m k =
    nat_eq (mix2 m.m0 m.m1 w.m0 w.m2) (mix2 k.m0 k.m1 w.m0 w.m2)
    && nat_eq (mix2 m.m0 m.m1 w.m1 w.m3) (mix2 k.m0 k.m1 w.m1 w.m3)
    && nat_eq (mix3 m.m2 m.m3 v.m0 v.m2) (mix3 k.m2 k.m3 v.m0 v.m2)
    && nat_eq (mix3 m.m2 m.m3 v.m1 v.m3) (mix3 k.m2 k.m3 v.m1 v.m3)

abbrev same_rows? : Row → Row → Option Row → Option Row → Bool
same_rows? w v (some m) (some k) = same_rows w v m k
same_rows? w v _ _ = false

abbrev told_apart : Row → Row → ℕ → ℕ → Bool
told_apart w v c d =
    not (is_code c && is_code d && same_rows? w v (matrix_of c) (matrix_of d)) || nat_eq c d

separates : Row → Row → Bool
unfolding all_below matrix_of
separates w v = all_below 91 (λ c. all_below 91 (told_apart w v c))

separate_all : ℕ → List Row → List Row → Bool
unfolding separates
separate_all zero ws vs = true
separate_all (suc n) (w ∷ ws) (v ∷ vs) = separates w v && separate_all n ws vs
separate_all (suc n) _ _ = false

weights_separate : separate_all 14 p1 p2 ≡ true
unfolding separate_all
weights_separate = refl

remainder_of_sum2 : (k a b : ℕ) → (k + a) % 2 ≡ (k + b) % 2 → a % 2 ≡ b % 2
remainder_of_sum2 k a b h = omega arith

remainder_of_sum3 : (k a b : ℕ) → (k + a) % 3 ≡ (k + b) % 3 → a % 3 ≡ b % 3
remainder_of_sum3 k a b h = omega arith

same_rows-true :
    (s : Sums) (w v m k : Row) → Same (add_row s m w v) (add_row s k w v) → same_rows w v m k ≡ true
unfolding add_row
same_rows-true s w v m k h =
    and-intro _ _
      (and-intro _ _
        (and-intro _ _ (nat_eq_of_eq _ _ (remainder_of_sum2 s.c1 _ _ h.c1))
          (nat_eq_of_eq _ _ (remainder_of_sum2 s.c2 _ _ h.c2)))
        (nat_eq_of_eq _ _ (remainder_of_sum3 s.c3 _ _ h.c3)))
      (nat_eq_of_eq _ _ (remainder_of_sum3 s.c4 _ _ h.c4))

-- At a position whose weights separate, equal remainders come from equal characters.
chars_equal :
    (w v : Row) (s : Sums) (c d : ℕ) (m k : Row)
    → separates w v ≡ true
    → is_code c ≡ true
    → is_code d ≡ true
    → matrix_of c ≡ some m
    → matrix_of d ≡ some k
    → Same (add_row s m w v) (add_row s k w v)
    → c ≡ d
unfolding separates
chars_equal w v s c d m k sep hc hd mc md h =
    let at_c = all_below_sound 91 (λ i. all_below 91 (told_apart w v i)) c sep (code-lt c hc) in
    let at_d = all_below_sound 91 (told_apart w v c) d at_c (code-lt d hd) in
    let same : same_rows? w v (matrix_of c) (matrix_of d) ≡ true =
      rw (mc, md) (same_rows-true s w v m k h) in
    eq_of_nat_eq c d (not-or _ _ at_d (and-intro _ _ (and-intro _ _ hc hd) same))

module _ (c d : ℕ) (hc : is_code c ≡ true) (hd : is_code d ≡ true) (post : List ℕ) where
  position_equal :
      (pre : List ℕ) (n : ℕ) (ws vs : List Row) (s : Sums) {s' t' : Sums}
      → length pre < n
      → separate_all n ws vs ≡ true
      → sum_loop n (pre ++ (c ∷ post)) ws vs s ≡ some s'
      → sum_loop n (pre ++ (d ∷ post)) ws vs s ≡ some t'
      → Same s' t'
      → c ≡ d
  unfolding separate_all sum_loop
  position_equal pre zero ws vs s l sep p q h = absurd (omega arith)
  position_equal pre (suc n) [] vs s l sep p q h = cc
  position_equal pre (suc n) (w ∷ ws) [] s l sep p q h = cc
  position_equal [] (suc n) (w ∷ ws) (v ∷ vs) s l sep p q h =
      let (m, mc) = matrix_of-code c hc in
      let (k, md) = matrix_of-code d hd in
      chars_equal w v s c d m k (and-true _ _ sep).0 hc hd mc md (
        sum_loop-Same n post ws vs (add_row s m w v) (add_row s k w v) (rw (mc, sum_loop) at p)
          (rw (md, sum_loop) at q) h)
  position_equal (x ∷ pre) (suc n) (w ∷ ws) (v ∷ vs) s l sep p q h =
      elim (Option-cases (matrix_of x)) [
        | inl e ↦ cc (rw (e, sum_loop) at p)
        | inr (m, e) ↦
            position_equal pre n ws vs (add_row s m w v) (omega arith) (and-true _ _ sep).1
              (rw (e, sum_loop) at p) (rw (e, sum_loop) at q) h
      ]

some-some : {x y : ℕ} → some x ≡ some y → x ≡ y
some-some h = cc

abbrev same_digit : Option ℕ → Option ℕ → Bool
same_digit (some x) (some y) = nat_eq x y
same_digit _ _ = true

abbrev same_index : ℕ → ℕ → ℕ → ℕ → ℕ → ℕ → ℕ → ℕ → Bool
same_index a b c d a' b' c' d' =
    not (same_digit (digit_at a b c d) (digit_at a' b' c' d'))
    || (nat_eq a a' && nat_eq b b' && nat_eq c c' && nat_eq d d')

-- The digit tells the four remainders apart.
digits_separate :
    for_all_remainders
      (λ a b c d. for_all_remainders (λ a' b' c' d'. same_index a b c d a' b' c' d'))
    ≡ true
unfolding all_below digit_index
digits_separate = refl

Same-of_index :
    (s t : Sums)
    → (nat_eq (s.c1 % 2) (t.c1 % 2)
        && nat_eq (s.c2 % 2) (t.c2 % 2)
        && nat_eq (s.c3 % 3) (t.c3 % 3)
        && nat_eq (s.c4 % 3) (t.c4 % 3))
      ≡ true
    → Same s t
Same-of_index s t h =
    let (abc, d) = and-true _ _ h in
    let (ab, c) = and-true _ _ abc in
    let (a, b) = and-true _ _ ab in
    record {
      c1 = eq_of_nat_eq _ _ a;
      c2 = eq_of_nat_eq _ _ b;
      c3 = eq_of_nat_eq _ _ c;
      c4 = eq_of_nat_eq _ _ d;
    }

digit_of-Same : (s t : Sums) → digit_of s ≡ digit_of t → Same s t
unfolding digit_of
digit_of-Same s t e =
    let (x, p, _) = digit_of-code s in
    let (y, q, _) = digit_of-code t in
    let at_s =
      for_all_remainders_sound _ (s.c1 % 2) (s.c2 % 2) (s.c3 % 3) (s.c4 % 3) digits_separate
        (omega arith) (omega arith) (omega arith) (omega arith) in
    let at_t =
      for_all_remainders_sound _ (t.c1 % 2) (t.c2 % 2) (t.c3 % 3) (t.c4 % 3) at_s (omega arith)
        (omega arith) (omega arith) (omega arith) in
    let equal : same_digit (digit_of s) (digit_of t) ≡ true =
      rw (p, q) (nat_eq_of_eq x y (some-some (sym p ∙ e ∙ q))) in
    Same-of_index s t (not-or _ _ at_t equal)

Prefix-at :
    (pre : List ℕ) (n c : ℕ) (post : List ℕ)
    → length pre < n
    → Prefix is_code n (pre ++ (c ∷ post))
    → is_code c ≡ true
Prefix-at pre zero c post l h = absurd (omega arith)
Prefix-at [] (suc n) c post l h = h.0
Prefix-at (x ∷ pre) (suc n) c post l h = Prefix-at pre n c post (omega arith) h.1

-- Two identifiers that differ in one of their first 14 characters, all of them capital letters or
-- digits, have different check digits.
pub check_digit-substitution :
    (pre post : List ℕ) (c d : ℕ)
    → length pre < 14
    → Prefix is_code 14 (pre ++ (c ∷ post))
    → Prefix is_code 14 (pre ++ (d ∷ post))
    → c ≢ d
    → calculate_emaid_check_digit (pre ++ (c ∷ post))
      ≢ calculate_emaid_check_digit (pre ++ (d ∷ post))
unfolding calculate_emaid_check_digit
check_digit-substitution pre post c d l hp hq ne = λ e.
    let (s, p) =
      sum_loop-code 14 (pre ++ (c ∷ post)) p1 p2 no_sums hp (omega arith) (omega arith) in
    let (t, q) =
      sum_loop-code 14 (pre ++ (d ∷ post)) p1 p2 no_sums hq (omega arith) (omega arith) in
    ne (
      position_equal c d (Prefix-at pre 14 c post l hp) (Prefix-at pre 14 d post l hq) post pre 14
        p1 p2 no_sums l weights_separate p q (digit_of-Same s t (rw (p, q) at e)))
