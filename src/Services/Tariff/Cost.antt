-- ===== src/Services/Tariff/Cost.antt =====
-- manager/services/tariff.go: what the cost of a transaction is for.
use mathlib.Core.Logic.Or
use mathlib.Core.List.Perm
use mathlib.Core.List.{Mem, mem-cons, mem-cons_self, mem-cons_of_mem, not-mem-nil}
use native.Mathlib.Bridge.{le_prop}
use maeve_csms_reservations.Prelude.{
  ℕ, ◌≤◌, ◌≡◌, ◌⊎◌, refl, ◌∙◌, subst, and-true, and-intro, String, true, ltb, All, Option, none,
  some, List, [], ◌∷◌, Bool-cases, inl, inr, arith,
}
use maeve_csms_reservations.Store.{SampledValue, MeterValue, Transaction}
use maeve_csms_reservations.Store.Engine.{Result, ok, err}
use maeve_csms_reservations.Handlers.{holds_iff}
use maeve_csms_reservations.Services.Tariff.{
  is_outlet_energy, last_in, last_reading, cost_of, calculate_cost, SortSlice, Ordered, Price,
  earlier,
}

among {ℓ} :
    {A : Type ℓ} (m n : ℕ) (l : List A) (P : A → Type 0) {x : A}
    → All (λ y. P y → m ≤ n) l
    → Mem x l
    → P x
    → m ≤ n
among m n [] P h mem p = absurd (not-mem-nil mem)
among m n (y ∷ l) P {x} h mem p =
    Or.elim le_prop (mem-cons.0 mem) (λ e. h.0 (subst P e p)) (λ rest. among m n l P h.1 rest p)

module _ {F : Type 0} where
  -- A reading of the outlet's energy at the end of a transaction.
  abbrev pub IsFinal : SampledValue F → Type 0
  IsFinal sv =
      (sv.context ≡ some "Transaction.End")
      × (sv.measurand ≡ some "Energy.Active.Import.Register")
      × (sv.location ≡ some "Outlet")

  is_outlet_energy-IsFinal : (sv : SampledValue F) → is_outlet_energy sv ≡ true → IsFinal sv
  unfolding is_outlet_energy
  is_outlet_energy-IsFinal sv e =
      let (context, others) = and-true _ _ e in
      let (measurand, location) = and-true _ _ others in
      (
        (holds_iff sv.context "Transaction.End").0 context,
        (holds_iff sv.measurand "Energy.Active.Import.Register").0 measurand,
        (holds_iff sv.location "Outlet").0 location,
      )

  test_of_final : (sv : SampledValue F) → IsFinal sv → is_outlet_energy sv ≡ true
  unfolding is_outlet_energy
  test_of_final sv (context, measurand, location) =
      and-intro _ _ ((holds_iff sv.context "Transaction.End").1 context) (
        and-intro _ _ ((holds_iff sv.measurand "Energy.Active.Import.Register").1 measurand)
          ((holds_iff sv.location "Outlet").1 location))

  -- Every final reading of the meter values has a number of at most `n`.
  abbrev Bounded : (MeterValue F → ℕ) → ℕ → List (MeterValue F) → Type 0
  Bounded number n = All (λ mv. All (λ sv. IsFinal sv → number mv ≤ n) mv.sampled_values)

  Bounded-at :
      (number : MeterValue F → ℕ) (n : ℕ) (l : List (MeterValue F)) {mv : MeterValue F}
      {sv : SampledValue F}
      → Bounded number n l
      → Mem mv l
      → Mem sv mv.sampled_values
      → IsFinal sv
      → number mv ≤ n
  Bounded-at number n [] h mem within final = absurd (not-mem-nil mem)
  Bounded-at number n (y ∷ l) {mv} {sv} h mem within final =
      Or.elim le_prop (mem-cons.0 mem)
        (λ e. rw e (
          among (number y) n y.sampled_values IsFinal h.0
            (subst (λ v. Mem sv v.sampled_values) e within) final))
        (λ rest. Bounded-at number n l h.1 rest within final)

  -- Either no value of the list is final, or the loop ends with one that is.
  last_in-cases :
      (total : Option F) (svs : List (SampledValue F))
      → ((last_in total svs ≡ total) × All (λ sv. IsFinal sv → 1 ≤ 0) svs)
        ⊎ ((sv : SampledValue F) × Mem sv svs × IsFinal sv × (last_in total svs ≡ some sv.value))
  last_in-cases total [] = inl (refl, tt)
  last_in-cases total (sv ∷ svs) = elim (Bool-cases (is_outlet_energy sv)) [
    | inl e ↦ elim (last_in-cases (some sv.value) svs) [
      | inl (same, others) ↦ inr (sv, mem-cons_self, is_outlet_energy-IsFinal sv e, rw e same)
      | inr (last, mem, final, found) ↦ inr (last, mem-cons_of_mem sv mem, final, rw e found)
    ]
    | inr e ↦ elim (last_in-cases total svs) [
      | inl (same, others) ↦
          inl (rw e same, (λ final. absurd (cc (test_of_final sv final, e)), others))
      | inr (last, mem, final, found) ↦ inr (last, mem-cons_of_mem sv mem, final, rw e found)
    ]
  ]

  at_most :
      (number : MeterValue F → ℕ) (n : ℕ) (svs : List (SampledValue F)) (mv : MeterValue F)
      → number mv ≤ n
      → All (λ sv. IsFinal sv → number mv ≤ n) svs
  at_most number n [] mv h = tt
  at_most number n (sv ∷ svs) mv h = (λ final. h, at_most number n svs mv h)

  none_at_most :
      (m n : ℕ) (svs : List (SampledValue F))
      → All (λ sv. IsFinal sv → 1 ≤ 0) svs
      → All (λ sv. IsFinal sv → m ≤ n) svs
  none_at_most m n [] h = tt
  none_at_most m n (sv ∷ svs) h =
      (λ final. let never = h.0 final in omega arith, none_at_most m n svs h.1)

  Bounded-none :
      (number : MeterValue F → ℕ) (n : ℕ) (l : List (MeterValue F))
      → Bounded (λ mv. 1) 0 l
      → Bounded number n l
  Bounded-none number n [] h = tt
  Bounded-none number n (mv ∷ l) h =
      (none_at_most (number mv) n mv.sampled_values h.0, Bounded-none number n l h.1)

  rank_below :
      (rank : MeterValue F → ℕ) (m : ℕ) (l : List (MeterValue F)) {mv : MeterValue F}
      → All (λ y. m ≤ rank y) l
      → Mem mv l
      → m ≤ rank mv
  rank_below rank m [] h mem = absurd (not-mem-nil mem)
  rank_below rank m (y ∷ l) h mem =
      Or.elim le_prop (mem-cons.0 mem) (λ e. rw e h.0) (λ rest. rank_below rank m l h.1 rest)

  -- Of an ordered list, the loop finds a final reading of the last meter value that has one.
  last_reading-cases :
      (rank : MeterValue F → ℕ) (total : Option F) (l : List (MeterValue F))
      → Ordered rank l
      → ((last_reading total l ≡ total) × Bounded (λ mv. 1) 0 l)
        ⊎ ((mv : MeterValue F) × (sv : SampledValue F) × Mem mv l
            × Mem sv mv.sampled_values
            × IsFinal sv
            × (last_reading total l ≡ some sv.value)
            × Bounded rank (rank mv) l)
  last_reading-cases rank total [] h = inl (refl, tt)
  last_reading-cases rank total (mv ∷ l) (below, h) =
      elim (last_reading-cases rank (last_in total mv.sampled_values) l h) [
        | inr (latest, sv, mem, within, final, found, bounded) ↦ inr (
          latest,
          sv,
          mem-cons_of_mem mv mem,
          within,
          final,
          found,
          (
            at_most rank (rank latest) mv.sampled_values mv (rank_below rank (rank mv) l below mem),
            bounded,
          ),
        )
        | inl (same, unread) ↦ elim (last_in-cases total mv.sampled_values) [
          | inl (kept, others) ↦ inl (same ∙ kept, (others, unread))
          | inr (sv, within, final, found) ↦ inr (
            mv,
            sv,
            mem-cons_self,
            within,
            final,
            same ∙ found,
            (
              at_most rank (rank mv) mv.sampled_values mv (omega arith),
              Bounded-none rank (rank mv) l unread,
            ),
          )
        ]
      ]

  before_of_ranks :
      (parse_time : String → Result ℕ) (rank : MeterValue F → ℕ) (a b : MeterValue F)
      → parse_time a.timestamp ≡ ok (rank a)
      → parse_time b.timestamp ≡ ok (rank b)
      → earlier parse_time a b ≡ ltb (rank a) (rank b)
  before_of_ranks parse_time rank a b ea eb = rw (ea, eb) refl

  -- For a transaction whose meter values all have a time that can be parsed, either there is no
  -- reading of the outlet's energy at the end of the transaction, and no cost; or the cost is that
  -- of such a reading, at 0.55 for a thousand, in a meter value than which no other with such a
  -- reading is later, in whatever order they are stored.
  pub calculate_cost-latest :
      (slice : SortSlice (MeterValue F)) (parse_time : String → Result ℕ) (price : Price F)
      (rank : MeterValue F → ℕ) (t : Transaction F)
      → ((mv : MeterValue F) → Mem mv t.meter_values → parse_time mv.timestamp ≡ ok (rank mv))
      → let cost = (calculate_cost slice parse_time price (some t)).0 in
        ((cost ≡ err "no output energy reading found in transaction")
          × ((mv : MeterValue F) (sv : SampledValue F)
              → Mem mv t.meter_values
              → Mem sv mv.sampled_values
              → ¬ IsFinal sv))
        ⊎ ((mv : MeterValue F) × (sv : SampledValue F) × Mem mv t.meter_values
            × Mem sv mv.sampled_values
            × IsFinal sv
            × (cost ≡ ok (price.multiply (price.rational 55 100000) sv.value))
            × ((other : MeterValue F) (reading : SampledValue F)
                → Mem other t.meter_values
                → Mem reading other.sampled_values
                → IsFinal reading
                → rank other ≤ rank mv))
  unfolding calculate_cost cost_of
  calculate_cost-latest slice parse_time price rank t parses =
      let sorted = slice.sort (earlier parse_time) t.meter_values in
      let perm = slice.permutes (earlier parse_time) t.meter_values in
      let ordered =
        slice.sorts (earlier parse_time) rank t.meter_values
          (λ a b ma mb. before_of_ranks parse_time rank a b (parses a ma) (parses b mb)) in
      elim (last_reading-cases rank none sorted ordered) [
        | inl (same, unread) ↦ inl (
          rw same refl,
          λ mv sv mem within final.
              let never =
                Bounded-at (λ v. 1) 0 sorted unread ((Perm.mem_iff perm).1 mem) within final in
              omega arith,
        )
        | inr (mv, sv, mem, within, final, found, bounded) ↦ inr (
          mv,
          sv,
          (Perm.mem_iff perm).0 mem,
          within,
          final,
          rw found refl,
          λ other reading omem owithin ofinal.
              Bounded-at rank (rank mv) sorted bounded ((Perm.mem_iff perm).1 omem) owithin ofinal,
        )
      ]
