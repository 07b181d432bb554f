-- ===== src/Store/InMemory/Stations/Certificates.antt =====
-- manager/store/inmemory/store.go: what an update of the certificates to install leaves of them.
use mathlib.Core.List.{append_assoc, append-nil, map-append}
use maeve_csms_reservations.Prelude.{
  is_some, Option, Option-cases, Bool, false, arith, eq_iff, ℕ, String, true, false, ◌≡◌, refl, sym,
  ◌∙◌, ap, none, some, List, [], ◌∷◌, ◌++◌, map, ◌==◌, if◌then◌else◌, any, Bool-cases, inl, inr,
  ◌⊎◌,
}
use maeve_csms_reservations.Store.{ChargeStationInstallCertificate}
use maeve_csms_reservations.Store.InMemory.Stations.{
  replace_certificate, merge_into, merge_loop, merge_certificates, cons_replaced,
}

-- What an update keeps of the stored certificates: each id, with the time of its next sending.
abbrev pub times_of : List ChargeStationInstallCertificate → List (String × ℕ)
times_of = map (λ c. (c.certificate_id, c.send_after))

abbrev pub ids_of : List ChargeStationInstallCertificate → List String
ids_of certs = map (λ t. t.0) (times_of certs)

-- Those of an update whose id no stored certificate has.
abbrev pub not_stored :
    List String → List ChargeStationInstallCertificate → List ChargeStationInstallCertificate
not_stored ids [] = []
not_stored ids (v ∷ updates) =
    let rest = not_stored ids updates in
    if any (λ i. v.certificate_id == i) ids then rest else v ∷ rest

-- A replacement keeps each place's id and time.
replace_certificate-cases :
    (v : ChargeStationInstallCertificate) (certs : List ChargeStationInstallCertificate)
    → ((replace_certificate v certs ≡ none)
        × (any (λ i. v.certificate_id == i) (ids_of certs) ≡ false))
      ⊎ ((replaced : List ChargeStationInstallCertificate) × (replace_certificate v certs
            ≡ some replaced)
          × (any (λ i. v.certificate_id == i) (ids_of certs) ≡ true)
          × (times_of replaced ≡ times_of certs))
unfolding replace_certificate
replace_certificate-cases v [] = inl (refl, refl)
replace_certificate-cases v (c ∷ certs) = elim (Bool-cases (v.certificate_id == c.certificate_id)) [
  | inl e ↦ inr (rw e (_, refl, refl, refl))
  | inr e ↦ elim (replace_certificate-cases v certs) [
    | inl (none_there, not_there) ↦ inl (rw (e, none_there) refl, rw e not_there)
    | inr (replaced, replaces, there, times) ↦ inr (
        rw (e, replaces)
          (c ∷ replaced, refl, there, ap (◌∷◌ (c.certificate_id, c.send_after)) times))
  ]
]

merge_loop-cons :
    (v : ChargeStationInstallCertificate)
    (updates certs news : List ChargeStationInstallCertificate)
    → merge_loop (v ∷ updates) (certs, news)
      ≡ merge_loop updates (merge_into v (replace_certificate v certs) certs news)
unfolding merge_loop
merge_loop-cons v updates certs news = refl

merge_loop-times :
    (updates certs news : List ChargeStationInstallCertificate)
    → times_of ((merge_loop updates (certs, news)).0 ++ (merge_loop updates (certs, news)).1)
      ≡ times_of certs ++ times_of (news ++ not_stored (ids_of certs) updates)
unfolding merge_loop
merge_loop-times [] certs news =
    map-append _ certs news ∙ ap (λ l. times_of certs ++ times_of l) (sym (append-nil news))
merge_loop-times (v ∷ updates) certs news = elim (replace_certificate-cases v certs) [
  | inl (none_there, not_there) ↦
      rw
        (
          merge_loop-cons v updates certs news,
          none_there,
          not_there,
          merge_loop-times updates certs (news ++ (v ∷ [])),
        )
        (ap (λ l. times_of certs ++ times_of l)
          (append_assoc news (v ∷ []) (not_stored (ids_of certs) updates)))
  | inr (replaced, replaces, there, times) ↦
      rw
        (
          merge_loop-cons v updates certs news,
          replaces,
          there,
          merge_loop-times updates replaced news,
          times,
        )
        refl
]

-- The first certificate with the id, and the last one.
abbrev pub first_with :
    String → List ChargeStationInstallCertificate → Option ChargeStationInstallCertificate
first_with id [] = none
first_with id (c ∷ certs) = if c.certificate_id == id then some c else first_with id certs

abbrev last_of :
    Option ChargeStationInstallCertificate
    → Option ChargeStationInstallCertificate
    → Option ChargeStationInstallCertificate
last_of earlier none = earlier
last_of earlier (some later) = some later

abbrev pub last_with :
    String → List ChargeStationInstallCertificate → Option ChargeStationInstallCertificate
last_with id [] = none
last_with id (c ∷ certs) =
    last_of (if c.certificate_id == id then some c else none) (last_with id certs)

-- A stored certificate with what an update says of it, but at its own time of sending.
abbrev pub updated_by :
    ChargeStationInstallCertificate
    → Option ChargeStationInstallCertificate
    → ChargeStationInstallCertificate
updated_by c none = c
updated_by c (some v) = record {
  certificate_type = v.certificate_type;
  certificate_id = c.certificate_id;
  certificate_data = v.certificate_data;
  certificate_installation_status = v.certificate_installation_status;
  send_after = c.send_after;
}

-- What is known of an id after an update: with the stored certificate, if there is one, and else
-- with what the update brings.
abbrev pub after_update :
    Option ChargeStationInstallCertificate
    → Option ChargeStationInstallCertificate
    → Option ChargeStationInstallCertificate
    → Option ChargeStationInstallCertificate
after_update none first last = first
after_update (some c) first last = some (updated_by c last)

abbrev Replaced :
    ChargeStationInstallCertificate
    → List ChargeStationInstallCertificate
    → String
    → Option (List ChargeStationInstallCertificate)
    → Type 0
Replaced v certs id none = first_with v.certificate_id certs ≡ none
Replaced v certs id (some replaced) =
    (is_some (first_with v.certificate_id certs) ≡ true)
    × (first_with id replaced ≡ (
        if v.certificate_id == id
        then after_update (first_with id certs) none (some v)
        else first_with id certs))

cons_replaced-Replaced :
    (v c : ChargeStationInstallCertificate) (certs : List ChargeStationInstallCertificate)
    (id : String) (o : Option (List ChargeStationInstallCertificate))
    → (v.certificate_id == c.certificate_id) ≡ false
    → Replaced v certs id o
    → Replaced v (c ∷ certs) id (cons_replaced c o)
cons_replaced-Replaced v c certs id none e h =
    ground
      (arith, eq_iff v.certificate_id c.certificate_id, eq_iff c.certificate_id v.certificate_id)
cons_replaced-Replaced v c certs id (some replaced) e h = ground (
  arith,
  eq_iff v.certificate_id c.certificate_id,
  eq_iff c.certificate_id v.certificate_id,
  eq_iff c.certificate_id id,
  eq_iff v.certificate_id id,
)

replace_certificate-Replaced :
    (v : ChargeStationInstallCertificate) (certs : List ChargeStationInstallCertificate)
    (id : String)
    → Replaced v certs id (replace_certificate v certs)
unfolding replace_certificate
replace_certificate-Replaced v [] id = refl
replace_certificate-Replaced v (c ∷ certs) id =
    elim (Bool-cases (v.certificate_id == c.certificate_id)) [
      | inl e ↦ rw e (
          ground (
            arith,
            eq_iff v.certificate_id c.certificate_id,
            eq_iff c.certificate_id v.certificate_id,
            eq_iff c.certificate_id id,
            eq_iff v.certificate_id id,
          ))
      | inr e ↦ rw e (
          cons_replaced-Replaced v c certs id (replace_certificate v certs) e
            (replace_certificate-Replaced v certs id))
    ]

first_with-append :
    (id : String) (certs others : List ChargeStationInstallCertificate)
    → first_with id (certs ++ others)
      ≡ after_update (first_with id certs) (first_with id others) none
first_with-append id [] others = refl
first_with-append id (c ∷ certs) others = elim (Bool-cases (c.certificate_id == id)) [
  | inl e ↦ rw e refl
  | inr e ↦ rw e (first_with-append id certs others)
]

last_of-none : (o : Option ChargeStationInstallCertificate) → last_of none o ≡ o
last_of-none none = refl
last_of-none (some c) = refl

-- A new certificate says nothing of an id that is stored.
after_new :
    (b : Bool) (v : ChargeStationInstallCertificate)
    (stored first last : Option ChargeStationInstallCertificate)
    → (b ≡ true → stored ≡ none)
    → after_update stored first last
      ≡ after_update stored first (last_of (if b then some v else none) last)
after_new true v stored first last h = rw (h refl) refl
after_new false v stored first last h = rw (last_of-none last) refl

updated_twice :
    (c v : ChargeStationInstallCertificate) (last : Option ChargeStationInstallCertificate)
    → updated_by (updated_by c (some v)) last ≡ updated_by c (last_of (some v) last)
updated_twice c v none = refl
updated_twice c v (some w) = refl

-- A replaced certificate, and what the rest of the update says of it.
after_replaced :
    (b : Bool) (v : ChargeStationInstallCertificate)
    (stored replaced first later last : Option ChargeStationInstallCertificate)
    → replaced ≡ (if b then after_update stored none (some v) else stored)
    → (b ≡ true → is_some stored ≡ true)
    → (b ≡ false → first ≡ later)
    → after_update replaced first last
      ≡ after_update stored later (last_of (if b then some v else none) last)
after_replaced true v none replaced first later last e h k = absurd (cc (h refl))
after_replaced true v (some c) replaced first later last e h k =
    rw e (ap some (updated_twice c v last))
after_replaced false v stored replaced first later last e h k =
    rw (e, k refl, last_of-none last) refl

first_with-other :
    (id : String) (v : ChargeStationInstallCertificate)
    (news updates : List ChargeStationInstallCertificate)
    → (v.certificate_id == id) ≡ false
    → first_with id (news ++ updates) ≡ first_with id (news ++ (v ∷ updates))
first_with-other id v [] updates e = rw e refl
first_with-other id v (c ∷ news) updates e = ground (arith, first_with-other id v news updates e)

same_id :
    (v : ChargeStationInstallCertificate) (id : String)
    (certs : List ChargeStationInstallCertificate)
    → (v.certificate_id == id) ≡ true
    → first_with v.certificate_id certs ≡ first_with id certs
same_id v id certs e = ap (λ i. first_with i certs) ((eq_iff v.certificate_id id).0 e)

merge_loop-first :
    (id : String) (updates certs news : List ChargeStationInstallCertificate)
    → let (replaced, new_certs) = merge_loop updates (certs, news) in
      first_with id (replaced ++ new_certs)
      ≡ after_update (first_with id certs) (first_with id (news ++ updates)) (last_with id updates)
unfolding merge_loop
merge_loop-first id [] certs news = first_with-append id certs news ∙ rw (append-nil news) refl
merge_loop-first id (v ∷ updates) certs news = elim (Option-cases (replace_certificate v certs)) [
  | inl e ↦
      (let absent = rw e at (replace_certificate-Replaced v certs id) in
        rw
          (
            merge_loop-cons v updates certs news,
            e,
            merge_loop-first id updates certs (news ++ (v ∷ [])),
            append_assoc news,
          )
          (after_new (v.certificate_id == id) v (first_with id certs) _ (last_with id updates)
            (λ same. sym (same_id v id certs same) ∙ absent)))
  | inr (replaced, e) ↦
      (let (stored, changed) = rw e at (replace_certificate-Replaced v certs id) in
        rw (merge_loop-cons v updates certs news, e, merge_loop-first id updates replaced news)
          (after_replaced (v.certificate_id == id) v (first_with id certs) (first_with id replaced)
            _ _ (last_with id updates) changed
            (λ same. ap is_some (sym (same_id v id certs same)) ∙ stored)
            (first_with-other id v news updates)))
]

-- After an update of a station's certificates, the stored ones are there in the same order, each
-- with its id and its time of sending, and behind them, in the update's order, the ones whose id
-- was not stored. The certificate with an id has the type, data and status of the last one of the
-- update with that id, and its own where there is none; an id that was not stored has the first of
-- the update.
pub merge_certificates_lem :
    (updates certs : List ChargeStationInstallCertificate)
    → (times_of (merge_certificates updates certs)
        ≡ times_of certs ++ times_of (not_stored (ids_of certs) updates))
      × ((id : String)
          → first_with id (merge_certificates updates certs)
            ≡ after_update (first_with id certs) (first_with id updates) (last_with id updates))
unfolding merge_certificates
merge_certificates_lem updates certs =
    (merge_loop-times updates certs [], λ id. merge_loop-first id updates certs [])
