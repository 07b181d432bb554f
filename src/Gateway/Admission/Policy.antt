-- ===== src/Gateway/Admission/Policy.antt =====
-- gateway/server/ws.go: who may connect, in the words of the security profiles,
-- and that the handler lets in exactly those.
use maeve_csms_reservations.Prelude.{
  ◌≡◌, refl, ◌≢◌, ◌↔◌, ◌⊎◌, inl, inr, zero, suc, String, Bool, true, Option, none, some, List, [],
  ◌∷◌, ◌==◌, eq_iff, any, Bool-cases, eq-false, ne_of_eq-false, arith, ap, subst, eq_refl,
}
use maeve_csms_reservations.Prelude.Int.{ℤ, pos}
use maeve_csms_reservations.Prelude.Result.{Result, ok, err}
use maeve_csms_reservations.Gateway.Admission.{
  Certificate, ChargeStation, Request, DeviceRegistry, contains, check_credentials,
  check_authorization, check_certificate, accepted, accept_if, check_profile, admit_station, admit,
}

-- `Member x l`: x stands in l.
pub data Member {ℓ} {A : Type ℓ} (x : A) : List A → Type ℓ where
  at_first : {xs : List A} → Member x (x ∷ xs)
  later : {y : A} {xs : List A} → Member x xs → Member x (y ∷ xs)

any-Member {ℓ} :
    {A : Type ℓ} (p : A → Bool) (l : List A) → any p l ≡ true → (x : A) × Member x l × (p x ≡ true)
any-Member p [] h = ground arith
any-Member p (y ∷ l) h = elim (Bool-cases (p y)) [
  | inl e ↦ (y, at_first, e)
  | inr e ↦ (let (x, m, k) = any-Member p l (cc (h, e)) in (x, later m, k))
]

Member-any {ℓ} :
    {A : Type ℓ} (p : A → Bool) {x : A} {l : List A} → Member x l → p x ≡ true → any p l ≡ true
Member-any p at_first h = ground arith
Member-any p (later m) h = ground (arith, Member-any p m h)

contains-Member : (l : List String) (x : String) → contains l x ≡ true → Member x l
contains-Member l x h =
    let (y, m, e) = any-Member (λ y. y == x) l h in subst (λ z. Member z l) ((eq_iff y x).0 e) m

Member-contains : {l : List String} {x : String} → Member x l → contains l x ≡ true
Member-contains {l} {x} m = Member-any (λ y. y == x) m (eq_refl x)

-- A name and password that the charge station may use.
abbrev pub HasPassword : (String → String) → Request → ChargeStation → Type 0
HasPassword hash r cs =
    (username : String) × (password : String) × (r.basic_auth ≡ some (username, password))
    × ((username ≡ cs.client_id) ⊎ (cs.invalid_username_allowed ≡ true))
    × (hash password ≡ cs.base64_sha256_password)

-- The peer's own certificate names an organization of the list.
abbrev pub HasCertificate : List String → Request → Type 0
HasCertificate org_names r =
    (leaf : Certificate) × (rest : List Certificate) × (org : String) × (r.tls ≡ some (leaf ∷ rest))
    × Member org leaf.organization
    × Member org org_names

-- The three security profiles of OCPP.
pub data MayConnect (hash : String → String) (org_names : List String) (r : Request)
    (cs : ChargeStation) : Type 0 where
  unsecured :
      cs.security_profile ≡ pos 0
      → r.tls ≡ none
      → HasPassword hash r cs
      → MayConnect hash org_names r cs
  secured :
      {peers : List Certificate}
      → cs.security_profile ≡ pos 1
      → r.tls ≡ some peers
      → HasPassword hash r cs
      → MayConnect hash org_names r cs
  certified :
      cs.security_profile ≡ pos 2 → HasCertificate org_names r → MayConnect hash org_names r cs

check_credentials_sound :
    (hash : String → String) (basic_auth : Option (String × String)) (cs : ChargeStation)
    → check_credentials hash basic_auth cs ≡ true
    → (username : String) × (password : String) × (basic_auth ≡ some (username, password))
      × ((username ≡ cs.client_id) ⊎ (cs.invalid_username_allowed ≡ true))
      × (hash password ≡ cs.base64_sha256_password)
check_credentials_sound hash none cs h = ground arith
check_credentials_sound hash (some (username, password)) cs h =
    elim (Bool-cases (username == cs.client_id)) [
      | inl e ↦ (
        username,
        password,
        refl,
        inl ((eq_iff username cs.client_id).0 e),
        (eq_iff (hash password) cs.base64_sha256_password).0 (ground arith),
      )
      | inr e ↦ (
        username,
        password,
        refl,
        inr (ground arith),
        (eq_iff (hash password) cs.base64_sha256_password).0 (ground arith),
      )
    ]

check_authorization-HasPassword :
    (hash : String → String) (r : Request) (cs : ChargeStation)
    → check_authorization hash r cs ≡ true
    → HasPassword hash r cs
unfolding check_authorization
check_authorization-HasPassword hash r cs h = check_credentials_sound hash r.basic_auth cs h

HasPassword-check_authorization :
    (hash : String → String) (r : Request) (cs : ChargeStation)
    → HasPassword hash r cs
    → check_authorization hash r cs ≡ true
unfolding check_authorization
HasPassword-check_authorization hash r cs (username, password, e, who, h) =
    let same = (eq_iff (hash password) cs.base64_sha256_password).1 h in
    elim who [
      | inl w ↦ rw e (let k = (eq_iff username cs.client_id).1 w in ground arith)
      | inr w ↦ rw e (ground arith)
    ]

check_certificate-HasCertificate :
    (org_names : List String) (r : Request) (peers : List Certificate)
    → r.tls ≡ some peers
    → check_certificate peers org_names ≡ true
    → HasCertificate org_names r
unfolding check_certificate
check_certificate-HasCertificate org_names r [] e h = ground arith
check_certificate-HasCertificate org_names r (leaf ∷ rest) e h =
    let (org, m, k) = any-Member (λ org. contains org_names org) leaf.organization h in
    (leaf, rest, org, e, m, contains-Member org_names org k)

-- The check of the profile, for the `tls` of the request.
check_profile-MayConnect :
    (hash : String → String) (org_names : List String) (r : Request) (cs : ChargeStation)
    (profile : ℤ) (tls : Option (List Certificate))
    → cs.security_profile ≡ profile
    → r.tls ≡ tls
    → check_profile hash org_names profile tls r cs ≡ true
    → MayConnect hash org_names r cs
unfolding check_profile
check_profile-MayConnect hash org_names r cs (pos zero) none p e h =
    unsecured p e (check_authorization-HasPassword hash r cs h)
check_profile-MayConnect hash org_names r cs (pos (suc zero)) (some peers) p e h =
    secured p e (check_authorization-HasPassword hash r cs h)
check_profile-MayConnect hash org_names r cs (pos (suc (suc zero))) (some peers) p e h =
    certified p (check_certificate-HasCertificate org_names r peers e h)
check_profile-MayConnect hash org_names r cs _ _ p e h = ground arith

MayConnect-check_profile :
    (hash : String → String) (org_names : List String) (r : Request) (cs : ChargeStation)
    → MayConnect hash org_names r cs
    → check_profile hash org_names cs.security_profile r.tls r cs ≡ true
unfolding check_profile check_certificate
MayConnect-check_profile hash org_names r cs (unsecured p e h) =
    simp (p, e) (HasPassword-check_authorization hash r cs h)
MayConnect-check_profile hash org_names r cs (secured p e h) =
    simp (p, e) (HasPassword-check_authorization hash r cs h)
MayConnect-check_profile hash org_names r cs (certified p (leaf, rest, org, e, m, k)) =
    simp (p, e) (Member-any (λ o. contains org_names o) m (Member-contains k))

accept_if-accepted :
    (b : Bool) (found cs : ChargeStation)
    → accept_if b found ≡ accepted cs
    → (b ≡ true) × (found ≡ cs)
accept_if-accepted b found cs h = ground arith

admit_station-accepted :
    (hash : String → String) (org_names : List String) (r : Request)
    (answer : Result (Option ChargeStation)) (cs : ChargeStation)
    → admit_station hash org_names r answer ≡ accepted cs
    → (answer ≡ ok (some cs)) × (check_profile hash org_names cs.security_profile r.tls r cs ≡ true)
admit_station-accepted hash org_names r (err e) cs h = ground arith
admit_station-accepted hash org_names r (ok none) cs h = ground arith
admit_station-accepted hash org_names r (ok (some found)) cs h =
    let (t, same) =
      accept_if-accepted (check_profile hash org_names found.security_profile r.tls r found) found
        cs h in
    (
      ap (λ c. ok (some c)) same,
      subst (λ c. check_profile hash org_names c.security_profile r.tls r c ≡ true) same t,
    )

-- A request for a connection is accepted exactly if the registry knows the charge station of the
-- path, which has a name, and its security profile lets the request connect.
pub admit-accepted_iff :
    (hash : String → String) (org_names : List String) (registry : DeviceRegistry)
    (client_id : String) (r : Request) (cs : ChargeStation)
    → (admit hash org_names registry client_id r ≡ accepted cs) ↔ (
        (client_id ≢ "")
        × (registry.lookup_charge_station client_id ≡ ok (some cs))
        × MayConnect hash org_names r cs)
unfolding admit
admit-accepted_iff hash org_names registry client_id r cs = (
  (λ h. elim (Bool-cases (client_id == "")) [
    | inl e ↦ (ground arith)
    | inr e ↦
        (let (found, t) =
            admit_station-accepted hash org_names r (registry.lookup_charge_station client_id) cs
              (ground arith) in
          (
            ne_of_eq-false e,
            found,
            check_profile-MayConnect hash org_names r cs cs.security_profile r.tls refl refl t,
          ))
  ]),
  (λ (named, found, may).
      rw (eq-false named, found, MayConnect-check_profile hash org_names r cs may) refl),
)

pub MayConnect-certificate :
    {hash : String → String} {org_names : List String} {r : Request} {cs : ChargeStation}
    → cs.security_profile ≡ pos 2
    → MayConnect hash org_names r cs
    → HasCertificate org_names r
MayConnect-certificate two (unsecured p e h) = ground arith
MayConnect-certificate two (secured p e h) = ground arith
MayConnect-certificate two (certified p h) = h
