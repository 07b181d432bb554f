-- ===== src/Ocpi/Credentials.antt =====
-- manager/ocpi/ocpi.go, `SetCredentials`, with manager/store/inmemory/store.go: the tokens that may be
-- used before and after a party is registered.
use maeve_csms_reservations.Prelude.{
  ◌≡◌, refl, ap, sym, ◌∙◌, ◌≢◌, String, some, List, [], ◌∷◌, eq-false, eq_refl,
}
use maeve_csms_reservations.Prelude.Dict.{lookup, remove, lookup-insert, lookup-remove}
use maeve_csms_reservations.Store.{OcpiRegistration}
use maeve_csms_reservations.Store.Engine.{ok, err, Action, ◌>>=◌}
use maeve_csms_reservations.Store.InMemory.{Store}
use maeve_csms_reservations.Store.InMemory.Records.{
  get_registration_details, set_registration_details, delete_registration_details,
  set_party_details,
}
use maeve_csms_reservations.Store.InMemory.AsEngine.{in_memory_ocpi}
use maeve_csms_reservations.Ocpi.{Role, CredentialsMessage, Libraries, Party}
use maeve_csms_reservations.Ocpi.Registration.{
  set_parties, register_new_party, set_credentials, authenticate, check_registration, registered,
  party_of,
}

-- When the first of two actions succeeds.
bind-ok :
    {S A B : Type 0} (m : Action S A) (f : A → Action S B) {s t : S} {a : A}
    → m s ≡ (ok a, t)
    → (m >>= f) s ≡ f a t
bind-ok m f e = rw e refl

module _ {F : Type 0} where
  abbrev pub with_parties : CredentialsMessage → Store F → Store F
  with_parties c s = (set_parties in_memory_ocpi c.url c.token c.roles s).1

  set_parties-ok :
      (url token : String) (roles : List Role) (s : Store F)
      → (set_parties in_memory_ocpi url token roles s).0 ≡ ok tt
  unfolding set_parties
  set_parties-ok url token [] s = refl
  set_parties-ok url token (r ∷ roles) s =
      set_parties-ok url token roles (set_party_details (party_of url token r) s)

  set_parties-registrations :
      (url token : String) (roles : List Role) (s : Store F)
      → (set_parties in_memory_ocpi url token roles s).1.registrations ≡ s.registrations
  unfolding set_parties set_party_details
  set_parties-registrations url token [] s = refl
  set_parties-registrations url token (r ∷ roles) s =
      set_parties-registrations url token roles (set_party_details (party_of url token r) s)

  -- The state when the pending token has been replaced.
  abbrev pub replaced : String → String → Store F → Store F
  replaced token new_token t =
      set_registration_details new_token registered (delete_registration_details token t)

  authenticate-replaced :
      (whole token new_token method path : String) (t : Store F)
      → (authenticate in_memory_ocpi
          (whole ∷ new_token ∷ [])
          method
          path
          (replaced token new_token t)).0
        ≡ ok tt
  unfolding authenticate check_registration get_registration_details set_registration_details
  authenticate-replaced whole token new_token method path t =
      rw
        (lookup-insert new_token new_token registered
          (delete_registration_details token t).registrations)
        (rw (eq_refl new_token) refl)

  authenticate-deleted :
      (whole token new_token method path : String) (t : Store F)
      → token ≢ new_token
      → (authenticate in_memory_ocpi
          (whole ∷ token ∷ [])
          method
          path
          (replaced token new_token t)).0
        ≡ err "unknown token"
  unfolding authenticate check_registration get_registration_details set_registration_details
      delete_registration_details
  authenticate-deleted whole token new_token method path t d =
      rw (lookup-insert new_token token registered (remove token t.registrations)) (
        rw (eq-false (λ e. d (sym e)))
          (rw (lookup-remove token token t.registrations) (rw (eq_refl token) refl)))

  module _ (lib : Libraries (Store F)) (self : Party) where
    set_credentials-pending :
        (token : String) (c : CredentialsMessage) (reg : OcpiRegistration) (s t : Store F)
        → lookup token s.registrations ≡ some reg
        → reg.status ≡ "pending"
        → register_new_party in_memory_ocpi lib self c.url c.token (with_parties c s) ≡ (ok tt, t)
        → set_credentials in_memory_ocpi lib self token c s ≡ (ok tt, replaced token c.token t)
    unfolding set_credentials get_registration_details
    set_credentials-pending token c reg s t found pending handshake =
        bind-ok (set_parties in_memory_ocpi c.url c.token c.roles) _
          (ap (λ r. (r, with_parties c s)) (set_parties-ok c.url c.token c.roles s))
        ∙ rw (set_parties-registrations c.url c.token c.roles s)
            (rw found (rw pending (rw handshake refl)))

    -- With the in-memory store, if the registration of a token is pending, the token differs from the
    -- new one, and the handshake with the new party succeeds, then so does setting the credentials,
    -- and afterwards a request with the new token is admitted, whatever it asks for, and no request
    -- with the old token is.
    pub set_credentials-replaces :
        (token : String) (c : CredentialsMessage) (reg : OcpiRegistration) (s t : Store F)
        → lookup token s.registrations ≡ some reg
        → reg.status ≡ "pending"
        → token ≢ c.token
        → register_new_party in_memory_ocpi lib self c.url c.token (with_parties c s) ≡ (ok tt, t)
        → let (r, after) = set_credentials in_memory_ocpi lib self token c s in
          (r ≡ ok tt)
          × ((whole method path : String)
              → (authenticate in_memory_ocpi (whole ∷ c.token ∷ []) method path after).0 ≡ ok tt)
          × ((whole method path : String)
              → (authenticate in_memory_ocpi (whole ∷ token ∷ []) method path after).0
                ≡ err "unknown token")
    set_credentials-replaces token c reg s t found pending differ handshake =
        let done = set_credentials-pending token c reg s t found pending handshake in
        (
          ap (λ r. r.0) done,
          λ whole method path.
              ap (λ r. (authenticate in_memory_ocpi (whole ∷ c.token ∷ []) method path r.1).0) done
              ∙ authenticate-replaced whole token c.token method path t,
          λ whole method path.
              ap (λ r. (authenticate in_memory_ocpi (whole ∷ token ∷ []) method path r.1).0) done
              ∙ authenticate-deleted whole token c.token method path t differ,
        )
