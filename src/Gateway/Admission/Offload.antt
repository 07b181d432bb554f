-- ===== src/Gateway/Admission/Offload.antt =====
-- gateway/server/middleware.go: what a certificate that a proxy passes on is worth.
use maeve_csms_reservations.Prelude.{◌≡◌, String, true, some, List, ◌∷◌, eq_iff, arith}
use maeve_csms_reservations.Prelude.Int.{pos}
use maeve_csms_reservations.Prelude.Result.{ok}
use maeve_csms_reservations.Gateway.Admission.{
  Certificate, ChargeStation, ProxyHeaders, Request, DeviceRegistry, accepted, admit, ParseBool,
  offloaded_certificates, tls_offload,
}
use maeve_csms_reservations.Gateway.Admission.Policy.{
  Member, MayConnect-certificate, admit-accepted_iff,
}

-- The certificates that a proxy vouches for.
offloaded_certificates-found :
    (parse_bool : ParseBool) (registry : DeviceRegistry) (h : ProxyHeaders) {leaf : Certificate}
    {rest : List Certificate}
    → offloaded_certificates parse_bool registry h ≡ leaf ∷ rest
    → (parse_bool h.client_cert_present ≡ some true)
      × (parse_bool h.client_cert_chain_verified ≡ some true)
      × (registry.lookup_certificate h.client_cert_hash ≡ ok (some leaf))
unfolding offloaded_certificates
offloaded_certificates-found parse_bool registry h e = ground arith

tls_offload-tls :
    (parse_bool : ParseBool) (registry : DeviceRegistry) (r : Request)
    → r.proxy_headers.forwarded_proto ≡ "https"
    → (tls_offload parse_bool registry r).tls
      ≡ some (offloaded_certificates parse_bool registry r.proxy_headers)
unfolding tls_offload
tls_offload-tls parse_bool registry r https =
    let e = (eq_iff r.proxy_headers.forwarded_proto "https").1 https in ground arith

-- Behind a proxy that forwards https, a charge station whose security profile asks for a
-- certificate is accepted only if the proxy says that a certificate is present and verified, and
-- the registry has it under the proxy's hash, with an organization that is trusted.
pub admit-tls_offload :
    (hash : String → String) (org_names : List String) (parse_bool : ParseBool)
    (registry : DeviceRegistry) (client_id : String) (r : Request) (cs : ChargeStation)
    → r.proxy_headers.forwarded_proto ≡ "https"
    → cs.security_profile ≡ pos 2
    → admit hash org_names registry client_id (tls_offload parse_bool registry r) ≡ accepted cs
    → let h = r.proxy_headers in
      (parse_bool h.client_cert_present ≡ some true)
      × (parse_bool h.client_cert_chain_verified ≡ some true)
      × ((leaf : Certificate) × (registry.lookup_certificate h.client_cert_hash ≡ ok (some leaf))
          × ((org : String) × Member org leaf.organization × Member org org_names))
admit-tls_offload hash org_names parse_bool registry client_id r cs https two e =
    let offloaded = tls_offload parse_bool registry r in
    let iff = admit-accepted_iff hash org_names registry client_id offloaded cs in
    let (_, _, may) = iff.0 e in
    let (leaf, rest, org, peers, m, k) = MayConnect-certificate two may in
    let (present, verified, found) =
      offloaded_certificates-found parse_bool registry r.proxy_headers {leaf = leaf} {rest = rest}
        (cc (peers, tls_offload-tls parse_bool registry r https)) in
    (present, verified, (leaf, found, (org, m, k)))
