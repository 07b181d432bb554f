-- ===== src/Ocpi/Server.antt =====
-- manager/ocpi/server.go: the versions and the credentials; the data of the versions is that of
-- manager/ocpi/ocpi.go. The other handlers, but for those of Ocpi/Tokens.antt and of the start of a
-- session, only answer that they are not implemented.
use Prim.Native.String.{◌++◌}
use maeve_csms_reservations.Prelude.{String, some, List, [], ◌∷◌}
use maeve_csms_reservations.Prelude.Int.{pos}
use maeve_csms_reservations.Store.Engine.{Result, OcpiEngine}
use maeve_csms_reservations.Api.{Answer, replied, body, Handler, bound, calling}
use maeve_csms_reservations.Ocpi.{
  CredentialsMessage, Version, Endpoint, OcpiResponse, Libraries, Party,
}
use maeve_csms_reservations.Ocpi.Registration.{set_credentials}

pub record VersionDetail : Type 0 where
  pub endpoints : List Endpoint
  pub version : String

abbrev pub receiver : String → String → Endpoint
receiver identifier url = record { identifier = identifier; role = "RECEIVER"; url = url }

abbrev pub success : {A : Type 0} → A → Answer (OcpiResponse A)
success a = body (record { data_of = some a; status_code = pos 1000 })

module _ (self : Party) where
  abbrev pub own_versions : List Version
  own_versions = record { url = self.external_url ++ "/ocpi/2.2"; version = "2.2" } ∷ []

  abbrev pub own_version : VersionDetail
  own_version = record {
    endpoints =
        receiver "credentials" (self.external_url ++ "/ocpi/2.2/credentials")
        ∷ receiver "commands" (self.external_url ++ "/ocpi/receiver/2.2/commands")
        ∷ receiver "tokens" (self.external_url ++ "/ocpi/receiver/2.2/tokens/")
        ∷ [];
    version = "2.2";
  }

  module _ {S : Type 0} where
    abbrev pub get_versions : Handler S (OcpiResponse (List Version))
    get_versions s = (success own_versions, s)

    abbrev pub get_version : Handler S (OcpiResponse VersionDetail)
    get_version s = (success own_version, s)

    module _ (engine : OcpiEngine S) (lib : Libraries S) where
      -- `matches` is what the regular expression finds in the header `Authorization`.
      abbrev pub set_authorized : List String → CredentialsMessage → Handler S (Unit {0})
      unfolding set_credentials
      set_authorized (whole ∷ token ∷ []) creds s =
          calling (set_credentials engine lib self token creds) (λ done. replied 201) s
      set_authorized _ creds s = (replied 400, s)

      unfoldable pub post_credentials :
          List String → Result CredentialsMessage → Handler S (Unit {0})
      post_credentials matches request = bound request (set_authorized matches)
