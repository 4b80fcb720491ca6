-- ===== src/Responses.antt =====
-- internal/authentik/types.go: what Authentik's API answers. encoding/json is a parameter.
use authentik_operator.Prelude.{ℕ, String, Option, List}
use authentik_operator.Errors.{Result}
use authentik_operator.Certs.{Bytes}

pub record ApplicationResponse : Type 0 where
  pub pk : String
  pub slug : String
  pub name : String

pub record CertificateKeypair : Type 0 where
  pub pk : String
  pub name : String
  pub certificate_data : String
  pub fingerprint_sha256 : String
  pub cert_expiry : String

pub record OAuth2Provider : Type 0 where
  pub pk : ℕ
  pub name : String
  pub client_id : String
  pub client_secret : String
  pub client_type : String
  pub signing_key : Option String
  pub assigned_application_slug : String
  pub assigned_application_name : String
  pub redirect_uris : Bytes

pub record Pagination : Type 0 where
  pub count : ℕ
  pub next : Option ℕ
  pub total_pages : ℕ

pub record ProviderListResponse : Type 0 where
  pub pagination : Pagination
  pub results : List OAuth2Provider

pub record TokenViewKeyResponse : Type 0 where
  pub key : String

-- `tokenCreateRequest`, of internal/authentik/client.go
pub record TokenCreateRequest : Type 0 where
  pub identifier : String
  pub intent : String
  pub description : String

-- The uses of encoding/json. `structured` gives the field `url` of each object.
pub record JsonCodec : Type 0 where
  pub application : Bytes → Result ApplicationResponse
  pub provider_list : Bytes → Result ProviderListResponse
  pub certificate : Bytes → Result CertificateKeypair
  pub view_key : Bytes → Result TokenViewKeyResponse
  pub marshal_token : TokenCreateRequest → Result Bytes
  pub structured : Bytes → Result (List String)
  pub plain : Bytes → Result (List String)
