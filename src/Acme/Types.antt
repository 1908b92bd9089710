-- ===== src/Acme/Types.antt =====
-- The ACME resources of internal/acme/types.go, the client of internal/acme/client.go and what goes
-- over the wire.
use cm_saas_letsencrypt_ca_c.Base.{ℕ, Bool, Option, List, Text, text}
use cm_saas_letsencrypt_ca_c.Errors.{Problem, Identifier}

abbrev pub challenge_dns_persist_01 : Text
challenge_dns_persist_01 = text "dns-persist-01"

abbrev pub status_pending : Text
status_pending = text "pending"

abbrev pub status_processing : Text
status_processing = text "processing"

abbrev pub status_valid : Text
status_valid = text "valid"

abbrev pub status_invalid : Text
status_invalid = text "invalid"

pub record Directory : Type 0 where
  pub new_nonce : Text
  pub new_account : Text
  pub new_order : Text
  pub revoke_cert : Text
  pub key_change : Text
  pub terms_of_service : Text
  pub website : Text
  pub caa_identities : List Text
  pub external_account_required : Bool

pub record Order : Type 0 where
  pub status : Text
  pub expires : Text
  pub identifiers : List Identifier
  pub authorizations : List Text
  pub finalize : Text
  pub certificate : Text
  pub error : Option Problem
  pub url : Text

pub record Challenge : Type 0 where
  pub kind : Text
  pub url : Text
  pub status : Text
  pub token : Text
  pub error : Option Problem
  pub account_uri : Text
  pub issuer_domain_names : List Text

pub record Authorization : Type 0 where
  pub status : Text
  pub identifier : Identifier
  pub challenges : List Challenge
  pub wildcard : Bool
  pub expires : Text

-- An ECDSA P-256 key: the secret scalar and the coordinates of the public point.
pub record AccountKey : Type 0 where
  pub secret : ℕ
  pub x : ℕ
  pub y : ℕ

-- `dir` and `nonce` are the cached directory and the cached replay nonce, empty for none.
pub record Client : Type 0 where
  pub directory_url : Text
  pub key : AccountKey
  pub issuer_domain : Text
  pub account_url : Text
  pub dir : Option Directory
  pub nonce : Text

pub record Jwk : Type 0 where
  pub crv : Text
  pub kty : Text
  pub x : Text
  pub y : Text

-- The protected header of a request: `kid` or `jwk` is there, never both.
pub record Header : Type 0 where
  pub alg : Text
  pub nonce : Text
  pub url : Text
  pub kid : Option Text
  pub jwk : Option Jwk

-- The flattened JWS: the three members that are sent, and the header that the first one encodes.
pub record Signed : Type 0 where
  pub header : Header
  pub protected : Text
  pub payload : Text
  pub signature : Text

pub data Request : Type 0 where
  get : Text → Request
  head : Text → Request
  post : Text → Signed → Request

-- `replay_nonce` and `location` are the two headers that the client reads, empty when absent.
pub record Response : Type 0 where
  pub status : ℕ
  pub body : Text
  pub replay_nonce : Text
  pub location : Text

-- The values that the client marshals to JSON.
pub data Payload : Type 0 where
  registration : List Text → Payload
  existing_only : Payload
  identifiers : List Identifier → Payload
  csr : Text → Payload
  revocation : Text → Option ℕ → Payload
