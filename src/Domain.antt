-- ===== src/Domain.antt =====
-- internal/app/domain: the values that the certificate manager sends and receives.
use cm_saas_letsencrypt_ca_c.Base.{Bool, Option, List, Text}

pub record Configuration : Type 0 where
  pub directory_url : Text
  pub issuer_domain : Text
  pub contact : Text
  pub dcv_mode : Text
  pub dns_provider : Text
  pub hosted_zone_id : Text
  pub verification_domains : Text

pub record Credentials : Type 0 where
  pub account_key : Text
  pub access_key_id : Text
  pub secret_access_key : Text

pub record Connection : Type 0 where
  pub configuration : Configuration
  pub credentials : Credentials

pub data OrderStatus : Type 0 where
  pending processing completed failed : OrderStatus

pub record OrderDetails : Type 0 where
  pub id : Text
  pub status : OrderStatus
  pub certificate_id : Text
  pub error_message : Text

pub data CertificateStatus : Type 0 where
  pending requested issued failed : CertificateStatus

pub record CertificateDetails : Type 0 where
  pub id : Text
  pub status : CertificateStatus
  pub certificate : Text
  pub chain : List Text
  pub error_message : Text

pub data ImportStatus : Type 0 where
  completed uncompleted : ImportStatus

pub record ImportCertificate : Type 0 where
  pub id : Text
  pub certificate : Text
  pub chain : List Text

pub record ImportDetails : Type 0 where
  pub import_status : ImportStatus
  pub last_processed_certificate_id : Text
  pub import_certificates : List ImportCertificate

pub data RevocationStatus : Type 0 where
  submitted failed : RevocationStatus

-- Of the revocation data the code reads the certificate content alone.
pub record CertificateRevocationData : Type 0 where
  pub serial_number : Text
  pub ca_certificate_identifier : Text
  pub ca_order_identifier : Text
  pub fingerprint : Text
  pub issuer_dn : Text
  pub certificate_content : Text

pub record RevocationDetails : Type 0 where
  pub status : RevocationStatus
  pub error_message : Option Text

pub data ProductType : Type 0 where
  ssl : ProductType

pub record ProductDetails : Type 0 where
  pub profile_id : Text
  pub profile_name : Text
  pub trust_type : Text
  pub signature_algorithm : Text
  pub allowed_key_sizes : List Text

pub record ProductOption : Type 0 where
  pub name : Text
  pub types : List ProductType
  pub details : ProductDetails

-- The user's choices for a product: none at present.
pub record Product : Type 0 where

pub record ProductError : Type 0 where
  pub attribute_name : Text
  pub attribute_value : Text

pub record ImportSettings : Type 0 where
  pub profile_id : Text

pub record ImportOption : Type 0 where
  pub name : Text
  pub description : Text
  pub settings : ImportSettings

pub record ImportConfiguration : Type 0 where
  pub include_expired_certificates : Bool
