-- ===== src/Tool/Cli/Flags.antt =====
-- cmd/dnspersist-tool/main.go: the flags of the commands.
use cm_saas_letsencrypt_ca_c.Base.{Bool, Text}

pub record NewAccountFlags : Type 0 where
  pub out : Text
  pub contact : Text
  pub prod : Bool

pub record RecordsFlags : Type 0 where
  pub key : Text
  pub domains : Text
  pub wildcard : Bool
  pub email : Bool
  pub prod : Bool

pub record ValidateFlags : Type 0 where
  pub key : Text
  pub domains : Text
  pub prod : Bool

pub record PlanFlags : Type 0 where
  pub cert : Text
  pub key : Text
  pub prod : Bool
  pub validate : Bool

pub record OnboardFlags : Type 0 where
  pub cm_key : Text
  pub name : Text
  pub key : Text
  pub gen_key : Bool
  pub out : Text
  pub domains : Text
  pub plugin : Text
  pub app : Bool
  pub prod : Bool
