-- ===== src/Tool/Records.antt =====
-- cmd/dnspersist-tool/core.go: the directories, the results and the records of the tool.
use cm_saas_letsencrypt_ca_c.Base.{
  Bool, Option, none, List, [], ◌∷◌, ◌++◌, Text, text, text_eq, if◌then◌else◌,
}
use cm_saas_letsencrypt_ca_c.Errors.{Result, ok, wrap_result, ◌>>=◌}
use cm_saas_letsencrypt_ca_c.Record.{Params, Record, generate}
use cm_saas_letsencrypt_ca_c.Live.{tool_issuer}
use cm_saas_letsencrypt_ca_c.Acme.Types.{Client, AccountKey}

abbrev pub dir_staging : Text
dir_staging = text "https://acme-staging-v02.api.letsencrypt.org/directory"

abbrev pub dir_prod : Text
dir_prod = text "https://acme-v02.api.letsencrypt.org/directory"

abbrev pub dir_url : Bool → Text
dir_url prod = if prod then dir_prod else dir_staging

abbrev pub record_value : Text → Text
record_value uri = tool_issuer ++ (text "; accounturi=" ++ uri)

pub record RecordLine : Type 0 where
  pub fqdn : Text
  pub value : Text

pub record DomainResult : Type 0 where
  pub domain : Text
  pub live : Bool

pub record PlanRecord : Type 0 where
  pub fqdn : Text
  pub value : Text
  pub covers : List Text
  pub live : Option Bool

pub record ZonePlan : Type 0 where
  pub zone : Text
  pub records : List PlanRecord

abbrev pub tool_params : Text → Bool → Text → Params
tool_params uri wildcard domain = record {
  domain = domain;
  issuer_domain = tool_issuer;
  account_uri = uri;
  wildcard = wildcard;
  persist_until = 0;
}

abbrev pub line_of : Record → RecordLine
line_of rec = record { fqdn = rec.fqdn; value = rec.value }

-- The loop of `opRecords`.
unfoldable pub record_lines : Text → Bool → List Text → Result (List RecordLine)
record_lines uri wildcard [] = ok []
record_lines uri wildcard (d ∷ ds) = do
  rec ← wrap_result d (generate (tool_params uri wildcard d))
  rest ← record_lines uri wildcard ds
  ok (line_of rec ∷ rest)

abbrev pub tool_client : Bool → AccountKey → Client
tool_client prod key = record {
  directory_url = dir_url prod;
  key = key;
  issuer_domain = tool_issuer;
  account_url = [];
  dir = none;
  nonce = [];
}

abbrev pub contact_list : Text → List Text
contact_list [] = []
contact_list (c ∷ contact) = (c ∷ contact) ∷ []

-- The entry of `byZone`, with the records added behind those before.
unfoldable pub add_records : Text → List PlanRecord → List ZonePlan → List ZonePlan
add_records zone recs [] = record { zone = zone; records = recs } ∷ []
add_records zone recs (z ∷ zones) =
    let rest = add_records zone recs zones in
    if text_eq z.zone zone
    then record { zone = z.zone; records = z.records ++ recs } ∷ zones
    else z ∷ rest
