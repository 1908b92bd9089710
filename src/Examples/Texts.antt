-- ===== src/Examples/Texts.antt =====
-- Records, names and texts to try the program on.
use cm_saas_letsencrypt_ca_c.Examples.Runs.{two_names}
use cm_saas_letsencrypt_ca_c.Base.{
  append-nil, sym, true, inl, inr, ◌≢◌, arith, trim_suffix, join, ◌≡◌, refl, false, Text, List, [],
  ◌∷◌, ◌++◌, All, text, lower_char, eq_fold, trim_space, has_suffix, contains, index_of,
  replace_char, fields_func,
}
use cm_saas_letsencrypt_ca_c.Record.{
  base_of, is_wildcard, normal_issuer, fields_of, generate, Params, Record,
}
use cm_saas_letsencrypt_ca_c.Record.Quoting.{IsPrintable}
use cm_saas_letsencrypt_ca_c.Record.Written.{IsPadded, IsGiven}
use cm_saas_letsencrypt_ca_c.Tool.Records.{RecordLine, record_lines}
use cm_saas_letsencrypt_ca_c.Base.Trim.{HasNoSpace}
use cm_saas_letsencrypt_ca_c.Names.Pasted.{Item, IsPasted, separates}
use cm_saas_letsencrypt_ca_c.Errors.{ok}

abbrev pub lab_params : Params
lab_params = record {
  domain = text "*.Example.com.";
  issuer_domain = text "LetsEncrypt.org";
  account_uri = text "https://ca/acct/12";
  wildcard = false;
  persist_until = 0;
}

abbrev pub lab_record : Record
lab_record = record {
  fqdn = text "_validation-persist.example.com";
  kind = text "TXT";
  value = text "letsencrypt.org; accounturi=https://ca/acct/12; policy=wildcard";
}

pub record_runs : generate lab_params ≡ ok lab_record
unfolding text lower_char eq_fold trim_space has_suffix trim_suffix contains index_of replace_char
    join fields_func base_of is_wildcard normal_issuer fields_of generate
record_runs = refl

pub lab_record-IsPrintable : IsPrintable lab_record.value
unfolding text
lab_record-IsPrintable = ground (arith)

pub issuer-HasNoSpace : HasNoSpace (trim_space lab_params.issuer_domain)
unfolding text trim_space lower_char
issuer-HasNoSpace = (
  refl,
  (
    refl,
    (
      refl,
      (
        refl,
        (refl, (refl, (refl, (refl, (refl, (refl, (refl, (refl, (refl, (refl, (refl, tt))))))))))),
      ),
    ),
  ),
)

pub uri-HasNoSpace : HasNoSpace (lab_params.account_uri)
unfolding text trim_space lower_char
uri-HasNoSpace = (
  refl,
  (
    refl,
    (
      refl,
      (
        refl,
        (
          refl,
          (
            refl,
            (
              refl,
              (
                refl,
                (refl, (refl, (refl, (refl, (refl, (refl, (refl, (refl, (refl, (refl, tt)))))))))),
              ),
            ),
          ),
        ),
      ),
    ),
  ),
)

pub prefix-HasNoSpace : HasNoSpace (text "https://ca/acct/1")
unfolding text trim_space lower_char
prefix-HasNoSpace = (
  refl,
  (
    refl,
    (
      refl,
      (
        refl,
        (
          refl,
          (
            refl,
            (
              refl,
              (refl, (refl, (refl, (refl, (refl, (refl, (refl, (refl, (refl, (refl, tt)))))))))),
            ),
          ),
        ),
      ),
    ),
  ),
)

pub uri_extended : trim_space lab_params.account_uri ≡ text "https://ca/acct/1" ++ text "2"
unfolding text trim_space lower_char
uri_extended = refl

padded_lem : (given : Text) → HasNoSpace given → given ≢ [] → IsPadded given given
padded_lem given clear n = record {
  before = [];
  behind = [];
  blank_before = tt;
  blank_behind = tt;
  shape = sym (append-nil given);
  solid = clear;
  some_there = n;
}

pub issuer-IsPadded : IsPadded lab_params.issuer_domain (text "LetsEncrypt.org")
unfolding text
issuer-IsPadded = padded_lem (text "LetsEncrypt.org") (ground (arith)) (λ e. cc)

pub uri-IsPadded : IsPadded lab_params.account_uri (text "https://ca/acct/12")
unfolding text
uri-IsPadded = padded_lem (text "https://ca/acct/12") (ground (arith)) (λ e. cc)

pub domain-IsGiven : IsGiven lab_params.domain (text "Example.com") true true
unfolding text has_suffix
domain-IsGiven = record {
  padded = padded_lem (text "*.Example.com.") (ground (arith)) (λ e. cc);
  solid = ground (arith);
  some_there = λ e. cc;
  no_star = refl;
  no_dot = refl;
}

abbrev bare_item : Item
bare_item = record { field = text "a.de"; domain = text "a.de" }

abbrev shown_item : Item
shown_item = record { field = text "_validation-persist.*.B.de."; domain = text "b.de" }

-- The first domain comes again behind the second.
abbrev pub pasted_items : List Item
pasted_items = bare_item ∷ shown_item ∷ bare_item ∷ []

bare-IsPasted : IsPasted bare_item
unfolding text lower_char
bare-IsPasted = record {
  is_domain = record {
    start = text "a.d";
    last = b'e';
    ends = refl;
    no_dot_behind = refl;
    no_dot_before = refl;
    no_label = refl;
    no_star = refl;
  };
  before = [];
  lead = [];
  behind = [];
  dots_before = tt;
  is_lead = inl refl;
  dots_behind = tt;
  shape = refl;
  some_there = λ e. cc;
  together = ground (arith);
}

shown-IsPasted : IsPasted shown_item
unfolding text lower_char
shown-IsPasted = record {
  is_domain = record {
    start = text "b.d";
    last = b'e';
    ends = refl;
    no_dot_behind = refl;
    no_dot_before = refl;
    no_label = refl;
    no_star = refl;
  };
  before = [];
  lead = text "_validation-persist.*.";
  behind = text ".";
  dots_before = tt;
  is_lead = inr (inr (inr refl));
  dots_behind = (refl, tt);
  shape = refl;
  some_there = λ e. cc;
  together = ground (arith);
}

pub pasted_items-IsPasted : All IsPasted pasted_items
pasted_items-IsPasted = (bare-IsPasted, (shown-IsPasted, (bare-IsPasted, tt)))

pub comma_space : All (λ c. separates c ≡ true) (text ", ")
unfolding text
comma_space = (refl, (refl, tt))

pub comma_there : text ", " ≢ []
unfolding text
comma_there e = cc

abbrev pub tool_lines : List RecordLine
tool_lines =
    record { fqdn = text "_validation-persist.a"; value = text "letsencrypt.org; accounturi=u" }
    ∷ record { fqdn = text "_validation-persist.b"; value = text "letsencrypt.org; accounturi=u" }
    ∷ []

pub lines_runs : record_lines (117 ∷ []) false two_names ≡ ok tool_lines
unfolding text lower_char trim_space trim_suffix join base_of is_wildcard normal_issuer fields_of
    generate record_lines
lines_runs = refl
