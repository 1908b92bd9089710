-- ===== src/Examples/Workshop.antt =====
-- The onboarding tool in the lab: the small CA, the certificate manager and two files.
use cm_saas_letsencrypt_ca_c.Base.{
  ◌≡◌, refl, false, none, [], ◌∷◌, Text, text, trim_space, lower_char, eq_fold, has_suffix,
  trim_suffix, contains, index_of, replace_char, join, fields_func,
}
use cm_saas_letsencrypt_ca_c.Errors.{ok, outside}
use cm_saas_letsencrypt_ca_c.Record.{base_of, is_wildcard, normal_issuer, fields_of, generate}
use cm_saas_letsencrypt_ca_c.Names.{
  collect, is_separator, clean_domain, parse_domain_list, split_domains, is_delimiter, clean_name,
  dedupe_lower, normalize_contact, certificate_names,
}
use cm_saas_letsencrypt_ca_c.Live.{squeeze, names_account, any_names_account, tool_record_live}
use cm_saas_letsencrypt_ca_c.Acme.Act.{pure, raise, lift, gets, in_context, emit, update, ◌>>=◌}
use cm_saas_letsencrypt_ca_c.Acme.Account.{set_account, register}
use cm_saas_letsencrypt_ca_c.Acme.Client.{
  parse_problem, send, set_dir, fetch_directory, directory, set_nonce, fetch_nonce, get_nonce,
  post_once, post_loop, post_signed,
}
use cm_saas_letsencrypt_ca_c.Acme.Jws.{protected_header, encode_payload, signature_bytes, sign_jws}
use cm_saas_letsencrypt_ca_c.Acme.Pem.{normalize_pem, read_block, parse_account_key}
use cm_saas_letsencrypt_ca_c.Acme.Fresh.{generate_account_key, key_pem}
use cm_saas_letsencrypt_ca_c.Tool.{with_key, validate_domains, op_validate}
use cm_saas_letsencrypt_ca_c.Tool.Machine.{Bench, Machine, op_new_account}
use cm_saas_letsencrypt_ca_c.Examples.Lab.{lab, lab_key}
use cm_saas_letsencrypt_ca_c.Examples.Portal.{portal}

-- Every PEM text is one byte and the bytes of the block.
abbrev pub lab_bench : Bench
lab_bench = record {
  platform = lab;
  key_maker = record {
    generate = λ log. ok lab_key;
    marshal = λ key. ok (1 ∷ []);
    pem_encode = λ block. 45 ∷ block.bytes;
  };
  manager = portal;
  parse_names = λ der. ok ((text "a.example") ∷ [], []);
  etld_plus_one = λ base. none;
  no_file = λ path. outside (text "no such file");
  may_write = λ files path. ok tt;
  listen = λ addr. ok tt;
}

abbrev pub key_path : Text
key_path = 107 ∷ []

abbrev pub old_key : Text
old_key = 120 ∷ []

abbrev pub workshop : Machine
workshop = record { events = []; exchanges = []; files = (key_path, old_key) ∷ []; output = [] }

-- What the runs of the tool compute with.
unfoldable pub tool_runs : Unit {0}
unfolding text trim_space lower_char eq_fold has_suffix trim_suffix contains index_of replace_char
    join fields_func base_of is_wildcard normal_issuer fields_of generate collect is_separator
    clean_domain parse_domain_list split_domains is_delimiter clean_name dedupe_lower
    normalize_contact certificate_names squeeze names_account any_names_account tool_record_live
    pure raise lift gets in_context emit update ◌>>=◌ set_account register parse_problem send
    set_dir fetch_directory directory set_nonce fetch_nonce get_nonce post_once post_loop
    post_signed protected_header encode_payload signature_bytes sign_jws normalize_pem read_block
    parse_account_key generate_account_key key_pem with_key validate_domains op_validate
    op_new_account
tool_runs = tt

pub new_account_runs : (op_new_account lab_bench false [] []).0 ≡ ok (45 ∷ 1 ∷ [], 2 ∷ [])
unfolding tool_runs
new_account_runs = refl
