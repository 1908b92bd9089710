-- ===== src/Examples/Lab.antt =====
-- A CA, a DNS and a connection to try the program on.
use mathlib.Core.Path.{subst}
use cm_saas_letsencrypt_ca_c.Base.{
  Option, none, some, ◌<◌, ℕ, suc, ◌+◌, ◌≤◌, ◌≡◌, ap, arith, true, false, List, [], ◌∷◌, ◌++◌, Text,
  text, text_eq, text_eq_iff, member, length, length-append, Bool-cases, inl, inr,
}
use cm_saas_letsencrypt_ca_c.Acme.Pem.{Block}
use cm_saas_letsencrypt_ca_c.Service.Certs.Blocks.{TakesBlock}
use cm_saas_letsencrypt_ca_c.Errors.{Identifier, problem, end, Result, ok}
use cm_saas_letsencrypt_ca_c.Acme.Types.{
  Directory, Order, Challenge, Authorization, AccountKey, Request, get, head, post, Response,
  Client,
}
use cm_saas_letsencrypt_ca_c.Acme.Outside.{Outside, Event, slept, answered, unanswered, dns}
use cm_saas_letsencrypt_ca_c.Acme.Act.{Session}
use cm_saas_letsencrypt_ca_c.Acme.Engine.Nonces.{issued, IssuesFresh}
use cm_saas_letsencrypt_ca_c.Acme.Persist.Rounds.{HasClock}
use cm_saas_letsencrypt_ca_c.Domain.{Connection}
use cm_saas_letsencrypt_ca_c.Service.{Platform}

abbrev flatten : List Text → Text
flatten [] = []
flatten (t ∷ ts) = t ++ flatten ts

-- A nonce that is longer than all the nonces before it together.
abbrev next_nonce : List Event → Text
next_nonce log = 110 ∷ flatten (issued log)

-- The answer to a request: the URL comes back as the body and as the location.
abbrev answer : List Event → Text → Response
answer log url = record { status = 200; body = url; replay_nonce = next_nonce log; location = url }

abbrev reply : List Event → Request → Result Response
reply log (get url) = ok (answer log url)
reply log (head url) = ok (answer log url)
reply log (post url signed) = ok (answer log url)

abbrev pub lab_directory : Directory
lab_directory = record {
  new_nonce = 1 ∷ [];
  new_account = 2 ∷ [];
  new_order = 3 ∷ [];
  revoke_cert = 4 ∷ [];
  key_change = [];
  terms_of_service = [];
  website = [];
  caa_identities = [];
  external_account_required = false;
}

abbrev lab_identifier : Identifier
lab_identifier = record { kind = []; value = 97 ∷ [] }

abbrev pub lab_order : Order
lab_order = record {
  status = [];
  expires = [];
  identifiers = [];
  authorizations = (5 ∷ []) ∷ (6 ∷ []) ∷ [];
  finalize = 7 ∷ [];
  certificate = [];
  error = none;
  url = [];
}

abbrev pub lab_challenge : Challenge
lab_challenge = record {
  kind = text "dns-persist-01";
  url = [];
  status = [];
  token = [];
  error = none;
  account_uri = [];
  issuer_domain_names = text " LetsEncrypt.org" ∷ [];
}

abbrev pub lab_authorization : Authorization
lab_authorization = record {
  status = text "valid";
  identifier = lab_identifier;
  challenges = lab_challenge ∷ [];
  wildcard = false;
  expires = [];
}

abbrev elapsed : List Event → ℕ
elapsed [] = 0
elapsed (slept n ∷ log) = n + elapsed log
elapsed (answered req r ∷ log) = elapsed log
elapsed (unanswered req ∷ log) = elapsed log
elapsed (dns call ∷ log) = elapsed log

abbrev pub lab_ca : Outside
lab_ca = record {
  http = reply;
  check_url = λ url. ok tt;
  now = elapsed;
  cancelled = λ log. ok tt;
  b64 = λ s. s;
  sha256 = λ s. s;
  sign = λ log key s. ok (1, 2);
  header_json = λ h. ok h.nonce;
  payload_json = λ p. ok [];
  read_directory = λ s. ok lab_directory;
  read_order = λ s. ok lab_order;
  read_authorization = λ s. ok lab_authorization;
  read_challenge = λ s. ok lab_challenge;
  read_problem = λ s. ok (problem [] [] 0 none end);
}

abbrev pub lab_key : AccountKey
lab_key = record { secret = 1; x = 2; y = 3 }

abbrev pub lab_txt : Text
lab_txt = text "letsencrypt.org; accounturi=\u{2}"

-- A reader of PEM that takes any text for one block.
abbrev decode_all : Text → Option (Block × Text)
decode_all [] = none
decode_all (c ∷ s) = some (record { kind = text "EC PRIVATE KEY"; bytes = c ∷ s }, [])

abbrev pub lab : Platform
lab = record {
  outside = lab_ca;
  keys = record { pem_decode = decode_all; parse_ec = λ s. ok lab_key; parse_pkcs8 = λ s. ok none };
  b64_std = λ s. s;
  b64_std_decode = λ s. ok s;
  parse_request = λ s. ok ((97 ∷ []) ∷ [], []);
  parse_certificate = λ s. ok s;
  sha1 = λ s. s;
  lookup_txt = λ log name. some (lab_txt ∷ []);
  load_aws = λ keys. ok tt;
  provider = λ log call. ok tt;
}

-- A connection with the given DNS provider.
abbrev pub connection_of : Text → Connection
connection_of provider = record {
  configuration = record {
    directory_url = [];
    issuer_domain = [];
    contact = [];
    dcv_mode = [];
    dns_provider = provider;
    hosted_zone_id = text "Z1";
    verification_domains = text "a.example, b.example";
  };
  credentials = record { account_key = text "key"; access_key_id = []; secret_access_key = [] };
}

abbrev pub manual_connection : Connection
manual_connection = connection_of []

abbrev pub auto_connection : Connection
auto_connection = connection_of (text "route53")

abbrev pub lab_client : Client
lab_client = record {
  directory_url = text "https://ca/directory";
  key = lab_key;
  issuer_domain = text "letsencrypt.org";
  account_url = text "https://ca/acct/1";
  dir = none;
  nonce = [];
}

abbrev pub lab_session : Session
lab_session = record { client = lab_client; log = [] }

no_longer : (n : Text) (ns : List Text) → member n ns ≡ true → length n ≤ length (flatten ns)
no_longer n [] h = cc
no_longer n (m ∷ ns) h = elim (Bool-cases (text_eq m n)) [
  | inl y ↦ omega (arith, length-append m (flatten ns), ap length ((text_eq_iff m n).0 y))
  | inr k ↦ omega (arith, length-append m (flatten ns), no_longer n ns (ground arith))
]

next_nonce-new : (log : List Event) → member (next_nonce log) (issued log) ≡ false
next_nonce-new log = elim (Bool-cases (member (next_nonce log) (issued log))) [
  | inl y ↦ absurd (too_long (no_longer (next_nonce log) (issued log) y))
  | inr n ↦ n
]
  where
    too_long : suc (length (flatten (issued log))) ≤ length (flatten (issued log)) → ⊥
    too_long h = omega arith

fresh_answer :
    (log : List Event) (url : Text) (r : Response)
    → ok (answer log url) ≡ ok r
    → member r.replay_nonce (issued log) ≡ false
fresh_answer log url r e =
    subst (λ (x : Response). member x.replay_nonce (issued log) ≡ false) (same r e)
      (next_nonce-new log)
  where
    same : (r : Response) → ok (answer log url) ≡ ok r → answer log url ≡ r
    same r e = cc

pub lab-TakesBlock : TakesBlock lab
lab-TakesBlock [] b rest h = cc
lab-TakesBlock (c ∷ s) b rest h =
    subst (λ (t : Text). length t < length (c ∷ s)) (rest_empty b rest h) (omega arith)
  where
    rest_empty : (b : Block) (rest : Text) → decode_all (c ∷ s) ≡ some (b, rest) → [] ≡ rest
    rest_empty b rest h = cc

pub lab-IssuesFresh : IssuesFresh lab_ca
lab-IssuesFresh log (get url) r e h = fresh_answer log url r e
lab-IssuesFresh log (head url) r e h = fresh_answer log url r e
lab-IssuesFresh log (post url signed) r e h = fresh_answer log url r e

pub lab-HasClock : HasClock lab_ca
lab-HasClock = record { never_back = grows; pause_passes = λ log n. omega arith }
  where
    grows : (log : List Event) (e : Event) → elapsed log ≤ elapsed (e ∷ log)
    grows log (slept n) = omega arith
    grows log (answered req r) = omega arith
    grows log (unanswered req) = omega arith
    grows log (dns call) = omega arith
