-- ===== src/Acme/Outside.antt =====
-- What the client meets and does not implement: the CA behind HTTP, the clock, the cancellation of
-- a call, signatures and the JSON codec. An answer may depend on all that has happened so far.
use cm_saas_letsencrypt_ca_c.Base.{ℕ, List, Text}
use cm_saas_letsencrypt_ca_c.Errors.{Problem, Result}
use cm_saas_letsencrypt_ca_c.Acme.Types.{
  Directory, Order, Challenge, Authorization, AccountKey, Header, Request, Response, Payload,
}

-- The calls of a DNS provider, which the engine never makes.
pub data DnsCall : Type 0 where
  ensure : Text → Text → Text → DnsCall
  validate : Text → DnsCall

-- What the program has done, one entry for each effect. The newest entry comes first.
pub data Event : Type 0 where
  answered : Request → Response → Event
  unanswered : Request → Event
  slept : ℕ → Event
  dns : DnsCall → Event

pub record Outside : Type 0 where
  -- `http.Client.Do`
  pub http : List Event → Request → Result Response
  -- `http.NewRequestWithContext`, which refuses a URL that does not parse
  pub check_url : Text → Result (Unit {0})
  -- `time.Now`, in nanoseconds
  pub now : List Event → ℕ
  -- whether `ctx.Done()` comes before the timer
  pub cancelled : List Event → Result (Unit {0})
  -- `base64.RawURLEncoding.EncodeToString`
  pub b64 : Text → Text
  -- `sha256.Sum256`
  pub sha256 : Text → Text
  -- `ecdsa.Sign`
  pub sign : List Event → AccountKey → Text → Result (ℕ × ℕ)
  -- `json.Marshal` and `json.Unmarshal` at the types that the client uses
  pub header_json : Header → Result Text
  pub payload_json : Payload → Result Text
  pub read_directory : Text → Result Directory
  pub read_order : Text → Result Order
  pub read_authorization : Text → Result Authorization
  pub read_challenge : Text → Result Challenge
  pub read_problem : Text → Result Problem
