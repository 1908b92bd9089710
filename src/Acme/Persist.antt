-- ===== src/Acme/Persist.antt =====
-- internal/acme/dnspersist.go: bringing an authorization to "valid" with dns-persist-01.
pub mod Rounds
pub mod Settles
pub mod Resolves
pub mod Issuer
pub mod Settled
use cm_saas_letsencrypt_ca_c.Base.{
  ℕ, zero, suc, ◌+◌, ◌/◌, Bool, false, ◌||◌, Option, none, some, List, [], ◌∷◌, ◌++◌, map, Text,
  text, lower, trim_space, eq_fold, text_eq, join, is_empty, if◌then◌else◌, ltb,
}
use cm_saas_letsencrypt_ca_c.Errors.{problem_text, Err, fail, spinning, Result, ok, err}
use cm_saas_letsencrypt_ca_c.Record.{quoted}
use cm_saas_letsencrypt_ca_c.Acme.Types.{
  Order, Challenge, Authorization, Client, challenge_dns_persist_01, status_pending,
  status_processing, status_valid, status_invalid,
}
use cm_saas_letsencrypt_ca_c.Acme.Outside.{Outside, slept}
use cm_saas_letsencrypt_ca_c.Acme.Act.{Act, pure, raise, lift, gets, emit, ◌>>=◌, ◌>>◌}
use cm_saas_letsencrypt_ca_c.Acme.Order.{get_order, get_authorization, accept_challenge}

-- `FindDNSPersistChallenge`
unfoldable pub find_challenge : List Challenge → Option Challenge
find_challenge [] = none
find_challenge (ch ∷ chs) =
    if text_eq ch.kind challenge_dns_persist_01 then some ch else find_challenge chs

-- The loop of `ValidateIssuer`.
unfoldable pub names_issuer : Text → List Text → Bool
names_issuer want [] = false
names_issuer want (d ∷ ds) = eq_fold (trim_space d) want || names_issuer want ds

unfoldable pub validate_issuer : Challenge → Text → Result (Unit {0})
validate_issuer ch issuer_domain =
    let want = lower (trim_space issuer_domain) in
    if is_empty want
    then err (fail (text "acme: configured issuer domain is empty"))
    else if names_issuer want ch.issuer_domain_names
    then ok tt
    else err (
        fail (
          text "acme: dns-persist-01 issuer-domain-names ["
          ++ (join ch.issuer_domain_names (text " ")
              ++ (text "] do not include configured issuer " ++ quoted issuer_domain))))

abbrev pub challenge_error : Option Challenge → Text
challenge_error none = []
challenge_error (some ch) = elim ch.error [ none ↦ [] | some p ↦ text ": " ++ problem_text p ]

-- `authzRecordError`: what the operator has to publish.
unfoldable pub authz_record_error : Client → Authorization → Err
authz_record_error c authz = fail (
    text "acme: domain control validation failed for "
    ++ (authz.identifier.value
        ++ (challenge_error (find_challenge authz.challenges)
            ++ (text " — publish the standing _validation-persist."
                ++ (authz.identifier.value
                    ++ (text " TXT record (issuer "
                        ++ (quoted c.issuer_domain
                            ++ (text ", accounturi "
                                ++ (c.account_url ++ text ") and retry")))))))))

unfoldable pub challenge_types : Authorization → Text
challenge_types authz = join (map (λ (ch : Challenge). ch.kind) authz.challenges) (text ", ")

-- In nanoseconds. A duration that is not positive is 0 here.
pub record PollConfig : Type 0 where
  pub interval : ℕ
  pub timeout : ℕ

abbrev pub default_poll : PollConfig
default_poll = record { interval = 2000000000; timeout = 60000000000 }

abbrev pub or_default : ℕ → ℕ → ℕ
or_default zero d = d
or_default (suc n) d = suc n

unfoldable pub with_defaults : PollConfig → PollConfig
with_defaults p = record {
  interval = or_default p.interval default_poll.interval;
  timeout = or_default p.timeout default_poll.timeout;
}

-- `status == pending || status == processing`, from the negated test of the loops.
abbrev pub is_waiting : Text → Bool
is_waiting status = text_eq status status_pending || text_eq status status_processing

-- The rounds that a poll can take: one for each interval within the timeout, and two more.
unfoldable pub rounds_of : PollConfig → ℕ
rounds_of p = suc (suc (p.timeout / p.interval))

module _ (O : Outside) where
  -- The `select`: a cancelled call ends the wait, and otherwise the interval passes.
  unfoldable pub pause : ℕ → Act (Unit {0})
  pause interval = do log ← gets (λ s. s.log); lift (O.cancelled log); emit (slept interval)

  module _ {A : Type 0} (fetch : Act A) (status : A → Text) (timed_out : A → Err) where
    -- The loop of `waitForAuthz` and of `WaitForOrder`, with the rounds left. `none` means that
    -- the rounds ran out. The code returns the last resource beside the timeout error; no caller
    -- reads it, so the error comes alone here.
    unfoldable pub poll_loop : ℕ → ℕ → ℕ → Act (Option A)
    poll_loop zero deadline interval = pure none
    poll_loop (suc rounds) deadline interval = do
      a ← fetch
      now ← gets (λ s. O.now s.log)
      let again = do pause interval; poll_loop rounds deadline interval
      if is_waiting (status a)
          then (if ltb deadline now then raise (timed_out a) else again)
          else pure (some a)

    abbrev pub settled : Option A → Act A
    settled none = raise spinning
    settled (some a) = pure a

    unfoldable pub poll_until : PollConfig → Act A
    poll_until poll = do
      let p = with_defaults poll
      start ← gets (λ s. O.now s.log)
      found ← poll_loop (rounds_of p) (start + p.timeout) p.interval
      settled found

  abbrev pub authz_timeout : Authorization → Err
  authz_timeout authz = fail (
      text "acme: timed out waiting for authorization "
      ++ (authz.identifier.value
          ++ (text " to validate (last status " ++ (quoted authz.status ++ text ")"))))

  unfoldable pub wait_for_authz : Text → PollConfig → Act Authorization
  wait_for_authz url poll = poll_until (get_authorization O url) (λ a. a.status) authz_timeout poll

  abbrev pub order_timeout : Order → Err
  order_timeout order = fail (
      text "acme: timed out waiting for order to complete (last status "
      ++ (quoted order.status ++ text ")"))

  unfoldable pub wait_for_order : Text → PollConfig → Act Order
  wait_for_order url poll = poll_until (get_order O url) (λ o. o.status) order_timeout poll

  abbrev pub record_error : Authorization → Act (Unit {0})
  record_error authz = do c ← gets (λ s. s.client); raise (authz_record_error c authz)

  -- The end of `ResolveAuthorization`.
  abbrev pub judge : Authorization → Act (Unit {0})
  judge final = if text_eq final.status status_valid then pure tt else record_error final

  abbrev pub no_challenge : Authorization → Err
  no_challenge authz = fail (
      text "acme: authorization for "
      ++ (authz.identifier.value
          ++ (text " does not offer a dns-persist-01 challenge (offered: "
              ++ (challenge_types authz ++ text ")"))))

  abbrev pub offered : Authorization → Option Challenge → Result Challenge
  offered authz none = err (no_challenge authz)
  offered authz (some ch) = ok ch

  -- The part behind the `switch`, for a pending authorization.
  unfoldable pub fulfil : Text → PollConfig → Authorization → Act (Unit {0})
  fulfil url poll authz = do
    ch ← lift (offered authz (find_challenge authz.challenges))
    issuer ← gets (λ s. s.client.issuer_domain)
    lift (validate_issuer ch issuer)
    _ ← accept_challenge O ch.url
    final ← wait_for_authz url poll
    judge final

  abbrev pub unexpected_status : Authorization → Err
  unexpected_status authz = fail (
      text "acme: authorization for "
      ++ (authz.identifier.value ++ (text " in unexpected status " ++ quoted authz.status)))

  unfoldable pub resolve_authorization : Text → PollConfig → Act (Unit {0})
  resolve_authorization url poll = do
    authz ← get_authorization O url
    if text_eq authz.status status_valid
        then pure tt
        else if text_eq authz.status status_invalid
        then record_error authz
        else if is_waiting authz.status
        then fulfil url poll authz
        else raise (unexpected_status authz)
