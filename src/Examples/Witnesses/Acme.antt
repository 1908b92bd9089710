-- ===== src/Examples/Witnesses/Acme.antt =====
-- The theorems on the ACME engine at concrete inputs.
use cm_saas_letsencrypt_ca_c.Base.{
  List, ◌++◌, Text, length, ◌+◌, refl, ◌≡◌, ◌≢◌, ◌↔◌, arith, false, none, some, [], ◌∷◌, text,
  trim_space, lower, is_empty, take, drop,
}
use cm_saas_letsencrypt_ca_c.Acme.Pem.{parse_account_key, normalize_pem}
use cm_saas_letsencrypt_ca_c.Errors.{ok, panicked, err}
use cm_saas_letsencrypt_ca_c.Acme.Jws.{signature_bytes}
use cm_saas_letsencrypt_ca_c.Acme.Jws.Halves.{big_endian, signature_bytes-halves}
use cm_saas_letsencrypt_ca_c.Acme.Order.{get_order, get_authorization}
use cm_saas_letsencrypt_ca_c.Acme.Persist.{
  default_poll, with_defaults, rounds_of, poll_loop, authz_timeout, order_timeout,
  resolve_authorization, validate_issuer,
}
use cm_saas_letsencrypt_ca_c.Acme.Persist.Rounds.{waits_end}
use cm_saas_letsencrypt_ca_c.Examples.Settling.{lab_run, lab-IsSafe}
use cm_saas_letsencrypt_ca_c.Acme.Engine.Cached.{IsSafe}
use cm_saas_letsencrypt_ca_c.Acme.Engine.Reached.{reaches-IsSafe}
use cm_saas_letsencrypt_ca_c.Examples.Lab.{
  lab-IssuesFresh, lab_ca, lab_session, lab_challenge, lab-HasClock,
}
use cm_saas_letsencrypt_ca_c.Examples.Runs.{resolve_runs}
use cm_saas_letsencrypt_ca_c.Acme.Persist.Resolves.{resolve_authorization-grants}
use cm_saas_letsencrypt_ca_c.Examples.Waiting.{
  slow_ca, slow_session, IsWarm, slow-HasClock, slow-Grants,
}
use cm_saas_letsencrypt_ca_c.Acme.Persist.Issuer.{Offers, validate_issuer-Offers}
use cm_saas_letsencrypt_ca_c.Acme.Engine.Validated.{Validated, resolve_authorization-Validated}
use cm_saas_letsencrypt_ca_c.Acme.Pem.Slices.{parse_account_key-panics}
use cm_saas_letsencrypt_ca_c.Acme.Pem.Lines.{
  AreRows, flat, solid, terminated, normalize_pem-rebuilt,
}
use cm_saas_letsencrypt_ca_c.Examples.Keys.{
  blind_reader, cut_key, flat_key, key_type, footer_rest, flat_body, cut_key-shape, flat_key-shape,
  key_type-HasNoDash, flat_body-HasNoDash,
}

resolve_authorization-Validated_example :
    Validated lab_ca (5 ∷ []) (resolve_authorization lab_ca (5 ∷ []) default_poll lab_session).1.log
resolve_authorization-Validated_example =
    resolve_authorization-Validated lab_ca (5 ∷ []) default_poll lab_session resolve_runs

waits_end_example :
    ((poll_loop lab_ca
        (get_authorization lab_ca (5 ∷ []))
        (λ a. a.status)
        (authz_timeout lab_ca)
        (rounds_of (with_defaults default_poll))
        (0 + (with_defaults default_poll).timeout)
        (with_defaults default_poll).interval
        lab_session).0
      ≢ ok none)
    × ((poll_loop lab_ca
          (get_order lab_ca (5 ∷ []))
          (λ a. a.status)
          (order_timeout lab_ca)
          (rounds_of (with_defaults default_poll))
          (0 + (with_defaults default_poll).timeout)
          (with_defaults default_poll).interval
          lab_session).0
        ≢ ok none)
waits_end_example = waits_end lab_ca (5 ∷ []) default_poll lab_session lab-HasClock

validate_issuer-Offers_example :
    (validate_issuer lab_challenge (text "letsencrypt.org ") ≡ ok tt) ↔ (
      (is_empty (lower (trim_space (text "letsencrypt.org "))) ≡ false)
      × Offers (lower (trim_space (text "letsencrypt.org "))) lab_challenge.issuer_domain_names)
validate_issuer-Offers_example = validate_issuer-Offers lab_challenge (text "letsencrypt.org ")

signature_bytes-halves_example :
    (length (signature_bytes lab_ca (300, 7)) ≡ 64)
    × (big_endian 0 (take 32 (signature_bytes lab_ca (300, 7))) ≡ 300)
    × (big_endian 0 (drop 32 (signature_bytes lab_ca (300, 7))) ≡ 7)
signature_bytes-halves_example = signature_bytes-halves lab_ca 300 7 (omega arith) (omega arith)

parse_account_key-panics_example : parse_account_key blind_reader cut_key ≡ err panicked
parse_account_key-panics_example =
    parse_account_key-panics blind_reader cut_key key_type footer_rest refl cut_key-shape
      key_type-HasNoDash

normalize_pem-rebuilt_example :
    (rows : List Text) × AreRows rows
    × (flat rows ≡ solid (32 ∷ flat_body))
    × (normalize_pem blind_reader flat_key
        ≡ some (
            text "-----BEGIN "
            ++ (key_type
                ++ (text "-----\n"
                    ++ (terminated rows ++ (text "-----END " ++ (key_type ++ text "-----\n")))))))
normalize_pem-rebuilt_example =
    normalize_pem-rebuilt key_type 32 flat_body footer_rest key_type-HasNoDash flat_body-HasNoDash
      refl blind_reader flat_key refl flat_key-shape

abbrev some_body : Text
some_body = 65 ∷ 66 ∷ []

resolve_authorization-grants_example :
    (resolve_authorization slow_ca (5 ∷ []) default_poll slow_session).0 ≡ ok tt
resolve_authorization-grants_example =
    resolve_authorization-grants slow_ca (5 ∷ []) default_poll 0 IsWarm slow_session slow-HasClock
      slow-Grants ([], refl)

reaches-IsSafe_example : IsSafe lab_run.0
reaches-IsSafe_example =
    reaches-IsSafe lab_ca lab_session lab_run.0 lab-IssuesFresh lab_run.1 lab-IsSafe
