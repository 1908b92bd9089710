-- ===== src/Service/Issued.antt =====
-- `RequestCertificate`: what the CA has confirmed before the order is finalized.
use cm_saas_letsencrypt_ca_c.Acme.Act.Leads.{
  Anything, anyway, Leads, Leads-weaker, Leads-after, Leads-pure, Leads-bind, Leads_result,
}
use cm_saas_letsencrypt_ca_c.Base.{◌≡◌, refl, List, [], ◌∷◌, Text, All}
use cm_saas_letsencrypt_ca_c.Errors.{Result, ok, err}
use cm_saas_letsencrypt_ca_c.Acme.Types.{Client, Order}
use cm_saas_letsencrypt_ca_c.Acme.Outside.{Event}
use cm_saas_letsencrypt_ca_c.Acme.Act.{Act, lift, in_context}
use cm_saas_letsencrypt_ca_c.Acme.Persist.{PollConfig, default_poll}
use cm_saas_letsencrypt_ca_c.Acme.Engine.Log.{OnLog, engine-IsKept}
use cm_saas_letsencrypt_ca_c.Acme.Engine.Answers.{Leads-both}
use cm_saas_letsencrypt_ca_c.Acme.Engine.Validated.{Validated, resolve_authorization-Leads}
use cm_saas_letsencrypt_ca_c.Domain.{Connection, OrderDetails}
use cm_saas_letsencrypt_ca_c.Service.{Platform, build_client, run_with, with_client, ensure_account}
use cm_saas_letsencrypt_ca_c.Service.Certs.{parse_csr}
use cm_saas_letsencrypt_ca_c.Service.Issue.{
  resolve_all, publish_if_auto, issue, request_certificate,
}
use cm_saas_letsencrypt_ca_c.Service.Kept.{resolve_all-Keeps}
use cm_saas_letsencrypt_ca_c.Service.Opened.{
  Opened, Confirmed, Issued, Validated-IsClosed, Opened-IsClosed, Confirmed-IsClosed,
  new_order-Opened, finalize-Answered,
}

-- A signed request was answered with this order, whose URL is the location in the answer.
module _ (W : Platform) where
  resolve_all-Leads :
      (urls : List Text) (poll : PollConfig)
      → Leads Anything
          (λ _ s. All (λ url. Validated W.outside url s.log) urls)
          Anything
          (resolve_all W urls poll)
  unfolding resolve_all
  resolve_all-Leads [] poll = Leads-pure tt (λ s h. tt)
  resolve_all-Leads (url ∷ urls) poll =
      Leads-bind _ _ (resolve_authorization-Leads W.outside url poll) λ _.
        Leads-both _
          (resolve_all-Keeps W (engine-IsKept W.outside (Validated-IsClosed W.outside url)) urls
            poll)
          (Leads-weaker _ (λ s h. tt) (resolve_all-Leads urls poll))

  resolved-Confirmed :
      (order : Order)
      → Leads
          (λ s. Opened W.outside order s.log)
          (λ _ s. Confirmed W.outside order s.log)
          Anything
          (resolve_all W order.authorizations default_poll)
  resolved-Confirmed order =
      Leads-after _ (λ u s h. record { opened = h.0; each_valid = h.1 })
        (Leads-both _
          (resolve_all-Keeps W (engine-IsKept W.outside (Opened-IsClosed W.outside order))
            order.authorizations default_poll)
          (Leads-weaker _ (λ s h. tt) (resolve_all-Leads order.authorizations default_poll)))

  issue-Issued :
      (conn : Connection) (csr : Text)
      → Leads Anything (λ d s. Issued W.outside d s.log) Anything (issue W conn csr)
  unfolding issue
  issue-Issued conn csr =
      Leads-bind {Q = λ _. Anything} _ _ (anyway (in_context _ (ensure_account W conn))) λ _.
        Leads-bind {Q = λ _. Anything} _ _ (anyway (lift (parse_csr W csr))) λ request.
          Leads-bind {Q = λ _. Anything} _ _ (anyway (lift _)) λ _.
            Leads-bind {Q = λ _. Anything} _ _ (anyway (publish_if_auto W conn request.1)) λ _.
              Leads-bind _ _ (new_order-Opened W.outside request.1) λ order.
                Leads-bind _ _ (resolved-Confirmed order) λ _.
                  Leads-bind _ _
                    (finalize-Answered W.outside (Confirmed-IsClosed W.outside order) order.finalize
                      request.0)
                    λ _.
                      Leads-pure _
                        λ s h. record { order = order; named = refl; answer = h.0; in_trace = h.1 }

  -- The result of a webhook, from a condition on the trace before it.
  pub run_with-result :
      {A : Type 0} (P : List Event → Type 0) (Q : A → List Event → Type 0) (c : Result Client)
      (m : Act A) (log : List Event) (a : A)
      → Leads (OnLog P) (λ b s. Q b s.log) Anything m
      → P log
      → (run_with c m log).0 ≡ ok a
      → Q a (run_with c m log).1
  run_with-result P Q (err e) m log a l p h = cc
  run_with-result P Q (ok client) m log a l p h =
      Leads_result (λ b s. Q b s.log) Anything m l (record { client = client; log = log }) a p h

-- A request for a certificate that succeeds returns the URL of an order that the CA has answered
-- with, and the order was finalized behind its confirmation: each of its authorizations had been
-- reported as valid by the CA before the finalize request went out. It holds in both modes, and
-- however often an authorization was polled.
pub request_certificate-Issued :
    (W : Platform) (conn : Connection) (csr : Text) (log : List Event) (d : OrderDetails)
    → (request_certificate W conn csr log).0 ≡ ok d
    → Issued W.outside d (request_certificate W conn csr log).1
unfolding request_certificate with_client
request_certificate-Issued W conn csr log d h =
    run_with-result W (λ l. Unit) (Issued W.outside) (build_client W conn) (issue W conn csr) log d
      (issue-Issued W conn csr) tt h
