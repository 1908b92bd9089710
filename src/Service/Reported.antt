-- ===== src/Service/Reported.antt =====
-- `CheckOrder` and `CheckCertificate`: what they tell the certificate manager comes from the CA.
use cm_saas_letsencrypt_ca_c.Acme.Act.Leads.{
  Anything, anyway, Leads, Leads-weaker, Leads-after, Leads-pure, Leads-lift_by, Leads-if_by,
  Leads-if, Leads-bind, Leads-in_context,
}
use cm_saas_letsencrypt_ca_c.Base.{
  ◌≡◌, refl, ap, ◌∙◌, ◌⊎◌, inl, inr, none, List, [], ◌∷◌, Text, text_eq, text_eq_iff, is_empty,
  ==_iff,
}
use cm_saas_letsencrypt_ca_c.Errors.{ok}
use cm_saas_letsencrypt_ca_c.Acme.Types.{Order, Response, status_valid, status_invalid}
use cm_saas_letsencrypt_ca_c.Acme.Outside.{Outside, Event}
use cm_saas_letsencrypt_ca_c.Acme.Act.{Session, pure}
use cm_saas_letsencrypt_ca_c.Acme.Account.{is_ok}
use cm_saas_letsencrypt_ca_c.Acme.Order.{get_order, get_certificate}
use cm_saas_letsencrypt_ca_c.Acme.Engine.Log.{IsClosed, directory-Keeps, post_once-Keeps}
use cm_saas_letsencrypt_ca_c.Acme.Engine.Posts.{post_signed-Keeps}
use cm_saas_letsencrypt_ca_c.Acme.Client.{post_signed}
use cm_saas_letsencrypt_ca_c.Acme.Engine.Answers.{Answered, post_signed-Posted, Leads-both}
use cm_saas_letsencrypt_ca_c.Acme.Engine.Validated.{anything-IsClosed, required}
use cm_saas_letsencrypt_ca_c.Domain.{
  Connection, OrderDetails, CertificateStatus, CertificateDetails,
}
use cm_saas_letsencrypt_ca_c.Service.{Platform, build_client, with_client, ensure_account}
use cm_saas_letsencrypt_ca_c.Service.Certs.{parse_certificate_data}
use cm_saas_letsencrypt_ca_c.Service.Check.{
  ask_order, check_order, without_certificate, download, certificate_of, ask_certificate,
  check_certificate,
}
use cm_saas_letsencrypt_ca_c.Service.Issued.{run_with-result}
use cm_saas_letsencrypt_ca_c.Service.Details.{SaysOf, order_details-SaysOf}

-- A signed request for the URL was answered with this order, apart from the order's own URL.
pub record OrderReported (O : Outside) (url : Text) (order : Order) (log : List Event)
    : Type 0 where
  pub answer : Response
  pub in_trace : Answered (λ _. Unit) url answer log
  pub accepted : answer.status ≡ 200
  pub parsed : Order
  pub body : O.read_order answer.body ≡ ok parsed
  pub same : order ≡ record parsed { url = url }

module _ (O : Outside) where
  OrderReported-IsClosed : (url : Text) (order : Order) → IsClosed (OrderReported O url order)
  OrderReported-IsClosed url order = record {
    on_answer = λ log req r h. grown log _ h;
    on_silence = λ log req h. grown log _ h;
    on_pause = λ log n h. grown log _ h;
  }
    where
      grown :
          (log : List Event) (e : Event)
          → OrderReported O url order log
          → OrderReported O url order (e ∷ log)
      grown log e h = record {
        answer = h.answer;
        in_trace = Answered.earlier e log h.in_trace;
        accepted = h.accepted;
        parsed = h.parsed;
        body = h.body;
        same = h.same;
      }

  get_order-Reported :
      (url : Text) → Leads Anything (λ o s. OrderReported O url o s.log) Anything (get_order O url)
  unfolding get_order
  get_order-Reported url =
      Leads-bind _ _ (Leads-in_context _ _ (post_signed-Posted O (anything-IsClosed O) url none))
        λ r.
          Leads-bind {Q = λ _ s. Answered (λ _. Unit) url r s.log × (r.status ≡ 200)} _ _
            (Leads-lift_by _ (λ u e s h. (h.0, (==_iff r.status 200).0 (required O (is_ok r) _ e)))
              (λ s h. tt))
            λ _.
              Leads-bind
                {Q = λ o s.
                  Answered (λ _. Unit) url r s.log
                  × (r.status ≡ 200)
                  × (O.read_order r.body ≡ ok o)}
                _ _ (Leads-in_context _ _ (Leads-lift_by _ (λ o e s h. (h.0, h.1, e)) (λ s h. tt)))
                λ o. Leads-pure _ λ s h. record {
                  answer = r;
                  in_trace = h.0;
                  accepted = h.1;
                  parsed = o;
                  body = h.2;
                  same = refl;
                }

-- The CA's order that the details of a request tell of.
pub record TellsOrder (O : Outside) (id : Text) (d : OrderDetails) (log : List Event) : Type 0 where
  pub order : Order
  pub reported : OrderReported O id order log
  pub same_id : d.id ≡ id
  pub says : SaysOf id order d

-- The details of a certificate: they hold a certificate only if the CA reported the order as valid
-- and answered the request for its certificate with a text that reads as that certificate.
pub record TellsCertificate (W : Platform) (id : Text) (d : CertificateDetails) (log : List Event)
    : Type 0 where
  pub order : Order
  pub reported : OrderReported W.outside id order log
  pub source :
      (d.certificate ≡ [])
      ⊎ ((order.status ≡ status_valid)
          × ((r : Response) × Answered (λ _. Unit) order.certificate r log
              × (parse_certificate_data W r.body ≡ ok (d.certificate, d.chain))))

module _ (W : Platform) where
  ask_order-Tells :
      (conn : Connection) (id : Text)
      → Leads Anything (λ d s. TellsOrder W.outside id d s.log) Anything (ask_order W conn id)
  unfolding ask_order
  ask_order-Tells conn id = Leads-bind {Q = λ _. Anything} _ _ (anyway (ensure_account W conn)) λ _.
      Leads-bind _ _ (get_order-Reported W.outside id) λ order. Leads-pure _ λ s h. record {
        order = order;
        reported = h;
        same_id = (order_details-SaysOf id order).0;
        says = (order_details-SaysOf id order).1;
      }

module _ (W : Platform) (id : Text) (order : Order) where
  abbrev Known : Session → Type 0
  Known s = OrderReported W.outside id order s.log

  order-IsClosed : IsClosed (OrderReported W.outside id order)
  order-IsClosed = OrderReported-IsClosed W.outside id order

  get_certificate-Answered :
      (url : Text)
      → Leads Known
          (λ body s.
            Known s × ((r : Response) × Answered (λ _. Unit) url r s.log × (r.body ≡ body)))
          Anything
          (get_certificate W.outside url)
  unfolding get_certificate
  get_certificate-Answered url = Leads-bind _ _ (Leads-in_context _ _ known_answer) λ r.
      Leads-bind {Q = λ _ s. Known s × Answered (λ _. Unit) url r s.log} _ _
        (Leads-lift_by _ (λ u e s h. h) (λ s h. tt)) λ _. Leads-pure _ λ s h. (h.0, (r, h.1, refl))
    where
      known_answer :
          Leads Known
            (λ r s. Known s × Answered (λ _. Unit) url r s.log)
            Anything
            (post_signed W.outside url none)
      known_answer =
          Leads-both _
            (post_signed-Keeps W.outside (directory-Keeps W.outside order-IsClosed)
              (post_once-Keeps W.outside order-IsClosed) url none)
            (Leads-weaker _ (λ s h. tt)
              (Leads-after _ (λ r s h. h.0)
                (post_signed-Posted W.outside (anything-IsClosed W.outside) url none)))

  download-Tells :
      order.status ≡ status_valid
      → Leads Known
          (λ d s. TellsCertificate W id d s.log)
          Anything
          (download W id order.certificate)
  unfolding download
  download-Tells valid = Leads-bind _ _ (get_certificate-Answered order.certificate) λ pem.
      Leads-bind
        {Q = λ c s.
          Known s
          × ((r : Response) × Answered (λ _. Unit) order.certificate r s.log
              × (parse_certificate_data W r.body ≡ ok c))}
        _ _
        (Leads-lift_by _ (λ c e s h. (h.0, (h.1.0, h.1.1, ap (parse_certificate_data W) h.1.2 ∙ e)))
          (λ s h. tt))
        λ c. Leads-pure _ λ s h. record { order = order; reported = h.0; source = inr (valid, h.1) }

  plain-Tells :
      (status : CertificateStatus) (message : Text)
      → Leads Known
          (λ d s. TellsCertificate W id d s.log)
          Anything
          (pure (without_certificate id status message))
  plain-Tells status message =
      Leads-pure _ λ s h. record { order = order; reported = h; source = inl refl }

  certificate_of-Tells :
      Leads Known (λ d s. TellsCertificate W id d s.log) Anything (certificate_of W id order)
  unfolding certificate_of
  certificate_of-Tells =
      Leads-if_by (text_eq order.status status_valid) _ _
        (λ valid.
          Leads-if (is_empty order.certificate) _ _ (plain-Tells CertificateStatus.requested [])
            (download-Tells ((text_eq_iff order.status status_valid).0 valid)))
        (λ other.
          Leads-if (text_eq order.status status_invalid) _ _ (plain-Tells _ _) (plain-Tells _ _))

ask_certificate-Tells :
    (W : Platform) (conn : Connection) (id : Text)
    → Leads Anything (λ d s. TellsCertificate W id d s.log) Anything (ask_certificate W conn id)
unfolding ask_certificate
ask_certificate-Tells W conn id =
    Leads-bind {Q = λ _. Anything} _ _ (anyway (ensure_account W conn))
      λ _. Leads-bind _ _ (get_order-Reported W.outside id) λ order. certificate_of-Tells W id order

-- The answer of `CheckCertificate` goes back to an order that the CA has reported for the given URL,
-- and it holds a certificate only if that order is "valid" and the CA has answered the signed request
-- for the order's certificate with the text from which leaf and chain were read.
pub check_certificate-TellsCertificate :
    (W : Platform) (conn : Connection) (id : Text) (log : List Event) (d : CertificateDetails)
    → (check_certificate W conn id log).0 ≡ ok d
    → TellsCertificate W id d (check_certificate W conn id log).1
unfolding check_certificate with_client
check_certificate-TellsCertificate W conn id log d h =
    run_with-result W (λ l. Unit) (TellsCertificate W id) (build_client W conn)
      (ask_certificate W conn id) log d (ask_certificate-Tells W conn id) tt h

-- The answer of `CheckOrder` goes back to an order that the CA has reported for the given URL, under
-- that URL as its id: it says completed, with the URL as the certificate's id, exactly for the status
-- "valid", failed, with the message of the order's problem, exactly for "invalid", and processing for
-- any other status.
pub check_order-TellsOrder :
    (W : Platform) (conn : Connection) (id : Text) (log : List Event) (d : OrderDetails)
    → (check_order W conn id log).0 ≡ ok d
    → TellsOrder W.outside id d (check_order W conn id log).1
unfolding check_order with_client
check_order-TellsOrder W conn id log d h =
    run_with-result W (λ l. Unit) (TellsOrder W.outside id) (build_client W conn)
      (ask_order W conn id) log d (ask_order-Tells W conn id) tt h
