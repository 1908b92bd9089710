-- ===== src/Service/Opened.antt =====
-- What stays true of an opened order as the trace goes on: internal/app/service/certificate.go.
use cm_saas_letsencrypt_ca_c.Acme.Act.Leads.{
  Anything, anyway, Leads, Leads-pure, Leads-lift_by, Leads-bind, Leads-in_context,
}
use cm_saas_letsencrypt_ca_c.Base.{◌≡◌, refl, some, List, [], ◌∷◌, Text, All}
use cm_saas_letsencrypt_ca_c.Errors.{ok}
use cm_saas_letsencrypt_ca_c.Acme.Types.{Order, Response}
use cm_saas_letsencrypt_ca_c.Acme.Outside.{Outside, Event}
use cm_saas_letsencrypt_ca_c.Acme.Act.{lift}
use cm_saas_letsencrypt_ca_c.Acme.Client.{directory}
use cm_saas_letsencrypt_ca_c.Acme.Order.{new_order, finalize}
use cm_saas_letsencrypt_ca_c.Acme.Engine.Log.{IsClosed, OnLog}
use cm_saas_letsencrypt_ca_c.Acme.Engine.Answers.{Answered, post_signed-Posted}
use cm_saas_letsencrypt_ca_c.Acme.Engine.Validated.{Validated, anything-IsClosed}
use cm_saas_letsencrypt_ca_c.Domain.{OrderDetails}

pub record Opened (O : Outside) (order : Order) (log : List Event) : Type 0 where
  pub url : Text
  pub answer : Response
  pub in_trace : Answered (λ _. Unit) url answer log
  pub parsed : Order
  pub body : O.read_order answer.body ≡ ok parsed
  pub location : order ≡ record parsed { url = answer.location }

-- The order is open and each of its authorizations is valid.
pub record Confirmed (O : Outside) (order : Order) (log : List Event) : Type 0 where
  pub opened : Opened O order log
  pub each_valid : All (λ url. Validated O url log) order.authorizations

-- The order of the given details was finalized, and it was confirmed before that.
pub record Issued (O : Outside) (details : OrderDetails) (log : List Event) : Type 0 where
  pub order : Order
  pub named : details.id ≡ order.url
  pub answer : Response
  pub in_trace : Answered (Confirmed O order) order.finalize answer log

module _ (O : Outside) where
  pub Validated-IsClosed : (url : Text) → IsClosed (Validated O url)
  Validated-IsClosed url = record {
    on_answer = λ log req r h. grown log _ h;
    on_silence = λ log req h. grown log _ h;
    on_pause = λ log n h. grown log _ h;
  }
    where
      grown : (log : List Event) (e : Event) → Validated O url log → Validated O url (e ∷ log)
      grown log e h = record {
        authorization = h.authorization;
        reported = record {
          answer = h.reported.answer;
          in_trace = Answered.earlier e log h.reported.in_trace;
          accepted = h.reported.accepted;
          body = h.reported.body;
        };
        is_valid = h.is_valid;
      }

  pub Opened-IsClosed : (order : Order) → IsClosed (Opened O order)
  Opened-IsClosed order = record {
    on_answer = λ log req r h. grown log _ h;
    on_silence = λ log req h. grown log _ h;
    on_pause = λ log n h. grown log _ h;
  }
    where
      grown : (log : List Event) (e : Event) → Opened O order log → Opened O order (e ∷ log)
      grown log e h = record {
        url = h.url;
        answer = h.answer;
        in_trace = Answered.earlier e log h.in_trace;
        parsed = h.parsed;
        body = h.body;
        location = h.location;
      }

  pub All-IsClosed :
      (Q : Text → List Event → Type 0)
      → ((url : Text) → IsClosed (Q url))
      → (urls : List Text) → IsClosed (λ log. All (λ url. Q url log) urls)
  All-IsClosed Q closed [] = anything-IsClosed O
  All-IsClosed Q closed (url ∷ urls) =
      let rest = All-IsClosed Q closed urls in
      record {
        on_answer =
            λ log req r h. ((closed url).on_answer log req r h.0, rest.on_answer log req r h.1);
        on_silence =
            λ log req h. ((closed url).on_silence log req h.0, rest.on_silence log req h.1);
        on_pause = λ log n h. ((closed url).on_pause log n h.0, rest.on_pause log n h.1);
      }

  pub Confirmed-IsClosed : (order : Order) → IsClosed (Confirmed O order)
  Confirmed-IsClosed order =
      let o = Opened-IsClosed order in
      let v = All-IsClosed (Validated O) Validated-IsClosed order.authorizations in
      record {
        on_answer = λ log req r h. record {
          opened = o.on_answer log req r h.opened;
          each_valid = v.on_answer log req r h.each_valid;
        };
        on_silence = λ log req h. record {
          opened = o.on_silence log req h.opened;
          each_valid = v.on_silence log req h.each_valid;
        };
        on_pause = λ log n h. record {
          opened = o.on_pause log n h.opened;
          each_valid = v.on_pause log n h.each_valid;
        };
      }

  pub new_order-Opened :
      (names : List Text)
      → Leads Anything (λ order s. Opened O order s.log) Anything (new_order O names)
  unfolding new_order
  new_order-Opened names = Leads-bind {Q = λ _. Anything} _ _ (anyway (directory O)) λ dir.
      Leads-bind {Q = λ _. Anything} _ _ (anyway (lift _)) λ body.
        Leads-bind _ _
          (Leads-in_context _ _
            (post_signed-Posted O (anything-IsClosed O) dir.new_order (some body)))
          λ r.
            Leads-bind {Q = λ _ s. Answered (λ _. Unit) dir.new_order r s.log} _ _
              (Leads-lift_by _ (λ u e s h. h.0) (λ s h. tt))
              λ _.
                Leads-bind
                  {Q = λ o s.
                    Answered (λ _. Unit) dir.new_order r s.log × (O.read_order r.body ≡ ok o)}
                  _ _ (Leads-in_context _ _ (Leads-lift_by _ (λ o e s h. (h, e)) (λ s h. tt)))
                  λ o. Leads-pure _ λ s h. record {
                    url = dir.new_order;
                    answer = r;
                    in_trace = h.0;
                    parsed = o;
                    body = h.1;
                    location = refl;
                  }

  pub finalize-Answered :
      {P : List Event → Type 0}
      → IsClosed P
      → (url der : Text)
      → Leads
          (OnLog P)
          (λ _ s. (r : Response) × Answered P url r s.log)
          Anything
          (finalize O url der)
  unfolding finalize
  finalize-Answered {P} closed url der =
      Leads-bind {Q = λ _. OnLog P} _ _ (Leads-lift_by _ (λ b e s h. h) (λ s h. tt)) λ body.
        Leads-bind _ _ (Leads-in_context _ _ (post_signed-Posted O closed url (some body))) λ r.
          Leads-bind {Q = λ _ s. Answered P url r s.log} _ _
            (Leads-lift_by _ (λ u e s h. h.0) (λ s h. tt))
            λ _.
              Leads-bind {Q = λ _ s. Answered P url r s.log} _ _
                (Leads-in_context _ _ (Leads-lift_by _ (λ o e s h. h) (λ s h. tt)))
                λ o. Leads-pure _ λ s h. (r, h)
