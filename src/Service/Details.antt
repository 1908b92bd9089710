-- ===== src/Service/Details.antt =====
-- What CheckOrder of internal/app/service/certificate.go says of an order.
use cm_saas_letsencrypt_ca_c.Base.{
  ◌≡◌, refl, ◌⊎◌, inl, inr, [], Text, text, false, ◌≢◌, Bool-cases, text_eq, text_eq_iff,
}
use cm_saas_letsencrypt_ca_c.Acme.Types.{Order}
use cm_saas_letsencrypt_ca_c.Domain.{OrderDetails, OrderStatus}
use cm_saas_letsencrypt_ca_c.Service.Check.{problem_message, order_details}

-- What the details of a request say of an order: completed with the certificate's id for "valid",
-- failed with the text of the problem for "invalid", and processing for any other status.
abbrev pub SaysOf : Text → Order → OrderDetails → Type 0
SaysOf id order d =
    ((order.status ≡ text "valid")
      × (d.status ≡ OrderStatus.completed)
      × (d.certificate_id ≡ id)
      × (d.error_message ≡ []))
    ⊎ (((order.status ≡ text "invalid")
          × (d.status ≡ OrderStatus.failed)
          × (d.certificate_id ≡ [])
          × (d.error_message ≡ problem_message order.error))
        ⊎ ((order.status ≢ text "valid")
            × (order.status ≢ text "invalid")
            × (d.status ≡ OrderStatus.processing)
            × (d.certificate_id ≡ [])
            × (d.error_message ≡ [])))

pub differs : (s t : Text) → text_eq s t ≡ false → s ≢ t
differs s t n e = let y = (text_eq_iff s t).1 e in cc

pub order_details-SaysOf :
    (id : Text) (order : Order)
    → ((order_details id order).id ≡ id) × SaysOf id order (order_details id order)
unfolding order_details
order_details-SaysOf id order = elim (Bool-cases (text_eq order.status (text "valid"))) [
  | inl y ↦ rw y (refl, inl ((text_eq_iff _ _).0 y, refl, refl, refl))
  | inr n ↦ rw n (elim (Bool-cases (text_eq order.status (text "invalid"))) [
    | inl y ↦ rw y (refl, inr (inl ((text_eq_iff _ _).0 y, refl, refl, refl)))
    | inr m ↦ rw m (refl, inr (inr (differs _ _ n, differs _ _ m, refl, refl, refl)))
  ])
]
