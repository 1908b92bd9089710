-- ===== src/Route53/Zone/Removal.antt =====
-- What `DeleteRecord` leaves in a hosted zone.
use cm_saas_letsencrypt_ca_c.Base.{
  ◌≡◌, refl, ap, sym, ◌∙◌, true, false, Option, List, [], ◌∷◌, Text, member, Bool-cases, inl, inr,
}
use cm_saas_letsencrypt_ca_c.Errors.{Err, Result, ok, err}
use cm_saas_letsencrypt_ca_c.Errors.Laws.{wrap_result-err}
use cm_saas_letsencrypt_ca_c.Route53.{
  upsert, delete, Sdk, quote_txt, ensure_dot, find_txt, txt_set, existing_txt, changed, change,
  forget_id, remove, delete_in, delete_record,
}
use cm_saas_letsencrypt_ca_c.Route53.Values.{others, without_value_lem, others_absent}
use cm_saas_letsencrypt_ca_c.Route53.Zone.{
  IsZoneService, find_txt_set, find_txt_others, existing_of_listed,
}

module _ {S : Type 0} (A : Sdk S) (service : IsZoneService A) where
  not_forgotten :
      (r : Result Text) (s : S) → (e : Err) × (r ≡ err e) → (forget_id A (r, s)).0 ≡ ok tt → ⊥
  not_forgotten (ok id) s h k = let e = h.1 in cc
  not_forgotten (err e) s h k = cc

  updated-existing :
      (zone name : Text) (values : List Text) (s : S) (c : Result (Option Text) × S)
      → A.change_set zone upsert (txt_set name values) s ≡ c
      → (forget_id A (changed A upsert name c)).0 ≡ ok tt
      → existing_txt A (forget_id A (changed A upsert name c)).1 zone name ≡ ok values
  updated-existing zone name values s (err e, s') g h =
      absurd (not_forgotten _ s' (wrap_result-err _ e) h)
  updated-existing zone name values s (ok id, s') g h =
      existing_of_listed A service s' zone name (txt_set name values ∷ [])
        (service.upsert_listed zone name values id s s' g)
      ∙ ap ok (find_txt_set name values)

  emptied-existing :
      (zone name : Text) (values : List Text) (s : S) (c : Result (Option Text) × S)
      → A.change_set zone delete (txt_set name values) s ≡ c
      → (forget_id A (changed A delete name c)).0 ≡ ok tt
      → existing_txt A (forget_id A (changed A delete name c)).1 zone name ≡ ok []
  unfolding find_txt
  emptied-existing zone name values s (err e, s') g h =
      absurd (not_forgotten _ s' (wrap_result-err _ e) h)
  emptied-existing zone name values s (ok id, s') g h =
      let (sets, listed, others) = service.delete_listed zone name values id s s' g in
      existing_of_listed A service s' zone name sets listed
      ∙ ap ok (find_txt_others name sets others)

  removed-existing :
      (zone name : Text) (before remaining : List Text) (s : S)
      → (remove A zone name before (true, remaining) s).0 ≡ ok tt
      → existing_txt A (remove A zone name before (true, remaining) s).1 zone name ≡ ok remaining
  unfolding change
  removed-existing zone name before [] s h = emptied-existing zone name before s _ refl h
  removed-existing zone name before (v ∷ remaining) s h =
      updated-existing zone name (v ∷ remaining) s _ refl h

  -- The part of `DeleteRecord` behind the loop, which finds the value or not.
  chosen-existing :
      (zone name want : Text) (before : List Text) (s : S)
      → existing_txt A s zone name ≡ ok before
      → (remove A zone name before (member want before, others want before) s).0 ≡ ok tt
      → existing_txt A
          (remove A zone name before (member want before, others want before) s).1
          zone
          name
        ≡ ok (others want before)
  chosen-existing zone name want before s known h = elim (Bool-cases (member want before)) [
    | inl y ↦ rw y (removed-existing zone name before (others want before) s (rw y at h))
    | inr n ↦ rw n (known ∙ ap ok (sym (others_absent want before n)))
  ]

  deleted-existing :
      (zone name want : Text) (s : S) (r : Result (List Text))
      → existing_txt A s zone name ≡ r
      → (delete_in A zone name want r s).0 ≡ ok tt
      → (before : List Text) × (r ≡ ok before)
        × (existing_txt A (delete_in A zone name want r s).1 zone name ≡ ok (others want before))
  deleted-existing zone name want s (err e) known h = cc
  deleted-existing zone name want s (ok []) known h = ([], refl, known)
  deleted-existing zone name want s (ok (v ∷ before)) known h = (
    v ∷ before,
    refl,
    rw (without_value_lem want (v ∷ before) false []) (
        chosen-existing zone name want (v ∷ before) s known
          (rw (without_value_lem want (v ∷ before) false []) at h)),
  )

  -- At a zone service whose next listing shows what was changed, also where it goes on to the next set
  -- of the zone, a `DeleteRecord` that succeeds leaves exactly the values of the name that are not the quoted
  -- value, in their order, also where none are left and the record set goes away.
  pub delete_record-existing :
      (zone fqdn rdata : Text) (s : S)
      → (delete_record A zone fqdn rdata s).0 ≡ ok tt
      → (before : List Text) × (existing_txt A s zone (ensure_dot fqdn) ≡ ok before)
        × (existing_txt A (delete_record A zone fqdn rdata s).1 zone (ensure_dot fqdn)
            ≡ ok (others (quote_txt rdata) before))
  unfolding delete_record
  delete_record-existing zone fqdn rdata s h =
      deleted-existing zone (ensure_dot fqdn) (quote_txt rdata) s _ refl h
