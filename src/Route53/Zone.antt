-- ===== src/Route53/Zone.antt =====
-- What `EnsureRecord` does to a hosted zone.
pub mod Removal
use mathlib.Core.Path.{subst}
use cm_saas_letsencrypt_ca_c.Base.{
  or_true, All, ◌&&◌, ◌≢◌, Bool, text_eq_iff, arith, ℕ, zero, suc, ◌≡◌, refl, ap, sym, ◌∙◌, true,
  false, Option, List, [], ◌∷◌, ◌++◌, Text, text, text_eq, text_eq_refl, eq_fold, lower, member,
  if◌then◌else◌, ltb, Bool-cases, inl, inr, trim_prefix,
}
use cm_saas_letsencrypt_ca_c.Errors.{Err, Result, ok, err}
use cm_saas_letsencrypt_ca_c.Errors.Laws.{wrap_result-err}
use cm_saas_letsencrypt_ca_c.Route53.{
  RecordSet, upsert, delete, Sdk, quote_txt, ensure_dot, find_txt, txt_set, id_of, is_insync,
  found_in, existing_txt, changed, change, sync_wait, sync_step, sync_loop, sync_change,
  wait_for_sync, then_sync, ensure_in, ensure_record, forget_id, remove, delete_in, delete_record,
  sync_interval,
}
use cm_saas_letsencrypt_ca_c.Route53.Values.{
  others, with_value_new, with_value_known, without_value_lem, others_absent,
}

-- A record set that is no TXT set of the name.
abbrev pub IsOther : Text → RecordSet → Type 0
IsOther name rrs = rrs.kind ≡ text "TXT" → lower rrs.name ≢ lower name

-- What the API documents: a change that is accepted is seen by the next listing from its name and
-- type on, which begins with the set if it is there, and with the next set of the zone if it is not;
-- time alone changes no record.
pub record IsZoneService {S : Type 0} (A : Sdk S) : Type 0 where
  pub upsert_listed :
      (zone name : Text) (values : List Text) (id : Option Text) (s s' : S)
      → A.change_set zone upsert (txt_set name values) s ≡ (ok id, s')
      → A.list_sets s' zone name ≡ ok (txt_set name values ∷ [])
  pub delete_listed :
      (zone name : Text) (values : List Text) (id : Option Text) (s s' : S)
      → A.change_set zone delete (txt_set name values) s ≡ (ok id, s')
      → (sets : List RecordSet) × (A.list_sets s' zone name ≡ ok sets) × All (IsOther name) sets
  pub sleep_listed :
      (n : ℕ) (s : S) (zone name : Text)
      → A.list_sets (A.sleep n s) zone name ≡ A.list_sets s zone name

abbrev pub with_member : Text → List Text → List Text
with_member want before = if member want before then before else before ++ want ∷ []

pub find_txt_set :
    (name : Text) (values : List Text) → find_txt name (txt_set name values ∷ []) ≡ values
unfolding find_txt eq_fold
find_txt_set name values = rw (text_eq_refl (text "TXT")) (rw (text_eq_refl (lower name)) refl)

pub find_txt_others :
    (name : Text) (sets : List RecordSet) → All (IsOther name) sets → find_txt name sets ≡ []
unfolding find_txt eq_fold
find_txt_others name [] h = refl
find_txt_others name (rrs ∷ sets) h =
    elim (Bool-cases (text_eq rrs.kind (text "TXT") && eq_fold rrs.name name)) [
      | inl y ↦
          absurd
            (h.0 ((text_eq_iff _ _).0 (and_left _ _ y)) ((text_eq_iff _ _).0 (and_right _ _ y)))
      | inr n ↦ rw n (find_txt_others name sets h.1)
    ]
  where
    and_left : (a b : Bool) → (a && b) ≡ true → a ≡ true
    and_left a b h = ground arith

    and_right : (a b : Bool) → (a && b) ≡ true → b ≡ true
    and_right a b h = ground arith

module _ {S : Type 0} (A : Sdk S) (service : IsZoneService A) where
  abbrev Listed : Text → Text → Result (List RecordSet) → Result (Unit {0}) × S → Type 0
  Listed zone name r o = A.list_sets o.1 zone name ≡ r

  sync_wait-Listed :
      (zone name : Text) (r : Result (List RecordSet)) (s : S) (c : Result (Unit {0}))
      (next : S → Result (Unit {0}) × S)
      → ((t : S) → A.list_sets t zone name ≡ r → Listed zone name r (next t))
      → A.list_sets s zone name ≡ r
      → Listed zone name r (sync_wait A s c next)
  sync_wait-Listed zone name r s (err e) next k h = h
  sync_wait-Listed zone name r s (ok u) next k h =
      k (A.sleep (sync_interval A) s) (service.sleep_listed (sync_interval A) s zone name ∙ h)

  sync_step-Listed :
      (zone name : Text) (r : Result (List RecordSet)) (id : Text) (deadline : ℕ) (s : S)
      (g : Result (Option Text)) (next : S → Result (Unit {0}) × S)
      → ((t : S) → A.list_sets t zone name ≡ r → Listed zone name r (next t))
      → A.list_sets s zone name ≡ r
      → Listed zone name r (sync_step A id deadline s g next)
  sync_step-Listed zone name r id deadline s (err e) next k h = h
  sync_step-Listed zone name r id deadline s (ok status) next k h =
      elim (Bool-cases (is_insync status)) [
        | inl y ↦ rw y h
        | inr n ↦ rw n (elim (Bool-cases (ltb deadline (A.now s))) [
          | inl late ↦ rw late h
          | inr early ↦ rw early (sync_wait-Listed zone name r s (A.cancelled s) next k h)
        ])
      ]

  sync_loop-Listed :
      (zone name : Text) (r : Result (List RecordSet)) (rounds : ℕ) (id : Text) (deadline : ℕ)
      (s : S)
      → A.list_sets s zone name ≡ r
      → Listed zone name r (sync_loop A rounds id deadline s)
  unfolding sync_loop
  sync_loop-Listed zone name r zero id deadline s h = h
  sync_loop-Listed zone name r (suc rounds) id deadline s h =
      sync_step-Listed zone name r id deadline s (A.get_change s id)
        (sync_loop A rounds id deadline) (λ t. sync_loop-Listed zone name r rounds id deadline t) h

  sync_change-Listed :
      (zone name : Text) (r : Result (List RecordSet)) (id : Text) (s : S)
      → A.list_sets s zone name ≡ r
      → Listed zone name r (sync_change A id s)
  sync_change-Listed zone name r [] s h = h
  sync_change-Listed zone name r (c ∷ id) s h = sync_loop-Listed zone name r _ (c ∷ id) _ s h

  pub existing_of_listed :
      (s : S) (zone name : Text) (sets : List RecordSet)
      → A.list_sets s zone name ≡ ok sets
      → existing_txt A s zone name ≡ ok (find_txt name sets)
  unfolding existing_txt
  existing_of_listed s zone name sets h = ap (found_in A name) h

  refused : (r : Result Text) (s : S) → (e : Err) × (r ≡ err e) → (then_sync A (r, s)).0 ≡ ok tt → ⊥
  refused (ok id) s h k = let e = h.1 in cc
  refused (err e) s h k = cc

  upserted-existing :
      (zone name : Text) (values : List Text) (s : S) (c : Result (Option Text) × S)
      → A.change_set zone upsert (txt_set name values) s ≡ c
      → (then_sync A (changed A upsert name c)).0 ≡ ok tt
      → existing_txt A (then_sync A (changed A upsert name c)).1 zone name ≡ ok values
  unfolding wait_for_sync
  upserted-existing zone name values s (err e, s') g h =
      absurd (refused _ s' (wrap_result-err _ e) h)
  upserted-existing zone name values s (ok id, s') g h =
      existing_of_listed _ zone name (txt_set name values ∷ []) (
        sync_change-Listed zone name _ (trim_prefix (id_of id) (text "/change/")) s'
          (service.upsert_listed zone name values id s s' g))
      ∙ ap ok (find_txt_set name values)

  published-existing :
      (zone name want : Text) (before : List Text) (s : S)
      → existing_txt A s zone name ≡ ok before
      → (ensure_in A zone name want (ok before) s).0 ≡ ok tt
      → existing_txt A (ensure_in A zone name want (ok before) s).1 zone name
        ≡ ok (with_member want before)
  unfolding change
  published-existing zone name want before s known h = elim (Bool-cases (member want before)) [
    | inl y ↦ rw (with_value_known want before [] y) (rw y known)
    | inr n ↦ rw (with_value_new want before [] n) (
        rw n (
          upserted-existing zone name (before ++ want ∷ []) s _ refl
            (rw (with_value_new want before [] n) at h)))
  ]

  -- `EnsureRecord` from the listing before.
  ensured-existing :
      (zone name want : Text) (s : S) (r : Result (List Text))
      → existing_txt A s zone name ≡ r
      → (ensure_in A zone name want r s).0 ≡ ok tt
      → (before : List Text) × (r ≡ ok before)
        × (existing_txt A (ensure_in A zone name want r s).1 zone name
            ≡ ok (with_member want before))
  ensured-existing zone name want s (err e) known h = cc
  ensured-existing zone name want s (ok before) known h =
      (before, refl, published-existing zone name want before s known h)

  pub ensure_record-existing :
      (zone fqdn rdata : Text) (s : S)
      → (ensure_record A zone fqdn rdata s).0 ≡ ok tt
      → (before : List Text) × (existing_txt A s zone (ensure_dot fqdn) ≡ ok before)
        × (existing_txt A (ensure_record A zone fqdn rdata s).1 zone (ensure_dot fqdn)
            ≡ ok (with_member (quote_txt rdata) before))
  unfolding ensure_record
  ensure_record-existing zone fqdn rdata s h =
      ensured-existing zone (ensure_dot fqdn) (quote_txt rdata) s _ refl h

  with_member-member :
      (want : Text) (before : List Text) → member want (with_member want before) ≡ true
  with_member-member want before = elim (Bool-cases (member want before)) [
    | inl y ↦ rw y y
    | inr n ↦ rw n (member-last want before)
  ]
    where
      member-last : (want : Text) (vs : List Text) → member want (vs ++ want ∷ []) ≡ true
      member-last want [] = rw (text_eq_refl want) refl
      member-last want (v ∷ vs) = rw (member-last want vs) (or_true (text_eq v want))

  again_nothing :
      (zone name want : Text) (values : List Text) (s : S)
      → existing_txt A s zone name ≡ ok values
      → member want values ≡ true
      → ensure_in A zone name want (existing_txt A s zone name) s ≡ (ok tt, s)
  again_nothing zone name want values s known m =
      rw known (rw (with_value_known want values [] m) refl)

  -- `EnsureRecord` is idempotent: behind one that succeeds, the same call succeeds again and changes
  -- nothing at all.
  pub ensure_record_idem :
      (zone fqdn rdata : Text) (s s' : S)
      → ensure_record A zone fqdn rdata s ≡ (ok tt, s')
      → ensure_record A zone fqdn rdata s' ≡ (ok tt, s')
  unfolding ensure_record
  ensure_record_idem zone fqdn rdata s s' h =
      let (before, k, after) =
        ensure_record-existing zone fqdn rdata s (ap (λ (o : Result (Unit {0}) × S). o.0) h) in
      again_nothing zone (ensure_dot fqdn) (quote_txt rdata) (with_member (quote_txt rdata) before)
        s'
        (subst
          (λ (t : S).
            existing_txt A t zone (ensure_dot fqdn) ≡ ok (with_member (quote_txt rdata) before))
          (ap (λ (o : Result (Unit {0}) × S). o.1) h) after)
        (with_member-member (quote_txt rdata) before)
