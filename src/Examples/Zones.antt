-- ===== src/Examples/Zones.antt =====
-- A hosted zone service that keeps its changes in a list, the newest first; a listing goes on to the
-- next set of the zone.
use mathlib.Core.Path.{subst}
use cm_saas_letsencrypt_ca_c.Base.{
  ℕ, ◌+◌, ◌≡◌, refl, ap, arith, ◌&&◌, Option, none, some, List, [], ◌∷◌, Text, text, text_eq,
  text_eq_refl, if◌then◌else◌, has_suffix, replace_char, lower_char, eq_fold,
}
use cm_saas_letsencrypt_ca_c.Errors.{Result, ok}
use cm_saas_letsencrypt_ca_c.Route53.{
  RecordSet, ChangeAction, upsert, delete, Sdk, txt_set, ensure_record, delete_record, existing_txt,
  ensure_dot, quote_txt, find_txt, with_value, without_value, change, wait_for_sync, sync_loop,
}
use cm_saas_letsencrypt_ca_c.Route53.Zone.{IsZoneService}
use cm_saas_letsencrypt_ca_c.Route53.Sync.{TimerPasses}

pub record Entry : Type 0 where
  pub zone : Text
  pub name : Text
  pub values : Option (List Text)

pub record Zones : Type 0 where
  pub entries : List Entry
  pub clock : ℕ

-- A record set of the zone that stands behind all others.
abbrev last_set : RecordSet
last_set = record { name = text "zz."; kind = text "A"; ttl = 60; values = [] }

abbrev listing : Text → Option (List Text) → List RecordSet
listing name none = last_set ∷ []
listing name (some values) = txt_set name values ∷ []

abbrev look : Text → Text → List Entry → List RecordSet
look zone name [] = last_set ∷ []
look zone name (e ∷ es) =
    let rest = look zone name es in
    if text_eq e.zone zone && text_eq e.name name then listing name e.values else rest

abbrev stored : ChangeAction → List Text → Option (List Text)
stored upsert values = some values
stored delete values = none

abbrev apply : Text → ChangeAction → RecordSet → Zones → Zones
apply zone action set z = record z {
  entries = record { zone = zone; name = set.name; values = stored action set.values } ∷ z.entries;
}

abbrev pub lab_zones : Sdk Zones
lab_zones = record {
  list_sets = λ z zone name. ok (look zone name z.entries);
  list_zone = λ z zone. ok tt;
  change_set = λ zone action set z. (ok (some (text "/change/C1")), apply zone action set z);
  get_change = λ z id. ok (some (text "INSYNC"));
  now = λ z. z.clock;
  cancelled = λ z. ok tt;
  sleep = λ n z. record z { clock = z.clock + n };
}

a_is_no_txt : last_set.kind ≡ text "TXT" → ⊥
unfolding text
a_is_no_txt e = cc

pub lab_zones-IsZoneService : IsZoneService lab_zones
lab_zones-IsZoneService = record {
  upsert_listed =
      λ zone name values id s s' h. listed zone name (some values) upsert values id s s' h refl;
  delete_listed = λ zone name values id s s' h. (
    last_set ∷ [],
    listed zone name none delete values id s s' h refl,
    (λ e. absurd (a_is_no_txt e), tt),
  );
  sleep_listed = λ n s zone name. refl;
}
  where
    listed :
        (zone name : Text) (o : Option (List Text)) (action : ChangeAction) (values : List Text)
        (id : Option Text) (s s' : Zones)
        → lab_zones.change_set zone action (txt_set name values) s ≡ (ok id, s')
        → stored action values ≡ o
        → lab_zones.list_sets s' zone name ≡ ok (listing name o)
    listed zone name o action values id s s' h e =
        subst (λ (z : Zones). lab_zones.list_sets z zone name ≡ ok (listing name o))
          (ap (λ (r : Result (Option Text) × Zones). r.1) h)
          (rw (text_eq_refl zone)
            (rw (text_eq_refl name) (ap (λ (v : Option (List Text)). ok (listing name v)) e)))

pub lab_zones-TimerPasses : TimerPasses lab_zones
lab_zones-TimerPasses n s = omega arith

abbrev pub no_zones : Zones
no_zones = record { entries = []; clock = 0 }

abbrev pub one_zone : Zones
one_zone = apply (text "Z1") upsert (txt_set (text "a.") (text "\"v\"" ∷ [])) no_zones

pub delete_runs : (delete_record lab_zones (text "Z1") (text "a") (text "v") one_zone).0 ≡ ok tt
unfolding text ensure_record delete_record existing_txt ensure_dot quote_txt find_txt with_value
    without_value change wait_for_sync sync_loop replace_char has_suffix eq_fold lower_char
delete_runs = refl

abbrev pub two_zone : Zones
two_zone = apply (text "Z1") upsert (txt_set (text "b.") (text "\"w\"" ∷ [])) one_zone

pub first_runs :
    ensure_record lab_zones (text "Z1") (text "b") (text "w") one_zone ≡ (ok tt, two_zone)
unfolding text ensure_record delete_record existing_txt ensure_dot quote_txt find_txt with_value
    without_value change wait_for_sync sync_loop replace_char has_suffix eq_fold lower_char
first_runs = refl
