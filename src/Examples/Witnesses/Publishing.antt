-- ===== src/Examples/Witnesses/Publishing.antt =====
-- The theorems on the DNS provider and the onboarding tool at concrete inputs.
use cm_saas_letsencrypt_ca_c.Base.{
  refl, ◌≡◌, ◌+◌, true, false, Text, List, [], ◌∷◌, All, text, member, length, lower, has_suffix,
  inl,
}
use cm_saas_letsencrypt_ca_c.Errors.{ok}
use cm_saas_letsencrypt_ca_c.Route53.{
  existing_txt, delete_record, ensure_dot, quote_txt, sync_loop, sync_rounds, sync_timeout,
}
use cm_saas_letsencrypt_ca_c.Route53.Values.{others}
use cm_saas_letsencrypt_ca_c.Route53.Zone.Removal.{delete_record-existing}
use cm_saas_letsencrypt_ca_c.Route53.Sync.{sync_rounds_suffice}
use cm_saas_letsencrypt_ca_c.Plan.{collapse}
use cm_saas_letsencrypt_ca_c.Plan.Served.{IsServed, collapse-IsServed}
use cm_saas_letsencrypt_ca_c.Examples.Zones.{
  Zones, lab_zones, lab_zones-IsZoneService, lab_zones-TimerPasses, one_zone, delete_runs,
}
use cm_saas_letsencrypt_ca_c.Tool.Lines.{IsAccepted, record_lines-IsAccepted}
use cm_saas_letsencrypt_ca_c.Examples.Runs.{two_names}
use cm_saas_letsencrypt_ca_c.Examples.Texts.{tool_lines, lines_runs}

delete_record-existing_example :
    (before : List Text) × (existing_txt lab_zones one_zone (text "Z1") (ensure_dot (text "a"))
      ≡ ok before)
    × (existing_txt lab_zones
          (delete_record lab_zones (text "Z1") (text "a") (text "v") one_zone).1
          (text "Z1")
          (ensure_dot (text "a"))
        ≡ ok (others (quote_txt (text "v")) before))
delete_record-existing_example =
    delete_record-existing lab_zones lab_zones-IsZoneService (text "Z1") (text "a") (text "v")
      one_zone delete_runs

sync_rounds_suffice_example :
    sync_loop lab_zones
      (sync_rounds lab_zones + 8)
      (text "C1")
      (0 + sync_timeout lab_zones)
      one_zone
    ≡ sync_loop lab_zones (sync_rounds lab_zones) (text "C1") (0 + sync_timeout lab_zones) one_zone
sync_rounds_suffice_example =
    sync_rounds_suffice lab_zones (text "C1") 8 one_zone lab_zones-TimerPasses

abbrev sans : List Text
sans = text "*.a.de" ∷ text "b.a.de" ∷ []

sans-member : member (text "b.a.de") sans ≡ true
unfolding text
sans-member = refl

no_dot_behind : has_suffix (text "b.a.de") (text ".") ≡ false
unfolding text has_suffix
no_dot_behind = refl

collapse-IsServed_example : IsServed (lower (text "b.a.de")) (collapse sans)
collapse-IsServed_example =
    collapse-IsServed (text "b.a.de") (text "b.a.de") sans (inl (refl, no_dot_behind)) sans-member

record_lines-IsAccepted_example :
    (length tool_lines ≡ length two_names) × All (IsAccepted (117 ∷ [])) tool_lines
record_lines-IsAccepted_example =
    record_lines-IsAccepted (117 ∷ []) false two_names tool_lines (refl, tt) lines_runs
