-- ===== src/Route53.antt =====
-- internal/publisher/route53/route53.go: the standing records in a hosted zone of AWS Route 53.
pub mod Values
pub mod Zone
pub mod Sync
use cm_saas_letsencrypt_ca_c.Base.{
  ℕ, zero, suc, ◌+◌, Bool, true, false, not, Option, none, some, List, [], ◌∷◌, ◌++◌, Text, text,
  text_eq, trim_prefix, has_suffix, replace_char, eq_fold, is_empty, if◌then◌else◌, ltb, ◌&&◌,
}
use cm_saas_letsencrypt_ca_c.Errors.{Err, fail, spinning, Result, ok, err, wrap_result}

abbrev pub record_ttl : ℕ
record_ttl = 60

pub record RecordSet : Type 0 where
  pub name : Text
  pub kind : Text
  pub ttl : ℕ
  pub values : List Text

pub data ChangeAction : Type 0 where
  upsert delete : ChangeAction

-- What the code calls of the SDK, over the state `S` of the world: the three API calls, the clock,
-- the cancellation of the call and the timer.
pub record Sdk (S : Type 0) : Type 0 where
  -- `ListResourceRecordSets`, from a zone and a name on, one set at most
  pub list_sets : S → Text → Text → Result (List RecordSet)
  -- `ListResourceRecordSets` of a zone, for its error
  pub list_zone : S → Text → Result (Unit {0})
  -- `ChangeResourceRecordSets`: the id of the change, `none` if there is no `ChangeInfo`
  pub change_set : Text → ChangeAction → RecordSet → S → Result (Option Text) × S
  -- `GetChange`: the status, `none` if there is no `ChangeInfo`
  pub get_change : S → Text → Result (Option Text)
  pub now : S → ℕ
  pub cancelled : S → Result (Unit {0})
  pub sleep : ℕ → S → S

-- `quoteTXT`
unfoldable pub quote_txt : Text → Text
quote_txt rdata = text "\"" ++ (replace_char b'"' (text "\\\"") rdata ++ text "\"")

unfoldable pub ensure_dot : Text → Text
ensure_dot fqdn = if has_suffix fqdn (text ".") then fqdn else fqdn ++ text "."

-- The loop of `existingTXT`; an absent record set is empty.
unfoldable pub find_txt : Text → List RecordSet → List Text
find_txt name [] = []
find_txt name (rrs ∷ sets) =
    if text_eq rrs.kind (text "TXT") && eq_fold rrs.name name
    then rrs.values
    else find_txt name sets

-- The loop of `EnsureRecord`: the values before and the new one, or `none` if it is there.
unfoldable pub with_value : Text → List Text → List Text → Option (List Text)
with_value want [] values = some (values ++ want ∷ [])
with_value want (rr ∷ existing) values =
    let next = with_value want existing (values ++ rr ∷ []) in
    if text_eq rr want then none else next

-- The loop of `DeleteRecord`, with `found` and `remaining`.
unfoldable pub without_value : Text → List Text → Bool → List Text → Bool × List Text
without_value want [] found remaining = (found, remaining)
without_value want (rr ∷ existing) found remaining =
    let drop = without_value want existing true remaining in
    let keep = without_value want existing found (remaining ++ rr ∷ []) in
    if text_eq rr want then drop else keep

abbrev pub txt_set : Text → List Text → RecordSet
txt_set name values = record { name = name; kind = text "TXT"; ttl = record_ttl; values = values }

abbrev pub action_name : ChangeAction → Text
action_name upsert = text "UPSERT"
action_name delete = text "DELETE"

abbrev pub id_of : Option Text → Text
id_of none = []
id_of (some id) = id

abbrev pub is_insync : Option Text → Bool
is_insync none = false
is_insync (some status) = text_eq status (text "INSYNC")

module _ {S : Type 0} (A : Sdk S) where
  abbrev pub found_in : Text → Result (List RecordSet) → Result (List Text)
  found_in name (err e) = wrap_result (text "route53: list records") (err e)
  found_in name (ok sets) = ok (find_txt name sets)

  unfoldable pub existing_txt : S → Text → Text → Result (List Text)
  existing_txt s zone name = found_in name (A.list_sets s zone name)

  abbrev pub changed : ChangeAction → Text → Result (Option Text) × S → Result Text × S
  changed action name (ok id, s) = (ok (id_of id), s)
  changed action name (err e, s) = (
    wrap_result (text "route53: change " ++ (action_name action ++ (text " " ++ name))) (err e),
    s,
  )

  unfoldable pub change : Text → Text → List Text → ChangeAction → S → Result Text × S
  change zone name values action s =
      changed action name (A.change_set zone action (txt_set name values) s)

  -- In nanoseconds: two minutes, and three seconds.
  abbrev pub sync_timeout : ℕ
  sync_timeout = 120000000000

  abbrev pub sync_interval : ℕ
  sync_interval = 3000000000

  abbrev pub not_in_time : Text → Err
  not_in_time id =
      fail (text "route53: change " ++ (id ++ text " did not reach INSYNC within timeout"))

  -- The round of the loop that follows an answer that is not in sync.
  abbrev pub sync_wait : S → Result (Unit {0}) → (S → Result (Unit {0}) × S) → Result (Unit {0}) × S
  sync_wait s (err e) next = (err e, s)
  sync_wait s (ok _) next = next (A.sleep sync_interval s)

  abbrev pub sync_step :
      Text → ℕ → S → Result (Option Text) → (S → Result (Unit {0}) × S) → Result (Unit {0}) × S
  sync_step id deadline s (err e) next =
      (wrap_result (text "route53: get change " ++ id) (err e), s)
  sync_step id deadline s (ok status) next =
      if is_insync status
      then (ok tt, s)
      else if ltb deadline (A.now s)
      then (err (not_in_time id), s)
      else sync_wait s (A.cancelled s) next

  -- The loop of `waitForSync`, with the rounds left; `spinning` marks the end of the rounds.
  unfoldable pub sync_loop : ℕ → Text → ℕ → S → Result (Unit {0}) × S
  sync_loop zero id deadline s = (err spinning, s)
  sync_loop (suc rounds) id deadline s =
      sync_step id deadline s (A.get_change s id) (sync_loop rounds id deadline)

  -- `120 / 3` rounds and two more.
  abbrev pub sync_rounds : ℕ
  sync_rounds = 42

  abbrev pub sync_change : Text → S → Result (Unit {0}) × S
  sync_change [] s = (ok tt, s)
  sync_change (c ∷ id) s = sync_loop sync_rounds (c ∷ id) (A.now s + sync_timeout) s

  unfoldable pub wait_for_sync : Text → S → Result (Unit {0}) × S
  wait_for_sync change_id s = sync_change (trim_prefix change_id (text "/change/")) s

  abbrev pub then_sync : Result Text × S → Result (Unit {0}) × S
  then_sync (err e, s) = (err e, s)
  then_sync (ok id, s) = wait_for_sync id s

  abbrev pub publish : Text → Text → Option (List Text) → S → Result (Unit {0}) × S
  publish zone name none s = (ok tt, s)
  publish zone name (some values) s = then_sync (change zone name values upsert s)

  abbrev pub ensure_in : Text → Text → Text → Result (List Text) → S → Result (Unit {0}) × S
  ensure_in zone name want (err e) s = (err e, s)
  ensure_in zone name want (ok existing) s = publish zone name (with_value want existing []) s

  unfoldable pub ensure_record : Text → Text → Text → S → Result (Unit {0}) × S
  ensure_record zone fqdn rdata s =
      ensure_in zone (ensure_dot fqdn) (quote_txt rdata) (existing_txt s zone (ensure_dot fqdn)) s

  abbrev pub forget_id : Result Text × S → Result (Unit {0}) × S
  forget_id (err e, s) = (err e, s)
  forget_id (ok id, s) = (ok tt, s)

  abbrev pub remove : Text → Text → List Text → Bool × List Text → S → Result (Unit {0}) × S
  remove zone name existing (false, remaining) s = (ok tt, s)
  remove zone name existing (true, []) s = forget_id (change zone name existing delete s)
  remove zone name existing (true, v ∷ remaining) s =
      forget_id (change zone name (v ∷ remaining) upsert s)

  abbrev pub delete_in : Text → Text → Text → Result (List Text) → S → Result (Unit {0}) × S
  delete_in zone name want (err e) s = (err e, s)
  delete_in zone name want (ok []) s = (ok tt, s)
  delete_in zone name want (ok (v ∷ existing)) s =
      remove zone name (v ∷ existing) (without_value want (v ∷ existing) false []) s

  unfoldable pub delete_record : Text → Text → Text → S → Result (Unit {0}) × S
  delete_record zone fqdn rdata s =
      delete_in zone (ensure_dot fqdn) (quote_txt rdata) (existing_txt s zone (ensure_dot fqdn)) s

  unfoldable pub validate : S → Text → Result (Unit {0})
  validate s zone = wrap_result (text "route53: validate hosted zone " ++ zone) (A.list_zone s zone)
