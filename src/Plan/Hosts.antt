-- ===== src/Plan/Hosts.antt =====
-- The entries of the map of `collapse` stand under the base of their host.
use cm_saas_letsencrypt_ca_c.Base.{
  or_true, ◌≡◌, refl, ap, ◌∙◌, arith, Bool, true, false, ◌&&◌, ◌||◌, not, List, [], ◌∷◌, map, Text,
  text_eq, text_eq_iff, member, is_empty, All, Bool-cases, inl, inr,
}
use cm_saas_letsencrypt_ca_c.Plan.{
  HostPlan, parent_of, is_wild, host_of, new_plan, update_plan, plan_name, plan_names, base_key,
  plan_of,
}
use cm_saas_letsencrypt_ca_c.Plan.Sorting.{any}
use cm_saas_letsencrypt_ca_c.Plan.Flags.{has_flag}

-- The entries of the map stand under the base of their host.
abbrev pub Hosted : List (Text × HostPlan) → Type 0
Hosted = All (λ e. (plan_of e).host ≡ host_of (base_key e))

pub update_plan-Hosted :
    (base : Text) (f : HostPlan → HostPlan) (plans : List (Text × HostPlan))
    → ((p : HostPlan) → (f p).host ≡ p.host)
    → Hosted plans
    → Hosted (update_plan base f plans)
unfolding update_plan
update_plan-Hosted base f [] k h = (k (new_plan base), tt)
update_plan-Hosted base f ((b, p) ∷ plans) k h = elim (Bool-cases (text_eq b base)) [
  | inl y ↦ rw y (k p ∙ h.0, h.1)
  | inr n ↦ rw n (h.0, update_plan-Hosted base f plans k h.1)
]

pub plan_name-Hosted :
    (wbase : List Text) (n : Text) (plans : List (Text × HostPlan))
    → Hosted plans
    → Hosted (plan_name wbase n plans)
unfolding plan_name
plan_name-Hosted wbase n plans h = elim (Bool-cases (is_wild n)) [
  | inl y ↦ rw y (update_plan-Hosted _ _ plans (λ p. refl) h)
  | inr k ↦ rw k (elim (Bool-cases (not (is_empty (parent_of n)) && member (parent_of n) wbase)) [
    | inl y ↦ rw y (update_plan-Hosted _ _ plans (λ p. refl) h)
    | inr m ↦ rw m (update_plan-Hosted _ _ plans (λ p. refl) h)
  ])
]

pub plan_names-Hosted :
    (wbase ns : List Text) (plans : List (Text × HostPlan))
    → Hosted plans
    → Hosted (plan_names wbase ns plans)
unfolding plan_names
plan_names-Hosted wbase [] plans h = h
plan_names-Hosted wbase (n ∷ ns) plans h =
    plan_names-Hosted wbase ns (plan_name wbase n plans) (plan_name-Hosted wbase n plans h)

-- A plan for the base has the flag.
abbrev pub has_record : (HostPlan → Bool) → Text → List HostPlan → Bool
has_record flag base = any (λ (p : HostPlan). text_eq p.host (host_of base) && flag p)

pub both_left : (x y : Bool) → (x && y) ≡ true → x ≡ true
both_left true y h = refl
both_left false y h = cc

pub has_record_of_flag :
    (flag : HostPlan → Bool) (base : Text) (plans : List (Text × HostPlan))
    → Hosted plans
    → has_flag flag base plans ≡ true
    → any
        (λ (e : Text × HostPlan). text_eq (plan_of e).host (host_of base) && flag (plan_of e))
        plans
      ≡ true
has_record_of_flag flag base [] h k = cc
has_record_of_flag flag base ((b, p) ∷ plans) h k = elim (Bool-cases (text_eq b base && flag p)) [
  | inl y ↦ ground (
    arith,
    (text_eq_iff p.host (host_of base)).1
        (h.0 ∙ ap host_of ((text_eq_iff b base).0 (both_left (text_eq b base) (flag p) y))),
  )
  | inr n ↦ rw (has_record_of_flag flag base plans h.1 (ground arith)) (or_true _)
]

pub any-map :
    (q : HostPlan → Bool) (plans : List (Text × HostPlan))
    → any q (map plan_of plans) ≡ any (λ e. q (plan_of e)) plans
any-map q [] = refl
any-map q (e ∷ plans) = ap (λ r. q (plan_of e) || r) (any-map q plans)
