-- ===== src/Plan/Covers.antt =====
-- Each name of a certificate has its record in the plan.
use mathlib.Core.Path.{subst}
use cm_saas_letsencrypt_ca_c.Base.{
  or_true, ◌≡◌, refl, ◌∙◌, arith, Bool, true, false, ◌&&◌, ◌||◌, not, List, [], ◌∷◌, Text, text_eq,
  text_eq_refl, text_eq_iff, member, is_empty, if◌then◌else◌, drop, Bool-cases, inl, inr,
}
use cm_saas_letsencrypt_ca_c.Plan.{
  HostPlan, parent_of, sort, normal, name_set, is_wild, wild_bases, host_of, plan_names, base_key,
  plan_of, collapse,
}
use cm_saas_letsencrypt_ca_c.Plan.Sorting.{any-sort, member-sort}
use cm_saas_letsencrypt_ca_c.Plan.Flags.{
  has_flag, has_wildcard_kept, has_exact_kept, behind_round, first_wildcard, first_exact,
  wild_bases-member,
}
use cm_saas_letsencrypt_ca_c.Plan.Hosts.{plan_names-Hosted, has_record, has_record_of_flag, any-map}

record_behind :
    (flag : HostPlan → Bool) (names : List Text) (base : Text)
    → has_flag flag base
        (plan_names (wild_bases (name_set names)) (sort (λ (n : Text). n) (name_set names)) [])
      ≡ true
    → has_record flag base (collapse names) ≡ true
unfolding collapse
record_behind flag names base h =
    any-map (λ p. text_eq p.host (host_of base) && flag p) _
    ∙ (any-sort
          (λ (e : Text × HostPlan). text_eq (plan_of e).host (host_of base) && flag (plan_of e))
          base_key _
        ∙ has_record_of_flag flag base _ (plan_names-Hosted _ _ [] tt) h)

member-sorted :
    (n : Text) (names : List Text)
    → member n (name_set names) ≡ true
    → member n (sort (λ (m : Text). m) (name_set names)) ≡ true
member-sorted n names h = member-sort n (name_set names) ∙ h

wildcard_record :
    (n : Text) (names : List Text)
    → member n (name_set names) ≡ true
    → is_wild n ≡ true
    → has_record (λ p. p.wildcard) (drop 2 n) (collapse names) ≡ true
wildcard_record n names m w =
    let wbase = wild_bases (name_set names) in
    record_behind (λ p. p.wildcard) names (drop 2 n)
      (behind_round wbase (λ p. p.wildcard) n (drop 2 n) (λ plans. first_wildcard wbase n plans w)
        (λ ns plans. has_wildcard_kept wbase ns (drop 2 n) plans) _ [] (member-sorted n names m))

exact_record :
    (n : Text) (names : List Text)
    → member n (name_set names) ≡ true
    → is_wild n ≡ false
    → (not (is_empty (parent_of n)) && member (parent_of n) (wild_bases (name_set names))) ≡ false
    → has_record (λ p. p.exact) n (collapse names) ≡ true
exact_record n names m w v =
    let wbase = wild_bases (name_set names) in
    record_behind (λ p. p.exact) names n
      (behind_round wbase (λ p. p.exact) n n (λ plans. first_exact wbase n plans w v)
        (λ ns plans. has_exact_kept wbase ns n plans) _ [] (member-sorted n names m))

parent_record :
    (b : Text) (names : List Text)
    → member b (wild_bases (name_set names)) ≡ true
    → has_record (λ p. p.wildcard) b (collapse names) ≡ true
parent_record b names h =
    let (n, m, w, e) = wild_bases-member b (name_set names) h in
    subst (λ t. has_record (λ p. p.wildcard) t (collapse names) ≡ true) e
      (wildcard_record n names m w)

added : (t : Text) (set : List Text) → member t (if member t set then set else t ∷ set) ≡ true
added t set = elim (Bool-cases (member t set)) [
  | inl y ↦ rw y y
  | inr n ↦ rw n (rw (text_eq_refl t) refl)
]

kept :
    (t u : Text) (set : List Text)
    → member u set ≡ true
    → member u (if member t set then set else t ∷ set) ≡ true
kept t u set h = elim (Bool-cases (member t set)) [
  | inl y ↦ rw y h
  | inr n ↦ rw n (rw h (or_true (text_eq t u)))
]

pub name_set-normal :
    (n : Text) (names : List Text)
    → member n names ≡ true
    → member (normal n) (name_set names) ≡ true
unfolding name_set
name_set-normal n [] h = cc
name_set-normal n (m ∷ names) h = elim (Bool-cases (text_eq m n)) [
  | inl y ↦
      subst (λ t. member (normal t) (name_set (m ∷ names)) ≡ true) ((text_eq_iff m n).0 y)
        (added (normal m) (name_set names))
  | inr d ↦ kept (normal m) (normal n) (name_set names) (name_set-normal n names (ground arith))
]

-- A cleaned name has the record that its branch of the loop asks for.
abbrev pub is_planned : Text → List HostPlan → Bool
is_planned n plans =
    if is_wild n
    then has_record (λ p. p.wildcard) (drop 2 n) plans
    else has_record (λ p. p.exact) n plans
      || (not (is_empty (parent_of n)) && has_record (λ p. p.wildcard) (parent_of n) plans)

pub planned_of_set :
    (n : Text) (names : List Text)
    → member n (name_set names) ≡ true
    → is_planned n (collapse names) ≡ true
planned_of_set n names m = elim (Bool-cases (is_wild n)) [
  | inl y ↦ rw y (wildcard_record n names m y)
  | inr k ↦
      rw k
        (elim (Bool-cases
          (not (is_empty (parent_of n)) && member (parent_of n) (wild_bases (name_set names)))) [
            | inl v ↦ ground (arith, v, parent_record (parent_of n) names)
            | inr v ↦ rw (exact_record n names m k v) refl
          ])
]
