-- ===== src/Plan/Flags.antt =====
-- The rounds of the loop of `collapse`: what the round of a name sets stays set.
use mathlib.Core.Path.{subst}
use cm_saas_letsencrypt_ca_c.Base.{
  or_true, ◌≡◌, refl, sym, arith, Bool, true, false, ◌&&◌, not, List, [], ◌∷◌, Text, text_eq,
  text_eq_refl, text_eq_iff, member, is_empty, drop, Bool-cases, inl, inr,
}
use cm_saas_letsencrypt_ca_c.Plan.{
  HostPlan, parent_of, is_wild, wild_bases, new_plan, update_plan, add_wildcard, add_child,
  add_exact, plan_name, plan_names, base_key, plan_of,
}
use cm_saas_letsencrypt_ca_c.Plan.Sorting.{any}

-- An entry for the base has the flag.
abbrev pub has_flag : (HostPlan → Bool) → Text → List (Text × HostPlan) → Bool
has_flag flag base = any (λ (e : Text × HostPlan). text_eq (base_key e) base && flag (plan_of e))

module _ (flag : HostPlan → Bool) where
  pub update_has :
      (base : Text) (f : HostPlan → HostPlan) (plans : List (Text × HostPlan))
      → ((p : HostPlan) → flag (f p) ≡ true)
      → has_flag flag base (update_plan base f plans) ≡ true
  unfolding update_plan
  update_has base f [] h = rw (text_eq_refl base) (rw (h (new_plan base)) refl)
  update_has base f ((b, p) ∷ plans) h = elim (Bool-cases (text_eq b base)) [
    | inl y ↦ rw y (rw y (rw (h p) refl))
    | inr n ↦ rw n (rw n (update_has base f plans h))
  ]

  pub update_keeps :
      (base b : Text) (f : HostPlan → HostPlan) (plans : List (Text × HostPlan))
      → ((p : HostPlan) → flag p ≡ true → flag (f p) ≡ true)
      → has_flag flag b plans ≡ true
      → has_flag flag b (update_plan base f plans) ≡ true
  unfolding update_plan
  update_keeps base b f [] k h = cc
  update_keeps base b f ((c, p) ∷ plans) k h = elim (Bool-cases (text_eq c base)) [
    | inl y ↦ rw y (ground (arith, k p))
    | inr n ↦ rw n (ground (arith, update_keeps base b f plans k))
  ]

module _ (wbase : List Text) (flag : HostPlan → Bool)
    (by_wildcard : (n : Text) (p : HostPlan) → flag p ≡ true → flag (add_wildcard n p) ≡ true)
    (by_child : (n m : Text) (p : HostPlan) → flag p ≡ true → flag (add_child n m p) ≡ true)
    (by_exact : (n : Text) (p : HostPlan) → flag p ≡ true → flag (add_exact n p) ≡ true) where
  pub plan_name_keeps :
      (n b : Text) (plans : List (Text × HostPlan))
      → has_flag flag b plans ≡ true
      → has_flag flag b (plan_name wbase n plans) ≡ true
  unfolding plan_name
  plan_name_keeps n b plans h = elim (Bool-cases (is_wild n)) [
    | inl y ↦ rw y (update_keeps flag _ b _ plans (by_wildcard n) h)
    | inr k ↦ rw k (elim (Bool-cases (not (is_empty (parent_of n)) && member (parent_of n) wbase)) [
      | inl y ↦ rw y (update_keeps flag _ b _ plans (by_child n (parent_of n)) h)
      | inr m ↦ rw m (update_keeps flag _ b _ plans (by_exact n) h)
    ])
  ]

  pub plan_names_keeps :
      (ns : List Text) (b : Text) (plans : List (Text × HostPlan))
      → has_flag flag b plans ≡ true
      → has_flag flag b (plan_names wbase ns plans) ≡ true
  unfolding plan_names
  plan_names_keeps [] b plans h = h
  plan_names_keeps (n ∷ ns) b plans h =
      plan_names_keeps ns b (plan_name wbase n plans) (plan_name_keeps n b plans h)

pub has_wildcard_kept :
    (wbase ns : List Text) (b : Text) (plans : List (Text × HostPlan))
    → has_flag (λ p. p.wildcard) b plans ≡ true
    → has_flag (λ p. p.wildcard) b (plan_names wbase ns plans) ≡ true
has_wildcard_kept wbase ns b plans =
    plan_names_keeps wbase (λ p. p.wildcard) (λ n p h. refl) (λ n m p h. h) (λ n p h. h) ns b plans

pub has_exact_kept :
    (wbase ns : List Text) (b : Text) (plans : List (Text × HostPlan))
    → has_flag (λ p. p.exact) b plans ≡ true
    → has_flag (λ p. p.exact) b (plan_names wbase ns plans) ≡ true
has_exact_kept wbase ns b plans =
    plan_names_keeps wbase (λ p. p.exact) (λ n p h. h) (λ n m p h. h) (λ n p h. refl) ns b plans

-- What the round of a name sets is set behind the loop.
pub behind_round :
    (wbase : List Text) (flag : HostPlan → Bool) (n b : Text)
    → ((plans : List (Text × HostPlan)) → has_flag flag b (plan_name wbase n plans) ≡ true)
    → ((ns : List Text) (plans : List (Text × HostPlan))
        → has_flag flag b plans ≡ true
        → has_flag flag b (plan_names wbase ns plans) ≡ true)
    → (ns : List Text) (plans : List (Text × HostPlan)) → member n ns ≡ true
    → has_flag flag b (plan_names wbase ns plans) ≡ true
unfolding plan_names
behind_round wbase flag n b first kept [] plans m = cc
behind_round wbase flag n b first kept (k ∷ ns) plans m = elim (Bool-cases (text_eq k n)) [
  | inl y ↦ kept ns (plan_name wbase k plans) (
      subst (λ (t : Text). has_flag flag b (plan_name wbase t plans) ≡ true)
        (sym ((text_eq_iff k n).0 y)) (first plans))
  | inr d ↦ behind_round wbase flag n b first kept ns (plan_name wbase k plans) (ground arith)
]

pub first_wildcard :
    (wbase : List Text) (n : Text) (plans : List (Text × HostPlan))
    → is_wild n ≡ true
    → has_flag (λ p. p.wildcard) (drop 2 n) (plan_name wbase n plans) ≡ true
unfolding plan_name
first_wildcard wbase n plans w =
    rw w (update_has (λ p. p.wildcard) (drop 2 n) (add_wildcard n) plans (λ p. refl))

pub first_exact :
    (wbase : List Text) (n : Text) (plans : List (Text × HostPlan))
    → is_wild n ≡ false
    → (not (is_empty (parent_of n)) && member (parent_of n) wbase) ≡ false
    → has_flag (λ p. p.exact) n (plan_name wbase n plans) ≡ true
unfolding plan_name
first_exact wbase n plans w v =
    rw w (rw v (update_has (λ p. p.exact) n (add_exact n) plans (λ p. refl)))

pub wild_bases-member :
    (b : Text) (set : List Text)
    → member b (wild_bases set) ≡ true
    → (n : Text) × (member n set ≡ true) × (is_wild n ≡ true) × (drop 2 n ≡ b)
unfolding wild_bases
wild_bases-member b [] h = cc
wild_bases-member b (m ∷ set) h = elim (Bool-cases (is_wild m)) [
  | inl y ↦ elim (Bool-cases (text_eq (drop 2 m) b)) [
    | inl e ↦ (m, rw (text_eq_refl m) refl, y, (text_eq_iff (drop 2 m) b).0 e)
    | inr d ↦ later m (wild_bases-member b set (ground arith))
  ]
  | inr k ↦ later m (wild_bases-member b set (ground arith))
]
  where
    later :
        (m : Text)
        → (n : Text) × (member n set ≡ true) × (is_wild n ≡ true) × (drop 2 n ≡ b)
        → (n : Text) × (member n (m ∷ set) ≡ true) × (is_wild n ≡ true) × (drop 2 n ≡ b)
    later m (n, k, w, e) = (n, rw k (or_true (text_eq m n)), w, e)
