-- ===== src/Plan/Served.antt =====
-- Each name of a certificate is served by a record of the plan of cmd/dnspersist-tool/core.go.
use cm_saas_letsencrypt_ca_c.Base.{
  ℕ, suc, ◌≡◌, refl, ap, sym, ◌∙◌, arith, Bool, true, false, ◌&&◌, ◌||◌, not, Option, none, some,
  List, [], ◌∷◌, ◌++◌, Text, text, text_eq, text_eq_iff, lower, member, is_empty, All, ◌⊎◌, inl,
  inr, has_prefix, has_suffix, trim_suffix, index_of, contains, drop, Bool-cases, ◌==◌, ==_iff,
}
use cm_saas_letsencrypt_ca_c.Base.Affixes.{trim_end, no_end}
use cm_saas_letsencrypt_ca_c.Plan.{HostPlan, parent_of, dotted, normal, is_wild, host_of, collapse}
use cm_saas_letsencrypt_ca_c.Plan.Sorting.{any}
use cm_saas_letsencrypt_ca_c.Plan.Hosts.{has_record}
use cm_saas_letsencrypt_ca_c.Plan.Covers.{is_planned, planned_of_set, name_set-normal}

abbrev pub HasNoDot : Text → Type 0
HasNoDot = All (λ c. (b'.' == c) ≡ false)

-- A host of the plan validates the name: with a plain record at the name itself, unless it is a
-- wildcard name, or with a wildcard record at the domain behind its first label.
abbrev pub Serves : Text → HostPlan → Type 0
Serves n p =
    ((p.exact ≡ true)
      × (has_prefix n (text "*.") ≡ false)
      × (p.host ≡ text "_validation-persist." ++ n))
    ⊎ ((p.wildcard ≡ true)
        × ((first : Text) × (base : Text) × HasNoDot first
            × (n ≡ first ++ b'.' ∷ base)
            × (p.host ≡ text "_validation-persist." ++ base)))

abbrev pub IsServed : Text → List HostPlan → Type 0
IsServed n [] = ⊥
IsServed n (p ∷ plans) = Serves n p ⊎ IsServed n plans

any-IsServed :
    (n : Text) (q : HostPlan → Bool) (plans : List HostPlan)
    → ((p : HostPlan) → q p ≡ true → Serves n p)
    → any q plans ≡ true
    → IsServed n plans
any-IsServed n q [] k h = cc
any-IsServed n q (p ∷ plans) k h = elim (Bool-cases (q p)) [
  | inl y ↦ inl (k p y)
  | inr m ↦ inr (any-IsServed n q plans k (rw m at h))
]

not_lem : (a : Bool) → not a ≡ true → a ≡ false
not_lem a h = ground arith

both_lem : (a b : Bool) → (a && b) ≡ true → (a ≡ true) × (b ≡ true)
both_lem a b h = ground arith

host_lem :
    (base : Text) (p : HostPlan)
    → text_eq p.host (host_of base) ≡ true
    → p.host ≡ text "_validation-persist." ++ base
unfolding text
host_lem base p h = (text_eq_iff _ _).0 h

-- The place of the first dot, from the one in the rest.
index_at_dot : (c : ℕ) (s : Text) → (b'.' == c) ≡ true → index_of (c ∷ s) (text ".") ≡ some 0
unfolding index_of text
index_at_dot c s y = rw y refl

one_later : Option ℕ → Option ℕ
one_later none = none
one_later (some k) = some (suc k)

index_behind :
    (c : ℕ) (s : Text) (o : Option ℕ)
    → (b'.' == c) ≡ false
    → index_of s (text ".") ≡ o
    → index_of (c ∷ s) (text ".") ≡ one_later o
unfolding index_of text one_later
index_behind c s none n e = rw (n, e) refl
index_behind c s (some k) n e = rw (n, e) refl

later_lem : (o : Option ℕ) (i : ℕ) → one_later o ≡ some i → (k : ℕ) × (o ≡ some k) × (i ≡ suc k)
unfolding one_later
later_lem none i h = cc
later_lem (some k) i h = (k, refl, cc)

no_dot : (i : ℕ) → index_of [] (text ".") ≡ some i → ⊥
unfolding index_of text
no_dot i h = cc

first_dot :
    (n : Text) (i : ℕ)
    → index_of n (text ".") ≡ some i
    → (first : Text) × HasNoDot first × (n ≡ first ++ b'.' ∷ drop (suc i) n)
first_dot [] i h = absurd (no_dot i h)
first_dot (c ∷ s) i h = elim (Bool-cases (b'.' == c)) [
  | inl y ↦
      let at_start : i ≡ 0 = let q = index_at_dot c s y in cc in
      ([], tt, cc ((==_iff _ _).0 y, ap (λ k. drop k s) at_start))
  | inr m ↦
      let (k, e, j) = later_lem (index_of s (text ".")) i (sym (index_behind c s _ m refl) ∙ h) in
      let (first, clear, there) = first_dot s k e in
      (
        c ∷ first,
        (m, clear),
        ap (λ (r : Text). c ∷ r) there ∙ ap (λ l. c ∷ first ++ b'.' ∷ drop l s) (sym j),
      )
]

dotted_lem : (t : Text) → is_empty (dotted t) ≡ false → dotted t ≡ t
dotted_lem t h = elim (Bool-cases (contains t (text "."))) [
  | inl y ↦ rw y refl
  | inr m ↦ let q = rw m at h in cc
]

parent_lem :
    (n : Text) (o : Option ℕ)
    → index_of n (text ".") ≡ o
    → is_empty (elim o [ none ↦ [] | some i ↦ dotted (drop (suc i) n) ]) ≡ false
    → (i : ℕ) × (o ≡ some i)
      × (elim o [ none ↦ [] | some i ↦ dotted (drop (suc i) n) ] ≡ drop (suc i) n)
parent_lem n none e h = cc
parent_lem n (some i) e h = (i, refl, dotted_lem (drop (suc i) n) h)

under_parent :
    (n : Text)
    → is_empty (parent_of n) ≡ false
    → (first : Text) × HasNoDot first × (n ≡ first ++ b'.' ∷ parent_of n)
unfolding parent_of
under_parent n h =
    let (i, e, same) = parent_lem n _ refl h in
    let (first, clear, there) = first_dot n i e in (first, clear, rw same there)

wild_lem : (n : Text) → is_wild n ≡ true → n ≡ b'*' ∷ b'.' ∷ drop 2 n
unfolding text
wild_lem [] h = cc
wild_lem (c ∷ []) h = ground (arith, h)
wild_lem (c ∷ d ∷ s) h = ground (arith, h)

by_wildcard :
    (n first base : Text) (plans : List HostPlan)
    → HasNoDot first
    → n ≡ first ++ b'.' ∷ base
    → has_record (λ p. p.wildcard) base plans ≡ true
    → IsServed n plans
by_wildcard n first base plans clear e = any-IsServed n _ plans λ p h.
    let (host, flag) = both_lem _ _ h in inr (flag, (first, base, clear, e, host_lem base p host))

planned_plain :
    (n : Text) (plans : List HostPlan)
    → is_wild n ≡ false
    → (has_record (λ p. p.exact) n plans
        || (not (is_empty (parent_of n)) && has_record (λ p. p.wildcard) (parent_of n) plans))
      ≡ true
    → IsServed n plans
planned_plain n plans k h = elim (Bool-cases (has_record (λ p. p.exact) n plans)) [
  | inl y ↦
      any-IsServed n _ plans
        (λ p q. let (host, flag) = both_lem _ _ q in inl (flag, k, host_lem n p host)) y
  | inr m ↦
      let (parent, found) = both_lem _ _ (rw m at h) in
      let (first, clear, there) = under_parent n (not_lem _ parent) in
      by_wildcard n first (parent_of n) plans clear there found
]

planned-IsServed : (n : Text) (plans : List HostPlan) → is_planned n plans ≡ true → IsServed n plans
planned-IsServed n plans h = elim (Bool-cases (is_wild n)) [
  | inl y ↦ by_wildcard n (b'*' ∷ []) (drop 2 n) plans (refl, tt) (wild_lem n y) (rw y at h)
  | inr k ↦ planned_plain n plans k (rw k at h)
]

normal_lem :
    (t n : Text)
    → ((n ≡ t) × (has_suffix t (text ".") ≡ false)) ⊎ (n ≡ t ++ text ".")
    → normal n ≡ lower t
normal_lem t n (inl (e, h)) = ap lower (ap (λ m. trim_suffix m (text ".")) e ∙ no_end t h)
normal_lem t n (inr e) = ap lower (ap (λ m. trim_suffix m (text ".")) e ∙ trim_end t)

-- The plan leaves no name of a certificate out: each name `t` that has no dot at its end, which the
-- certificate may write with one, is served in lower case by a host of the plan.
pub collapse-IsServed :
    (t n : Text) (names : List Text)
    → ((n ≡ t) × (has_suffix t (text ".") ≡ false)) ⊎ (n ≡ t ++ text ".")
    → member n names ≡ true
    → IsServed (lower t) (collapse names)
collapse-IsServed t n names w m = rw (← normal_lem t n w) (
    planned-IsServed (normal n) (collapse names)
      (planned_of_set (normal n) names (name_set-normal n names m)))
