-- ===== src/Plan/Sorting.antt =====
-- Sorting keeps what holds of some element.
use cm_saas_letsencrypt_ca_c.Base.{
  ◌≡◌, refl, ap, sym, ◌∙◌, Bool, true, false, ◌||◌, List, [], ◌∷◌, Text, text_eq, member,
  Bool-cases, inl, inr,
}
use cm_saas_letsencrypt_ca_c.Plan.{text_ltb, insert, sort}

abbrev pub any : {A : Type 0} → (A → Bool) → List A → Bool
any q [] = false
any q (a ∷ rest) = q a || any q rest

module _ {A : Type 0} (q : A → Bool) (key : A → Text) where
  pub any-insert : (a : A) (bs : List A) → any q (insert key a bs) ≡ (q a || any q bs)
  unfolding insert
  any-insert a [] = refl
  any-insert a (b ∷ bs) = elim (Bool-cases (text_ltb (key b) (key a))) [
    | inl y ↦ rw y (ap (λ r. q b || r) (any-insert a bs) ∙ swap (q b) (q a) (any q bs))
    | inr n ↦ rw n refl
  ]
    where
      swap : (x y z : Bool) → (x || (y || z)) ≡ (y || (x || z))
      swap true true z = refl
      swap true false z = refl
      swap false true z = refl
      swap false false z = refl

  pub any-sort : (bs : List A) → any q (sort key bs) ≡ any q bs
  unfolding sort
  any-sort [] = refl
  any-sort (a ∷ bs) = any-insert a (sort key bs) ∙ ap (λ r. q a || r) (any-sort bs)

pub member-any : (n : Text) (ns : List Text) → member n ns ≡ any (λ u. text_eq u n) ns
member-any n [] = refl
member-any n (m ∷ ns) = ap (λ r. text_eq m n || r) (member-any n ns)

pub member-sort : (n : Text) (ns : List Text) → member n (sort (λ (m : Text). m) ns) ≡ member n ns
member-sort n ns =
    member-any n (sort (λ (m : Text). m) ns)
    ∙ (any-sort (λ u. text_eq u n) (λ (m : Text). m) ns ∙ sym (member-any n ns))
