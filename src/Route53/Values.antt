-- ===== src/Route53/Values.antt =====
-- The values of a record set under `EnsureRecord` and `DeleteRecord`.
use cm_saas_letsencrypt_ca_c.Base.{
  or_true, ◌≡◌, refl, ap, sym, ◌∙◌, arith, Bool, true, false, ◌||◌, none, some, List, [], ◌∷◌, ◌++◌,
  append_assoc, append-nil, Text, text_eq, text_eq_iff, member, if◌then◌else◌, Bool-cases, inl, inr,
}
use cm_saas_letsencrypt_ca_c.Route53.{with_value, without_value}

-- The values other than the given one.
abbrev pub others : Text → List Text → List Text
others want [] = []
others want (v ∷ vs) = let rest = others want vs in if text_eq v want then rest else v ∷ rest

pub with_value_new :
    (want : Text) (existing values : List Text)
    → member want existing ≡ false
    → with_value want existing values ≡ some (values ++ (existing ++ want ∷ []))
unfolding with_value
with_value_new want [] values h = refl
with_value_new want (v ∷ existing) values h = elim (Bool-cases (text_eq v want)) [
  | inl y ↦ ground arith
  | inr n ↦ rw n (
      with_value_new want existing (values ++ v ∷ []) (ground arith)
      ∙ ap some (append_assoc values (v ∷ []) (existing ++ want ∷ [])))
]

pub with_value_known :
    (want : Text) (existing values : List Text)
    → member want existing ≡ true
    → with_value want existing values ≡ none
unfolding with_value
with_value_known want [] values h = cc
with_value_known want (v ∷ existing) values h = elim (Bool-cases (text_eq v want)) [
  | inl y ↦ rw y refl
  | inr n ↦ rw n (with_value_known want existing (values ++ v ∷ []) (ground arith))
]

pub without_value_lem :
    (want : Text) (existing : List Text) (found : Bool) (remaining : List Text)
    → without_value want existing found remaining
      ≡ (found || member want existing, remaining ++ others want existing)
unfolding without_value
without_value_lem want [] true remaining =
    ap (λ (vs : List Text). (true, vs)) (sym (append-nil remaining))
without_value_lem want [] false remaining =
    ap (λ (vs : List Text). (false, vs)) (sym (append-nil remaining))
without_value_lem want (v ∷ existing) found remaining = elim (Bool-cases (text_eq v want)) [
  | inl y ↦ rw y (
      without_value_lem want existing true remaining
      ∙ ap (λ (b : Bool). (b, remaining ++ others want existing)) (sym (or_true found)))
  | inr n ↦ rw n (
      without_value_lem want existing found (remaining ++ v ∷ [])
      ∙ ap (λ (vs : List Text). (found || member want existing, vs))
          (append_assoc remaining (v ∷ []) (others want existing)))
]

pub member-others : (want : Text) (vs : List Text) → member want (others want vs) ≡ false
member-others want [] = refl
member-others want (v ∷ vs) = elim (Bool-cases (text_eq v want)) [
  | inl y ↦ rw y (member-others want vs)
  | inr n ↦ rw n (rw n (member-others want vs))
]

-- Any other value is there as it was.
pub others-member :
    (want v : Text) (vs : List Text)
    → text_eq want v ≡ false
    → member v (others want vs) ≡ member v vs
others-member want v [] h = refl
others-member want v (u ∷ vs) h = elim (Bool-cases (text_eq u want)) [
  | inl y ↦
      let e = ap (λ t. text_eq t v) ((text_eq_iff u want).0 y) ∙ h in
      rw y (rw e (others-member want v vs h))
  | inr n ↦ rw n (ap (λ b. text_eq u v || b) (others-member want v vs h))
]

pub others_absent : (want : Text) (vs : List Text) → member want vs ≡ false → others want vs ≡ vs
others_absent want [] h = refl
others_absent want (v ∷ vs) h = elim (Bool-cases (text_eq v want)) [
  | inl y ↦ ground arith
  | inr n ↦ rw n (ap (λ (us : List Text). v ∷ us) (others_absent want vs (ground arith)))
]
