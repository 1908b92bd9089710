-- ===== src/Acme/Pem/Columns.antt =====
-- `normalizePEM`: the rounds that cut the body into lines.
use cm_saas_letsencrypt_ca_c.Base.{
  ℕ, zero, suc, ◌+◌, ◌≤◌, ◌≡◌, refl, ap, arith, [], ◌∷◌, ◌++◌, Text, length, drop, take,
}
use cm_saas_letsencrypt_ca_c.Acme.Pem.{lines_of}

pub length-drop : (n : ℕ) (s : Text) → length (drop n s) ≤ length s
length-drop zero s = omega arith
length-drop (suc n) [] = omega arith
length-drop (suc n) (c ∷ s) = omega (arith, length-drop n s)

lines_of_same :
    (r q : ℕ) (body : Text) → length body ≤ r → length body ≤ q → lines_of r body ≡ lines_of q body
unfolding lines_of
lines_of_same zero zero body h k = refl
lines_of_same zero (suc q) [] h k = refl
lines_of_same (suc r) zero [] h k = refl
lines_of_same (suc r) (suc q) [] h k = refl
lines_of_same zero (suc q) (c ∷ body) h k = absurd (none_left h)
  where
    none_left : suc (length body) ≤ 0 → ⊥
    none_left h = omega arith
lines_of_same (suc r) zero (c ∷ body) h k = absurd (none_left k)
  where
    none_left : suc (length body) ≤ 0 → ⊥
    none_left h = omega arith
lines_of_same (suc r) (suc q) (c ∷ body) h k =
    ap (λ (t : Text). take 64 (c ∷ body) ++ (b'\n' ∷ t))
      (lines_of_same r q (drop 64 (c ∷ body)) (omega (arith, length-drop 63 body))
        (omega (arith, length-drop 63 body)))

-- The rounds of the model are enough to cut a body into lines: with any number of further rounds the
-- lines are the same, so none of the body is lost.
pub lines_of_suffice :
    (body : Text) (extra : ℕ) → lines_of (length body + extra) body ≡ lines_of (length body) body
lines_of_suffice body extra =
    lines_of_same (length body + extra) (length body) body (omega arith) (omega arith)
