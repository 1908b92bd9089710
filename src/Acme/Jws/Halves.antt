-- ===== src/Acme/Jws/Halves.antt =====
-- The fixed-width halves of a signature (internal/acme/jws.go): what is written can be read back.
use mathlib.Core.Path.{subst}
use native.Mathlib.Nat.{div-lt_iff_lt-mul}
use cm_saas_letsencrypt_ca_c.Base.{
  take-append, drop-append, ℕ, zero, suc, ◌+◌, ◌*◌, ◌/◌, ◌%◌, ◌^◌, ◌<◌, ◌≡◌, refl, ap, ◌∙◌, arith,
  [], ◌∷◌, ◌++◌, Text, length, length-append, take, drop,
}
use cm_saas_letsencrypt_ca_c.Acme.Jws.{fill_bytes, signature_bytes}
use cm_saas_letsencrypt_ca_c.Acme.Outside.{Outside}

-- The number that bytes stand for, the most significant first, behind a number read so far.
pub big_endian : ℕ → Text → ℕ
big_endian v [] = v
big_endian v (b ∷ bs) = big_endian (v * 256 + b) bs

big_endian-append : (v : ℕ) (s t : Text) → big_endian v (s ++ t) ≡ big_endian (big_endian v s) t
unfolding big_endian
big_endian-append v [] t = refl
big_endian-append v (b ∷ s) t = big_endian-append (v * 256 + b) s t

fill_bytes-length : (n v : ℕ) → length (fill_bytes n v) ≡ n
unfolding fill_bytes
fill_bytes-length zero v = refl
fill_bytes-length (suc n) v =
    omega (
      arith,
      length-append (fill_bytes n (v / 256)) ((v % 256) ∷ []),
      fill_bytes-length n (v / 256),
    )

next_byte : (v : ℕ) → v / 256 * 256 + v % 256 ≡ v
next_byte v = omega arith

smaller : (n v : ℕ) → v < 256 ^ suc n → v / 256 < 256 ^ n
smaller n v h = (div-lt_iff_lt-mul {k = 256} {x = v} {y = 256 ^ n} (omega arith)).1 (omega arith)

big_endian-fill_bytes : (n v : ℕ) → v < 256 ^ n → big_endian 0 (fill_bytes n v) ≡ v
unfolding fill_bytes big_endian
big_endian-fill_bytes zero v h = omega arith
big_endian-fill_bytes (suc n) v h =
    big_endian-append 0 (fill_bytes n (v / 256)) ((v % 256) ∷ [])
    ∙ (ap (λ w. w * 256 + v % 256) (big_endian-fill_bytes n (v / 256) (smaller n v h))
        ∙ next_byte v)

take_front : (n : ℕ) (s t : Text) → length s ≡ n → take n (s ++ t) ≡ s
take_front n s t h = subst (λ k. take k (s ++ t) ≡ s) h (take-append s t)

drop_front : (n : ℕ) (s t : Text) → length s ≡ n → drop n (s ++ t) ≡ t
drop_front n s t h = subst (λ k. drop k (s ++ t) ≡ t) h (drop-append s t)

-- A signature of halves below 2^256 takes 64 bytes, and each half is read back from its 32 bytes.
pub signature_bytes-halves :
    (O : Outside) (r s : ℕ)
    → r < 256 ^ 32
    → s < 256 ^ 32
    → (length (signature_bytes O (r, s)) ≡ 64)
      × (big_endian 0 (take 32 (signature_bytes O (r, s))) ≡ r)
      × (big_endian 0 (drop 32 (signature_bytes O (r, s))) ≡ s)
unfolding signature_bytes
signature_bytes-halves O r s hr hs = (
  omega (
    arith,
    length-append (fill_bytes 32 r) (fill_bytes 32 s),
    fill_bytes-length 32 r,
    fill_bytes-length 32 s,
  ),
  ap (big_endian 0) (take_front 32 (fill_bytes 32 r) (fill_bytes 32 s) (fill_bytes-length 32 r))
      ∙ big_endian-fill_bytes 32 r hr,
  ap (big_endian 0) (drop_front 32 (fill_bytes 32 r) (fill_bytes 32 s) (fill_bytes-length 32 r))
      ∙ big_endian-fill_bytes 32 s hs,
)
