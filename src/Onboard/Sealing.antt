-- ===== src/Onboard/Sealing.antt =====
-- cmd/dnspersist-tool/cm.go: what the holder of the secret key reads from a sealed account key.
use cm_saas_letsencrypt_ca_c.Base.{
  ℕ, zero, suc, ◌≡◌, refl, ap, arith, Option, none, some, List, [], ◌∷◌, ◌++◌, length, Text,
}
use cm_saas_letsencrypt_ca_c.Errors.{Result, ok, err}
use cm_saas_letsencrypt_ca_c.Onboard.Calls.{Exchange, Manager, take}
use cm_saas_letsencrypt_ca_c.Onboard.Accounts.{seal_box}

abbrev drop : ℕ → Text → Text
drop zero s = s
drop (suc n) [] = []
drop (suc n) (c ∷ s) = drop n s

take-length_append : (s t : Text) (n : ℕ) → length s ≡ n → take n (s ++ t) ≡ s
take-length_append [] t zero h = refl
take-length_append (c ∷ s) t (suc n) h =
    ap (λ (r : Text). c ∷ r) (take-length_append s t n (omega (arith, h)))
take-length_append [] t (suc n) h = absurd (omega (arith, h))
take-length_append (c ∷ s) t zero h = absurd (omega (arith, h))

drop-length_append : (s t : Text) (n : ℕ) → length s ≡ n → drop n (s ++ t) ≡ t
drop-length_append [] t zero h = refl
drop-length_append (c ∷ s) t (suc n) h = drop-length_append s t n (omega (arith, h))
drop-length_append [] t (suc n) h = absurd (omega (arith, h))
drop-length_append (c ∷ s) t zero h = absurd (omega (arith, h))

-- The decryption of a box: nonce, sender's public key, recipient's secret key, cipher text.
abbrev pub Unbox : Type 0
Unbox = Text → Text → Text → Text → Option Text

abbrev opened : Manager → Unbox → Text → Text → Result Text → Option Text
opened M unbox rpk rsk (err e) = none
opened M unbox rpk rsk (ok sealed) =
    unbox (M.blake2b (take 32 sealed ++ rpk)) (take 32 sealed) rsk (drop 32 sealed)

-- `crypto_box_seal_open` of libsodium, on base64: the first 32 bytes are the ephemeral public key,
-- and the nonce is the hash of that key and the recipient's.
pub open_sealed : Manager → Unbox → Text → Text → Text → Option Text
open_sealed M unbox rpk rsk sealed = opened M unbox rpk rsk (M.b64_std_decode sealed)

-- What is documented of base64 and of the boxes: keys have 32 bytes, and a box opens again.
pub record Boxes (M : Manager) (unbox : Unbox) (rpk rsk : Text) : Type 0 where
  pub decodes : (s : Text) → M.b64_std_decode (M.b64_std s) ≡ ok s
  pub hashes : M.new_hash ≡ ok tt
  pub key_length :
      (log : List Exchange) (epk esk : Text) → M.generate_key log ≡ ok (epk, esk) → length epk ≡ 32
  pub opens :
      (log : List Exchange) (epk esk message nonce : Text)
      → M.generate_key log ≡ ok (epk, esk)
      → unbox nonce epk rsk (M.box message nonce rpk esk) ≡ some message

-- Where a key pair can be drawn, the account key is sealed for any recipient key of 32 bytes, and
-- the holder of the secret key opens what was sealed by the rules of libsodium.
pub seal_box-open_sealed :
    (M : Manager) (unbox : Unbox) (rpk rsk : Text)
    → Boxes M unbox rpk rsk
    → (message : Text) (log : List Exchange) (epk esk : Text) → length rpk ≡ 32
    → M.generate_key log ≡ ok (epk, esk)
    → (sealed : Text) × (seal_box M message (M.b64_std rpk) log ≡ ok sealed)
      × (open_sealed M unbox rpk rsk sealed ≡ some message)
unfolding seal_box open_sealed
seal_box-open_sealed M unbox rpk rsk B message log epk esk n drawn =
    let size = B.key_length log epk esk drawn in
    let sealed = M.b64_std (epk ++ M.box message (M.blake2b (epk ++ rpk)) rpk esk) in
    (
      sealed,
      rw (B.decodes rpk, n, drawn, B.hashes) refl,
      rw (B.decodes _) (
          rw
            (
              take-length_append epk (M.box message (M.blake2b (epk ++ rpk)) rpk esk) 32 size,
              drop-length_append epk (M.box message (M.blake2b (epk ++ rpk)) rpk esk) 32 size,
            )
            (B.opens log epk esk message _ drawn)),
    )
