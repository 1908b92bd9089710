-- ===== src/Service/Certs/Blocks.antt =====
-- `parseCertificatePEM`: the rounds of its loop.
use cm_saas_letsencrypt_ca_c.Base.{
  ℕ, zero, suc, ◌+◌, ◌≤◌, ◌<◌, ◌≡◌, refl, ap, ◌∙◌, arith, Option, none, some, List, [], ◌∷◌, ◌++◌,
  Text, text, text_eq, length, Bool-cases, inl, inr,
}
use cm_saas_letsencrypt_ca_c.Errors.{Result, ok, err, ◌>>=◌}
use cm_saas_letsencrypt_ca_c.Acme.Pem.{Block}
use cm_saas_letsencrypt_ca_c.Service.{Platform}
use cm_saas_letsencrypt_ca_c.Service.Certs.{block_step, read_blocks}

-- The reader of PEM takes the block that it returns out of the text.
abbrev pub TakesBlock : Platform → Type 0
TakesBlock W =
    (s : Text) (b : Block) (rest : Text)
    → W.keys.pem_decode s ≡ some (b, rest)
    → length rest < length s

module _ (W : Platform) where
  bind_same :
      (r : Result Text) (f g : Text → Result (List Text))
      → ((a : Text) → f a ≡ g a)
      → (r >>= f) ≡ (r >>= g)
  bind_same (ok a) f g h = h a
  bind_same (err e) f g h = refl

  step_same :
      (certs : List Text) (o : Option (Block × Text))
      (next other : Text → List Text → Result (List Text))
      → ((b : Block) (rest : Text)
          → o ≡ some (b, rest)
          → (cs : List Text) → next rest cs ≡ other rest cs)
      → block_step W certs o next ≡ block_step W certs o other
  step_same certs none next other h = refl
  step_same certs (some (b, rest)) next other h =
      elim (Bool-cases (text_eq b.kind (text "CERTIFICATE"))) [
        | inl y ↦ rw y (bind_same _ _ _ (λ cert. h b rest refl (certs ++ cert ∷ [])))
        | inr n ↦ rw n (h b rest refl certs)
      ]

  blocks_same :
      (r extra : ℕ) (s : Text) (certs : List Text)
      → TakesBlock W
      → length s ≤ r
      → read_blocks W (suc (r + extra)) s certs ≡ read_blocks W (suc r) s certs
  unfolding read_blocks
  blocks_same zero extra s certs takes h =
      step_same certs (W.keys.pem_decode s) _ _
        λ b rest e cs. absurd (nothing_left (takes s b rest e))
    where
      nothing_left : {n : ℕ} → n < length s → ⊥
      nothing_left k = omega arith
  blocks_same (suc r) extra s certs takes h =
      step_same certs (W.keys.pem_decode s) _ _ λ b rest e cs.
        ap (λ n. read_blocks W n rest cs) (next_round r extra)
        ∙ blocks_same r extra rest cs takes (omega (arith, takes s b rest e))
    where
      next_round : (r extra : ℕ) → suc r + extra ≡ suc (r + extra)
      next_round r extra = omega arith

-- The rounds of the model are enough to read a text of certificates: with any number of further
-- rounds the result is the same, if the reader of PEM takes the block that it returns out of the text.
pub read_blocks_suffice :
    (W : Platform) (pem : Text) (extra : ℕ)
    → TakesBlock W
    → read_blocks W (suc (length pem + extra)) pem [] ≡ read_blocks W (suc (length pem)) pem []
read_blocks_suffice W pem extra takes = blocks_same W (length pem) extra pem [] takes (omega arith)
