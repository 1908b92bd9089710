-- ===== src/Route53/Sync.antt =====
-- `waitForSync`: the rounds of its loop.
use cm_saas_letsencrypt_ca_c.Base.{
  ltb-false, ℕ, zero, suc, ◌+◌, ◌*◌, ◌≤◌, ◌<◌, ◌≡◌, refl, ap, ◌∙◌, arith, false, Option, Text, ltb,
  Bool-cases, inl, inr,
}
use cm_saas_letsencrypt_ca_c.Errors.{Result, ok, err}
use cm_saas_letsencrypt_ca_c.Route53.{
  Sdk, is_insync, sync_wait, sync_step, sync_loop, sync_rounds, sync_timeout, sync_interval,
}

-- The timer takes its time.
abbrev pub TimerPasses : {S : Type 0} → Sdk S → Type 0
TimerPasses {S} A = (n : ℕ) (s : S) → A.now s + n ≤ A.now (A.sleep n s)

next_round : (r extra : ℕ) → suc r + extra ≡ suc (r + extra)
next_round r extra = omega arith

module _ {S : Type 0} (A : Sdk S) where
  wait_same :
      (s : S) (c : Result (Unit {0})) (next other : S → Result (Unit {0}) × S)
      → next (A.sleep (sync_interval A) s) ≡ other (A.sleep (sync_interval A) s)
      → sync_wait A s c next ≡ sync_wait A s c other
  wait_same s (err e) next other h = refl
  wait_same s (ok u) next other h = h

  step_same :
      (id : Text) (deadline : ℕ) (s : S) (g : Result (Option Text))
      (next other : S → Result (Unit {0}) × S)
      → (ltb deadline (A.now s) ≡ false
          → next (A.sleep (sync_interval A) s) ≡ other (A.sleep (sync_interval A) s))
      → sync_step A id deadline s g next ≡ sync_step A id deadline s g other
  step_same id deadline s (err e) next other h = refl
  step_same id deadline s (ok status) next other h = elim (Bool-cases (is_insync status)) [
    | inl y ↦ rw y refl
    | inr n ↦ rw n (elim (Bool-cases (ltb deadline (A.now s))) [
      | inl late ↦ rw late refl
      | inr early ↦ rw early (wait_same s (A.cancelled s) next other (h early))
    ])
  ]

  module _ (passes : TimerPasses A) (id : Text) (deadline extra : ℕ) where
    loop_same :
        (r : ℕ) (s : S)
        → deadline < A.now s + r * sync_interval A
        → sync_loop A (suc (r + extra)) id deadline s ≡ sync_loop A (suc r) id deadline s
    unfolding sync_loop
    loop_same zero s near =
        step_same id deadline s (A.get_change s id) _ _
          λ early. absurd (too_near (ltb-false deadline (A.now s) early))
      where
        too_near : A.now s ≤ deadline → ⊥
        too_near h = omega arith
    loop_same (suc r) s near = step_same id deadline s (A.get_change s id) _ _ λ early.
        ap (λ n. sync_loop A n id deadline (A.sleep (sync_interval A) s)) (next_round r extra)
        ∙ loop_same r (A.sleep (sync_interval A) s) (omega (arith, passes (sync_interval A) s))

-- The rounds of the model are enough for `waitForSync`: with any number of further rounds the loop
-- behaves the same, however the API answers, if the timer takes its time.
pub sync_rounds_suffice :
    {S : Type 0} (A : Sdk S) (id : Text) (extra : ℕ) (s : S)
    → TimerPasses A
    → sync_loop A (sync_rounds A + extra) id (A.now s + sync_timeout A) s
      ≡ sync_loop A (sync_rounds A) id (A.now s + sync_timeout A) s
sync_rounds_suffice A id extra s passes =
    ap (λ n. sync_loop A n id (A.now s + sync_timeout A) s) (next_round 41 extra)
    ∙ loop_same A passes id (A.now s + sync_timeout A) extra 41 s (omega arith)
