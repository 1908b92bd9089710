-- ===== src/Examples/Settling.antt =====
-- A session of the lab begins with neither trace nor nonce, and calls of the client lead on from it.
use cm_saas_letsencrypt_ca_c.Base.{refl, [], ◌∷◌}
use cm_saas_letsencrypt_ca_c.Acme.Act.{Session}
use cm_saas_letsencrypt_ca_c.Acme.Engine.Cached.{IsSafe, IsReady-nil}
use cm_saas_letsencrypt_ca_c.Acme.Engine.Reached.{
  Reaches, here, after, registers, orders, resolves, finalizes, revokes,
}
use cm_saas_letsencrypt_ca_c.Acme.Persist.{default_poll}
use cm_saas_letsencrypt_ca_c.Examples.Runs.{two_names}
use cm_saas_letsencrypt_ca_c.Examples.Lab.{lab_session, lab_ca}

-- Nothing has been sent yet, and no nonce is cached.
pub lab-IsSafe : IsSafe lab_session
lab-IsSafe = record {
  sound = record { once = tt; from_ca = λ n m. cc };
  ready = IsReady-nil [] [] refl;
}

-- From the registration to a request to finalize, and a revocation.
abbrev pub lab_run : (t : Session) × Reaches lab_ca lab_session t
lab_run = (
  _,
  after
      (after
        (after (after (after here (registers [])) (orders two_names))
          (resolves (5 ∷ []) default_poll))
        (finalizes (4 ∷ []) []))
      (revokes (6 ∷ []) 1),
)
