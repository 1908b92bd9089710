-- ===== src/Acme/Engine/Posts.antt =====
-- The signed POST keeps what one attempt of it and the directory keep.
use cm_saas_letsencrypt_ca_c.Base.{ℕ, zero, suc, Option, none, some, Text}
use cm_saas_letsencrypt_ca_c.Errors.{Problem}
use cm_saas_letsencrypt_ca_c.Acme.Outside.{Outside}
use cm_saas_letsencrypt_ca_c.Acme.Act.{Session}
use cm_saas_letsencrypt_ca_c.Acme.Act.Keeps.{Keeps, Keeps-bind, Keeps-if, Keeps-pure, Keeps-raise}
use cm_saas_letsencrypt_ca_c.Acme.Client.{directory, give_up, post_once, post_loop, post_signed}

module _ (O : Outside) {P : Session → Type 0} (kept_directory : Keeps P (directory O))
    (kept_once : (url : Text) (payload : Option Text) → Keeps P (post_once O url payload)) where
  give_up-Keeps : (last : Option Problem) → Keeps P (give_up O last)
  give_up-Keeps none = Keeps-pure _
  give_up-Keeps (some p) = Keeps-raise _

  post_loop-Keeps :
      (rounds attempt : ℕ) (last : Option Problem) (url : Text) (payload : Option Text)
      → Keeps P (post_loop O rounds attempt last url payload)
  unfolding post_loop
  post_loop-Keeps zero attempt last url payload = give_up-Keeps last
  post_loop-Keeps (suc rounds) attempt last url payload =
      Keeps-bind _ _ (kept_once url payload) λ r.
        Keeps-if _ _ _
          (Keeps-if _ _ _ (post_loop-Keeps rounds (suc attempt) _ url payload) (Keeps-raise _))
          (Keeps-pure r)

  pub post_signed-Keeps : (url : Text) (payload : Option Text) → Keeps P (post_signed O url payload)
  unfolding post_signed
  post_signed-Keeps url payload =
      Keeps-bind _ _ kept_directory λ _. post_loop-Keeps _ _ _ url payload
