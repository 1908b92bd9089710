-- ===== src/Acme/Client.antt =====
-- internal/acme/client.go: the cached directory, the replay nonces and the signed POST.

use cm_saas_letsencrypt_ca_c.Base.{
  ℕ, zero, suc, Bool, ◌&&◌, Option, none, some, [], ◌∷◌, Text, text, trim_space, contains, is_empty,
  if◌then◌else◌, leb, ◌==◌, decimal, ◌++◌,
}
use cm_saas_letsencrypt_ca_c.Errors.{
  Problem, problem, end, type_of, Err, fail, acme, Result, ok, err,
}
use cm_saas_letsencrypt_ca_c.Acme.Types.{Directory, Client, Request, get, head, post, Response}
use cm_saas_letsencrypt_ca_c.Acme.Outside.{Outside, answered, unanswered}
use cm_saas_letsencrypt_ca_c.Acme.Act.{
  Act, pure, raise, lift, gets, in_context, emit, update, ◌>>=◌, ◌>>◌,
}
use cm_saas_letsencrypt_ca_c.Acme.Jws.{sign_jws}

-- `parseProblem`, from the result of reading the body as JSON.
abbrev pub normal_problem : Text → ℕ → Result Problem → Problem
normal_problem body status (err e) = problem [] (trim_space body) status none end
normal_problem body status (ok (problem [] [] st i subs)) =
    problem [] (trim_space body) status none end
normal_problem body status (ok (problem [] (d ∷ detail) zero i subs)) =
    problem [] (d ∷ detail) status i subs
normal_problem body status (ok (problem [] (d ∷ detail) (suc st) i subs)) =
    problem [] (d ∷ detail) (suc st) i subs
normal_problem body status (ok (problem (c ∷ kind) detail zero i subs)) =
    problem (c ∷ kind) detail status i subs
normal_problem body status (ok (problem (c ∷ kind) detail (suc st) i subs)) =
    problem (c ∷ kind) detail (suc st) i subs

module _ (O : Outside) where
  unfoldable pub parse_problem : Text → ℕ → Problem
  parse_problem body status = normal_problem body status (O.read_problem body)

  -- The outcome of `Do`, with its trace.
  abbrev pub record_answer : Request → Result Response → Act Response
  record_answer req (ok r) = do emit (answered req r); pure r
  record_answer req (err e) = do emit (unanswered req); raise e

  -- `http.Client.Do`
  unfoldable pub send : Request → Act Response
  send req = do log ← gets (λ s. s.log); record_answer req (O.http log req)

  unfoldable pub set_dir : Directory → Client → Client
  set_dir d c = record c { dir = some d }

  abbrev pub bad_status : Response → Err
  bad_status r =
      fail
        (text "acme: directory status " ++ (decimal r.status ++ (text ": " ++ trim_space r.body)))

  -- The part of `Client.Directory` behind the cache.
  unfoldable pub fetch_directory : Act Directory
  fetch_directory = do
    url ← gets (λ s. s.client.directory_url)
    lift (if is_empty url then err (fail (text "acme: directory URL is required")) else ok tt)
    lift (O.check_url url)
    r ← in_context (text "acme: fetch directory") (send (get url))
    lift (if r.status == 200 then ok tt else err (bad_status r))
    d ← in_context (text "acme: parse directory") (lift (O.read_directory r.body))
    update (set_dir d)
    pure d

  abbrev pub cached_directory : Option Directory → Act Directory
  cached_directory (some d) = pure d
  cached_directory none = fetch_directory

  -- `Client.Directory`: fetched once, then cached.
  unfoldable pub directory : Act Directory
  directory = do dir ← gets (λ s. s.client.dir); cached_directory dir

  unfoldable pub set_nonce : Text → Client → Client
  set_nonce n c = record c { nonce = n }

  unfoldable pub fetch_nonce : Act Text
  fetch_nonce = do
    dir ← directory
    lift (O.check_url dir.new_nonce)
    r ← in_context (text "acme: get nonce") (send (head dir.new_nonce))
    if is_empty r.replay_nonce
        then raise (fail (text "acme: newNonce returned no Replay-Nonce header"))
        else pure r.replay_nonce

  abbrev pub take_nonce : Text → Act Text
  take_nonce [] = fetch_nonce
  take_nonce (c ∷ n) = do update (set_nonce []); pure (c ∷ n)

  -- `Client.getNonce`: a cached nonce is handed out once and forgotten.
  unfoldable pub get_nonce : Act Text
  get_nonce = do n ← gets (λ s. s.client.nonce); take_nonce n

  abbrev pub keep_nonce : Text → Act (Unit {0})
  keep_nonce [] = pure tt
  keep_nonce (c ∷ n) = update (set_nonce (c ∷ n))

  -- One attempt of `post`: sign, send, and keep the nonce of the answer.
  unfoldable pub post_once : Text → Option Text → Act Response
  post_once url payload = do
    nonce ← get_nonce
    key ← gets (λ s. s.client.key)
    kid ← gets (λ s. s.client.account_url)
    signed ← sign_jws O key payload nonce url kid
    lift (O.check_url url)
    r ← in_context (text "acme: POST " ++ url) (send (post url signed))
    keep_nonce r.replay_nonce
    pure r

  abbrev pub is_bad_nonce : Problem → Bool
  is_bad_nonce p = contains (type_of p) (text "badNonce")

  abbrev pub no_response : Response
  no_response = record { status = 0; body = []; replay_nonce = []; location = [] }

  -- `return 0, nil, nil, lastErr`
  abbrev pub give_up : Option Problem → Act Response
  give_up none = pure no_response
  give_up (some p) = raise (acme p)

  -- The loop of `post` over the attempts, with the rounds left, the attempt and `lastErr`.
  unfoldable pub post_loop : ℕ → ℕ → Option Problem → Text → Option Text → Act Response
  post_loop zero attempt last url payload = give_up last
  post_loop (suc rounds) attempt last url payload = do
    r ← post_once url payload
    let p = parse_problem r.body r.status
    let again = post_loop rounds (suc attempt) (some p) url payload
    if leb 400 r.status
        then (if attempt == 0 && is_bad_nonce p then again else raise (acme p))
        else pure r

  -- `Client.post`; a payload of `none` is nil. The callers use the status, the body and the headers
  -- of an answer only when there is no error, so an error comes alone here.
  unfoldable pub post_signed : Text → Option Text → Act Response
  post_signed url payload = do _ ← directory; post_loop 2 0 none url payload
