-- ===== src/Acme/Engine/Nonces.antt =====
-- Replay nonces: no two signed requests carry the same one, if the CA never issues one twice.
use cm_saas_letsencrypt_ca_c.Base.{
  ◌≡◌, ◌≢◌, refl, true, false, List, [], ◌∷◌, ◌++◌, Text, member, text_eq, text_eq_iff,
  text_eq_refl, arith, Bool-cases, inl, inr,
}
use cm_saas_letsencrypt_ca_c.Names.Distinct.{Distinct}
use cm_saas_letsencrypt_ca_c.Errors.{ok}
use cm_saas_letsencrypt_ca_c.Acme.Types.{Request, get, head, post, Response}
use cm_saas_letsencrypt_ca_c.Acme.Outside.{Outside, Event, answered, unanswered, slept, dns}

abbrev pub carried : Request → List Text
carried (get url) = []
carried (head url) = []
carried (post url signed) = signed.header.nonce ∷ []

abbrev pub nonempty : Text → List Text
nonempty [] = []
nonempty (c ∷ n) = (c ∷ n) ∷ []

-- The nonces of the signed requests that were sent, and those that the CA has issued.
abbrev pub used : List Event → List Text
used [] = []
used (answered req r ∷ log) = carried req ++ used log
used (unanswered req ∷ log) = carried req ++ used log
used (slept n ∷ log) = used log
used (dns call ∷ log) = used log

abbrev pub issued : List Event → List Text
issued [] = []
issued (answered req r ∷ log) = nonempty r.replay_nonce ++ issued log
issued (unanswered req ∷ log) = issued log
issued (slept n ∷ log) = issued log
issued (dns call ∷ log) = issued log

-- RFC 8555, 6.5: the server issues unpredictable nonces, so none that it has issued before.
abbrev pub IssuesFresh : Outside → Type 0
IssuesFresh O =
    (log : List Event) (req : Request) (r : Response)
    → O.http log req ≡ ok r
    → r.replay_nonce ≢ []
    → member r.replay_nonce (issued log) ≡ false

-- Each used nonce was issued, and none was used twice.
pub record IsSound (log : List Event) : Type 0 where
  pub once : Distinct (used log)
  pub from_ca : (n : Text) → member n (used log) ≡ true → member n (issued log) ≡ true

-- A nonce that may be used next.
pub record IsReady (n : Text) (log : List Event) : Type 0 where
  pub is_issued : n ≢ [] → member n (issued log) ≡ true
  pub is_unused : n ≢ [] → member n (used log) ≡ false

member-nonempty :
    (n m : Text) (ns : List Text) → member n ns ≡ true → member n (nonempty m ++ ns) ≡ true
member-nonempty n [] ns h = h
member-nonempty n (c ∷ m) ns h = ground (arith)

nonempty-member : (n : Text) (ns : List Text) → n ≢ [] → member n (nonempty n ++ ns) ≡ true
nonempty-member [] ns h = absurd (h refl)
nonempty-member (c ∷ n) ns h = ground (arith, text_eq_refl (c ∷ n))

-- What a request may carry: nonces that are issued and unused.
abbrev pub IsSpendable : Request → List Event → Type 0
IsSpendable (get url) log = Unit
IsSpendable (head url) log = Unit
IsSpendable (post url signed) log =
    (member signed.header.nonce (issued log) ≡ true)
    × (member signed.header.nonce (used log) ≡ false)

sent-Distinct :
    (req : Request) (log : List Event)
    → IsSpendable req log
    → Distinct (used log)
    → Distinct (carried req ++ used log)
sent-Distinct (get url) log a d = d
sent-Distinct (head url) log a d = d
sent-Distinct (post url signed) log a d = (a.1, d)

sent-issued :
    (req : Request) (log : List Event)
    → IsSpendable req log
    → IsSound log
    → (n : Text) → member n (carried req ++ used log) ≡ true
    → member n (issued log) ≡ true
sent-issued (get url) log a h n m = h.from_ca n m
sent-issued (head url) log a h n m = h.from_ca n m
sent-issued (post url signed) log a h n m = elim (Bool-cases (text_eq signed.header.nonce n)) [
  | inl y ↦ rw ((text_eq_iff signed.header.nonce n).0 y) at a.0
  | inr f ↦ h.from_ca n (rw f at m)
]

module _ (req : Request) (log : List Event) (spendable : IsSpendable req log)
    (sound : IsSound log) where
  pub silence-IsSound : IsSound (unanswered req ∷ log)
  silence-IsSound = record {
    once = sent-Distinct req log spendable sound.once;
    from_ca = sent-issued req log spendable sound;
  }

  pub answer-IsSound : (r : Response) → IsSound (answered req r ∷ log)
  answer-IsSound r = record {
    once = sent-Distinct req log spendable sound.once;
    from_ca = λ n m.
        member-nonempty n r.replay_nonce (issued log) (sent-issued req log spendable sound n m);
  }

  -- The nonce that an answer brings is ready behind the exchange, whatever the request carried.
  pub answer-IsReady :
      (r : Response)
      → (r.replay_nonce ≢ [] → member r.replay_nonce (issued log) ≡ false)
      → IsReady r.replay_nonce (answered req r ∷ log)
  answer-IsReady r fresh = record {
    is_issued = nonempty-member r.replay_nonce (issued log);
    is_unused = λ p. elim (Bool-cases (member r.replay_nonce (carried req ++ used log))) [
      | inl y ↦ cc (sent-issued req log spendable sound r.replay_nonce y, fresh p)
      | inr f ↦ f
    ];
  }

-- A GET leaves a cached nonce ready.
pub get-IsReady :
    (n url : Text) (r : Response) (log : List Event)
    → IsReady n log
    → IsReady n (answered (get url) r ∷ log)
get-IsReady n url r log h = record {
  is_issued = λ p. member-nonempty n r.replay_nonce (issued log) (h.is_issued p);
  is_unused = h.is_unused;
}
