-- ===== src/Pairing/Authorized.antt =====
-- nvhttp.cpp: what it takes to be authorized.
use solari.Base.{
  ℕ, ◌<◌, ◌≡◌, refl, ap, sym, ◌∙◌, ◌⊎◌, List, [], ◌∷◌, ◌++◌, Option, none, some, true, arith,
  ==_iff, Option-cases, Bool-cases, inl, inr, length, take, drop, subst,
}
use solari.Hex.{Bytes, from_hex_vec}
use solari.Pairing.{
  Crypto, PairSession, PairPhase, phase_none, phase_getservercert, phase_clientchallenge,
  phase_serverchallengeresp, phase_clientpairingsecret, Pairing, Reply, Query, same_phase,
  same_bytes, is_genuine, clientpairingsecret, find_session, settle, authorize, pair_phase,
  pair_later, pair, pin, start, pairchallenge, challenge, challengeresp, secret, other,
}

pub same_phase-eq : (a b : PairPhase) → same_phase a b ≡ true → a ≡ b
unfolding same_phase
same_phase-eq phase_none phase_none e = refl
same_phase-eq phase_getservercert phase_getservercert e = refl
same_phase-eq phase_clientchallenge phase_clientchallenge e = refl
same_phase-eq phase_serverchallengeresp phase_serverchallengeresp e = refl
same_phase-eq phase_clientpairingsecret phase_clientpairingsecret e = refl
same_phase-eq _ _ e = cc

same_bytes-eq : (xs ys : Bytes) → same_bytes xs ys ≡ true → xs ≡ ys
unfolding same_bytes
same_bytes-eq [] [] e = refl
same_bytes-eq [] (y ∷ ys) e = cc
same_bytes-eq (x ∷ xs) [] e = cc
same_bytes-eq (x ∷ xs) (y ∷ ys) e = ground (arith, same_bytes-eq xs ys, ==_iff x y)

-- A client's proof: the secret that it sent, with the signature field of its own certificate, has the
-- hash that it committed to in the phase before, and it signed the secret with the certificate's key.
pub record Proven (c : Crypto) (s : PairSession) (answer : Bytes) : Type 0 where
  pub in_order : s.last_phase ≡ phase_serverchallengeresp
  pub long : 16 < length answer
  pub signature : Bytes
  pub readable : c.signature s.cert ≡ some signature
  pub committed : c.hash (s.serverchallenge ++ signature ++ take 16 answer) ≡ s.clienthash
  pub signed : c.verify256 s.cert (take 16 answer) (drop 16 answer) ≡ true

clientpairingsecret-Proven :
    (c : Crypto) (s : PairSession) (answer : Bytes)
    → (clientpairingsecret c s answer).1 ≡ true
    → Proven c s answer
unfolding clientpairingsecret is_genuine
clientpairingsecret-Proven c s answer h = elim (Option-cases (c.signature s.cert)) [
  | inl e ↦ absurd (ground arith)
  | inr (signature, e) ↦ record {
    in_order = same_phase-eq s.last_phase phase_serverchallengeresp (ground arith);
    long = ground arith;
    signature = signature;
    readable = e;
    committed =
        same_bytes-eq (c.hash (s.serverchallenge ++ signature ++ take 16 answer)) s.clienthash
          (ground arith);
    signed = ground arith;
  }
]

-- The same devices and certificates as before.
abbrev pub Unchanged : Pairing → Pairing → Type 0
Unchanged p q = (q.named_devices ≡ p.named_devices) × (q.add_cert ≡ p.add_cert)

-- One device more: that of a session of `id` that proved itself.
pub record Authorizes (c : Crypto) (p : Pairing) (id : ℕ) (q : Query) (p' : Pairing) : Type 0 where
  pub text : List ℕ
  pub query : q ≡ secret text
  pub session : PairSession
  pub found : find_session id p.sessions ≡ some session
  pub proven : Proven c session (from_hex_vec text true)
  pub device : p'.named_devices ≡ p.named_devices ++ (session.name, session.cert) ∷ []
  pub raised : p'.add_cert ≡ p.add_cert ++ session.cert ∷ []

settle-Unchanged :
    (p : Pairing) (id : ℕ) (after : Option PairSession) → Unchanged p (settle p id after)
unfolding settle
settle-Unchanged p id none = (refl, refl)
settle-Unchanged p id (some s) = (refl, refl)

pair_phase-Authorizes :
    (c : Crypto) (p : Pairing) (id : ℕ) (s : PairSession) (q : Query)
    → find_session id p.sessions ≡ some s
    → Unchanged p (pair_phase c p s q).1 ⊎ Authorizes c p id q (pair_phase c p s q).1
unfolding pair_phase authorize
pair_phase-Authorizes c p id s (challenge t a b) e = inl (settle-Unchanged p s.unique_id _)
pair_phase-Authorizes c p id s (challengeresp t) e = inl (settle-Unchanged p s.unique_id _)
pair_phase-Authorizes c p id s (secret t) e =
    let answer = from_hex_vec t true in
    let p' = (pair_phase c p s (secret t)).1 in
    elim (Bool-cases (clientpairingsecret c s answer).1) [
      | inl genuine ↦
          let same : p' ≡ settle (authorize p s) s.unique_id none = ground arith in
          let kept = settle-Unchanged (authorize p s) s.unique_id none in
          inr (record {
            text = t;
            query = refl;
            session = s;
            found = e;
            proven = clientpairingsecret-Proven c s answer genuine;
            device = ap (λ (r : Pairing). r.named_devices) same ∙ kept.0;
            raised = ap (λ (r : Pairing). r.add_cert) same ∙ kept.1;
          })
      | inr not_genuine ↦
          let same : p' ≡ settle p s.unique_id none = ground arith in
          inl (subst (Unchanged p) (sym same) (settle-Unchanged p s.unique_id none))
    ]
pair_phase-Authorizes c p id s (start a b) e = inl (refl, refl)
pair_phase-Authorizes c p id s pairchallenge e = inl (refl, refl)
pair_phase-Authorizes c p id s other e = inl (refl, refl)

pair_later-Authorizes :
    (c : Crypto) (p : Pairing) (id : ℕ) (q : Query)
    → Unchanged p (pair_later c p id q).1 ⊎ Authorizes c p id q (pair_later c p id q).1
unfolding pair_later
pair_later-Authorizes c p id q = elim (Option-cases (find_session id p.sessions)) [
  | inl e ↦ inl (ground arith)
  | inr (s, e) ↦
      let same : pair_later c p id q ≡ pair_phase c p s q = ground arith in
      subst (λ (r : Reply × Pairing). Unchanged p r.1 ⊎ Authorizes c p id q r.1) (sym same)
        (pair_phase-Authorizes c p id s q e)
]

-- A pairing request changes nothing of the authorized devices, or it authorizes one: then it carries a
-- pairing secret for a session in the last phase, and that session's client has proved itself.
pub pair-Authorizes :
    (c : Crypto) (stdin : Option (List ℕ)) (p : Pairing) (id : ℕ) (q : Query)
    → let p' = (pair c stdin p (some id) q).1 in Unchanged p p' ⊎ Authorizes c p id q p'
unfolding pair
pair-Authorizes c none p id (start a b) = inl (settle-Unchanged p id _)
pair-Authorizes c (some pin) p id (start a b) = inl (settle-Unchanged p id _)
pair-Authorizes c stdin p id pairchallenge = inl (refl, refl)
pair-Authorizes c stdin p id (challenge t a b) = pair_later-Authorizes c p id (challenge t a b)
pair-Authorizes c stdin p id (challengeresp t) = pair_later-Authorizes c p id (challengeresp t)
pair-Authorizes c stdin p id (secret t) = pair_later-Authorizes c p id (secret t)
pair-Authorizes c stdin p id other = pair_later-Authorizes c p id other
