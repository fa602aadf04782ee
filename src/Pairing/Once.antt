-- ===== src/Pairing/Once.antt =====
-- nvhttp.cpp: `map_id_sess`, and that no session outlives a failure.
use solari.Base.{
  ℕ, ◌≡◌, refl, ap, sym, ◌∙◌, List, [], ◌∷◌, Option, none, some, Bool, true, false, arith, ◌==◌,
  ==_iff, if◌then◌else◌, Option-cases, Bool-cases, inl, inr,
}
use solari.Pairing.{
  Crypto, PairSession, Pairing, Reply, Query, getservercert, clientchallenge, serverchallengeresp,
  find_session, remove_session, put_session, settle, start_session, pair_phase, pair_later, pair,
  start, pairchallenge, challenge, challengeresp, secret, other, out_of_order, pin, short_salt,
  no_key, short_secret, invalid_cert, rejected,
}

pub find_session-remove :
    (id j : ℕ) (ss : List PairSession)
    → find_session id (remove_session j ss) ≡ (if j == id then none else find_session id ss)
unfolding find_session remove_session
find_session-remove id j [] = ground arith
find_session-remove id j (s ∷ ss) = ground (arith, find_session-remove id j ss)

pub find_session-put :
    (id : ℕ) (t : PairSession) (ss : List PairSession)
    → find_session id (put_session t ss)
      ≡ (if t.unique_id == id then some t else find_session id ss)
unfolding find_session put_session
find_session-put id t [] = refl
find_session-put id t (s ∷ ss) = ground (arith, find_session-put id t ss)

pub find_session-unique_id :
    (id : ℕ) (ss : List PairSession) (s : PairSession)
    → find_session id ss ≡ some s
    → s.unique_id ≡ id
unfolding find_session
find_session-unique_id id [] s e = cc
find_session-unique_id id (t ∷ ss) s e = elim (Bool-cases (t.unique_id == id)) [
  | inl same ↦
      let found : t ≡ s = ground arith in
      ap (λ u. u.unique_id) (sym found) ∙ (==_iff t.unique_id id).0 same
  | inr ne ↦ find_session-unique_id id ss s (ground arith)
]

-- The replies that refuse a client.
unfoldable pub failed : Reply → Bool
failed out_of_order = true
failed short_salt = true
failed no_key = true
failed short_secret = true
failed invalid_cert = true
failed rejected = true
failed _ = false

removed : (p : Pairing) (id : ℕ) → find_session id (settle p id none).sessions ≡ none
unfolding settle
removed p id = ground (arith, find_session-remove id id p.sessions)

getservercert-failed :
    (c : Crypto) (s : PairSession) (pin : List ℕ)
    → failed (getservercert c s pin).0 ≡ true
    → (getservercert c s pin).1 ≡ none
unfolding getservercert failed
getservercert-failed c s pin h = ground arith

clientchallenge-failed :
    (c : Crypto) (s : PairSession) (a b d : List ℕ)
    → failed (clientchallenge c s a b d).0 ≡ true
    → (clientchallenge c s a b d).1 ≡ none
unfolding clientchallenge failed
clientchallenge-failed c s a b d h = ground arith

serverchallengeresp-failed :
    (c : Crypto) (s : PairSession) (a : List ℕ)
    → failed (serverchallengeresp c s a).0 ≡ true
    → (serverchallengeresp c s a).1 ≡ none
unfolding serverchallengeresp failed
serverchallengeresp-failed c s a h = ground arith

pair_phase-failed :
    (c : Crypto) (p : Pairing) (s : PairSession) (q : Query)
    → failed (pair_phase c p s q).0 ≡ true
    → find_session s.unique_id (pair_phase c p s q).1.sessions ≡ none
unfolding pair_phase failed
pair_phase-failed c p s (challenge text a b) h =
    rw (clientchallenge-failed c s _ a b h) (removed p s.unique_id)
pair_phase-failed c p s (challengeresp text) h =
    rw (serverchallengeresp-failed c s _ h) (removed p s.unique_id)
pair_phase-failed c p s (secret text) h = removed _ s.unique_id
pair_phase-failed c p s (start a b) h = cc
pair_phase-failed c p s pairchallenge h = cc
pair_phase-failed c p s other h = cc

pair_later-failed :
    (c : Crypto) (p : Pairing) (id : ℕ) (q : Query)
    → failed (pair_later c p id q).0 ≡ true
    → find_session id (pair_later c p id q).1.sessions ≡ none
unfolding pair_later
pair_later-failed c p id q h = elim (Option-cases (find_session id p.sessions)) [
  | inl e ↦ ground arith
  | inr (s, e) ↦
      let same : pair_later c p id q ≡ pair_phase c p s q = ground arith in
      let own = find_session-unique_id id p.sessions s e in
      rw (same, ← own) (pair_phase-failed c p s q (rw same at h))
]

-- Where a request is refused, with failure or with a client that is not genuine, its session is gone.
pub pair-failed :
    (c : Crypto) (stdin : Option (List ℕ)) (p : Pairing) (id : ℕ) (q : Query)
    → failed (pair c stdin p (some id) q).0 ≡ true
    → find_session id (pair c stdin p (some id) q).1.sessions ≡ none
unfolding pair failed
pair-failed c none p id (start a b) h = cc
pair-failed c (some pin) p id (start a b) h =
    rw (getservercert-failed c (start_session p id a b) pin h) (removed p id)
pair-failed c stdin p id pairchallenge h = cc
pair-failed c stdin p id (challenge t a b) h = pair_later-failed c p id (challenge t a b) h
pair-failed c stdin p id (challengeresp t) h = pair_later-failed c p id (challengeresp t) h
pair-failed c stdin p id (secret t) h = pair_later-failed c p id (secret t) h
pair-failed c stdin p id other h = pair_later-failed c p id other h
