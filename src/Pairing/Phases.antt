-- ===== src/Pairing/Phases.antt =====
-- nvhttp.cpp: the phases that a session has gone through, and the handlers that advance it.
pub mod Run
use solari.Base.{
  ℕ, ◌≡◌, refl, ap, sym, ◌∙◌, subst, ◌⊎◌, List, [], ◌∷◌, Option, none, some, Bool, true, false, not,
  ◌||◌, length, arith, ◌==◌, ==_iff, if◌then◌else◌, Option-cases, Bool-cases, inl, inr,
}
use solari.Hex.{Bytes}
use solari.Pairing.{
  Crypto, PairSession, PairPhase, phase_none, phase_getservercert, phase_clientchallenge,
  phase_serverchallengeresp, phase_clientpairingsecret, Pairing, Reply, Query, same_phase,
  clientchallenge, serverchallengeresp, clientpairingsecret, getservercert, find_session, settle,
  authorize, start_session, pair_phase, pair_later, pair, pin, start, pairchallenge, challenge,
  challengeresp, secret, other, all_digits,
}
use solari.Pairing.Once.{find_session-remove, find_session-put, find_session-unique_id}
use solari.Pairing.Authorized.{same_phase-eq}

-- A request, or a PIN that the host's user enters for the first session.
pub data Call : Type 0 where
  request : Option (List ℕ) → ℕ → Query → Call
  enters : ℕ → List ℕ → List ℕ → Call

abbrev pub no_sessions : Pairing
no_sessions = record { sessions = []; named_devices = []; add_cert = [] }

-- The state after the calls `h`, the newest of which stands first.
unfoldable pub state : Crypto → List Call → Pairing
state c [] = no_sessions
state c (request stdin id q ∷ h) = (pair c stdin (state c h) (some id) q).1
state c (enters first digits name ∷ h) = (pin c (state c h) first digits name).1

-- The calls `h` took a session of `id` through the phases up to the given one, in their order: the
-- PIN was entered, then came the client's challenge, then its response.
pub data Past (id : ℕ) : PairPhase → List Call → Type 0 where
  fresh : {h : List Call} → Past id phase_none h
  entered :
      {h : List Call} {digits name : List ℕ}
      → Past id phase_getservercert (enters id digits name ∷ h)
  typed :
      {h : List Call} {digits cert salt : List ℕ}
      → Past id phase_getservercert (request (some digits) id (start cert salt) ∷ h)
  challenged :
      {h : List Call} {stdin : Option (List ℕ)} {text a b : List ℕ}
      → Past id phase_getservercert h
      → Past id phase_clientchallenge (request stdin id (challenge text a b) ∷ h)
  responded :
      {h : List Call} {stdin : Option (List ℕ)} {text : List ℕ}
      → Past id phase_clientchallenge h
      → Past id phase_serverchallengeresp (request stdin id (challengeresp text) ∷ h)
  later : {phase : PairPhase} {h : List Call} {k : Call} → Past id phase h → Past id phase (k ∷ h)

-- Every session has the past that its phase tells of.
abbrev pub AllPast : Pairing → List Call → Type 0
AllPast p h =
    (id : ℕ) (s : PairSession) → find_session id p.sessions ≡ some s → Past id s.last_phase h

later-AllPast : (p : Pairing) (k : Call) (h : List Call) → AllPast p h → AllPast p (k ∷ h)
later-AllPast p k h past id s e = later (past id s e)

-- A session that is removed, and one that is put in place.
removed-AllPast : (p : Pairing) (j : ℕ) (h : List Call) → AllPast p h → AllPast (settle p j none) h
unfolding settle
removed-AllPast p j h past id s e = past id s (ground (arith, find_session-remove id j p.sessions))

put-AllPast :
    (p : Pairing) (j : ℕ) (t : PairSession) (h : List Call)
    → AllPast p h
    → Past t.unique_id t.last_phase h
    → AllPast (settle p j (some t)) h
unfolding settle
put-AllPast p j t h past own id s e = elim (Bool-cases (t.unique_id == id)) [
  | inl same ↦
      let found : t ≡ s = ground (arith, find_session-put id t p.sessions) in
      let named = (==_iff t.unique_id id).0 same in
      subst (λ u. Past id (u.last_phase) h) found (subst (λ i. Past i t.last_phase h) named own)
  | inr ne ↦ past id s (ground (arith, find_session-put id t p.sessions))
]

settle-AllPast :
    (p : Pairing) (j : ℕ) (after : Option PairSession) (h : List Call)
    → AllPast p h
    → ((t : PairSession) → after ≡ some t → Past t.unique_id t.last_phase h)
    → AllPast (settle p j after) h
settle-AllPast p j none h past own = removed-AllPast p j h past
settle-AllPast p j (some t) h past own = put-AllPast p j t h past (own t refl)

-- A session that a handler keeps was in the phase before, and is of the same client.
record Advanced (s t : PairSession) (before after : PairPhase) : Type 0 where
  from : s.last_phase ≡ before
  to : t.last_phase ≡ after
  owner : t.unique_id ≡ s.unique_id

getservercert-Advanced :
    (c : Crypto) (s t : PairSession) (digits : List ℕ)
    → (getservercert c s digits).1 ≡ some t
    → Advanced s t phase_none phase_getservercert
unfolding getservercert
getservercert-Advanced c s t digits e = record {
  from = same_phase-eq s.last_phase phase_none (ground arith);
  to = ground arith;
  owner = ground arith;
}

clientchallenge-Advanced :
    (c : Crypto) (s t : PairSession) (x a b : List ℕ)
    → (clientchallenge c s x a b).1 ≡ some t
    → Advanced s t phase_getservercert phase_clientchallenge
unfolding clientchallenge
clientchallenge-Advanced c s t x a b e = record {
  from = same_phase-eq s.last_phase phase_getservercert (ground arith);
  to = ground arith;
  owner = ground arith;
}

serverchallengeresp-Advanced :
    (c : Crypto) (s t : PairSession) (x : List ℕ)
    → (serverchallengeresp c s x).1 ≡ some t
    → Advanced s t phase_clientchallenge phase_serverchallengeresp
unfolding serverchallengeresp
serverchallengeresp-Advanced c s t x e = record {
  from = same_phase-eq s.last_phase phase_clientchallenge (ground arith);
  to = ground arith;
  owner = ground arith;
}

advanced-Past :
    (id : ℕ) (s t : PairSession) (before after : PairPhase) (k : Call) (h : List Call)
    → Advanced s t before after
    → s.unique_id ≡ id
    → Past id s.last_phase h
    → (Past id before h → Past id after (k ∷ h))
    → Past t.unique_id t.last_phase (k ∷ h)
advanced-Past id s t before after k h adv own past step =
    let done = step (subst (λ phase. Past id phase h) adv.from past) in
    subst (λ i. Past i t.last_phase (k ∷ h)) (sym (adv.owner ∙ own))
      (subst (λ phase. Past id phase (k ∷ h)) (sym adv.to) done)
