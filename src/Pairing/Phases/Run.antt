-- ===== src/Pairing/Phases/Run.antt =====
-- nvhttp.cpp: every session has gone through the phases of pairing in their order.
use solari.Base.{
  ℕ, ◌≡◌, refl, sym, subst, List, [], ◌∷◌, Option, none, some, Bool, true, false, not, ◌||◌, length,
  arith, ◌==◌, if◌then◌else◌, Option-cases, Bool-cases, inl, inr,
}
use solari.Pairing.{
  Crypto, PairSession, phase_none, phase_getservercert, Pairing, Reply, Query, getservercert,
  find_session, settle, authorize, start_session, pair_phase, pair_later, pair, pin, start,
  pairchallenge, challenge, challengeresp, secret, other, all_digits,
}
use solari.Pairing.Once.{find_session-unique_id}
use solari.Pairing.Phases.{
  Call, request, enters, state, Past, fresh, entered, typed, challenged, responded, later, AllPast,
  later-AllPast, removed-AllPast, put-AllPast, settle-AllPast, getservercert-Advanced,
  clientchallenge-Advanced, serverchallengeresp-Advanced, advanced-Past,
}

start_session-Past :
    (p : Pairing) (id : ℕ) (cert salt : List ℕ) (h : List Call)
    → AllPast p h
    → ((start_session p id cert salt).unique_id ≡ id)
      × Past id (start_session p id cert salt).last_phase h
unfolding start_session
start_session-Past p id cert salt h past = elim (Option-cases (find_session id p.sessions)) [
  | inl e ↦ rw (e, start_session) (refl, fresh)
  | inr (s, e) ↦ rw (e, start_session) (find_session-unique_id id p.sessions s e, past id s e)
]

granted-AllPast :
    (p : Pairing) (s : PairSession) (genuine : Bool) (h : List Call)
    → AllPast p h
    → AllPast (if genuine then authorize p s else p) h
unfolding authorize
granted-AllPast p s true h past = past
granted-AllPast p s false h past = past

pair_phase-AllPast :
    (c : Crypto) (p : Pairing) (s : PairSession) (stdin : Option (List ℕ)) (id : ℕ) (q : Query)
    (h : List Call)
    → find_session id p.sessions ≡ some s
    → AllPast p h
    → AllPast (pair_phase c p s q).1 (request stdin id q ∷ h)
unfolding pair_phase
pair_phase-AllPast c p s stdin id (challenge text a b) h e past =
    let own = find_session-unique_id id p.sessions s e in
    settle-AllPast p s.unique_id _ _ (later-AllPast p _ h past) λ t kept.
      advanced-Past id s t _ _ _ h (clientchallenge-Advanced c s t _ a b kept) own (past id s e)
        challenged
pair_phase-AllPast c p s stdin id (challengeresp text) h e past =
    let own = find_session-unique_id id p.sessions s e in
    settle-AllPast p s.unique_id _ _ (later-AllPast p _ h past) λ t kept.
      advanced-Past id s t _ _ _ h (serverchallengeresp-Advanced c s t _ kept) own (past id s e)
        responded
pair_phase-AllPast c p s stdin id (secret text) h e past =
    removed-AllPast _ s.unique_id _ (granted-AllPast p s _ _ (later-AllPast p _ h past))
pair_phase-AllPast c p s stdin id (start a b) h e past = later-AllPast p _ h past
pair_phase-AllPast c p s stdin id pairchallenge h e past = later-AllPast p _ h past
pair_phase-AllPast c p s stdin id other h e past = later-AllPast p _ h past

pair_later-AllPast :
    (c : Crypto) (p : Pairing) (stdin : Option (List ℕ)) (id : ℕ) (q : Query) (h : List Call)
    → AllPast p h
    → AllPast (pair_later c p id q).1 (request stdin id q ∷ h)
unfolding pair_later
pair_later-AllPast c p stdin id q h past = elim (Option-cases (find_session id p.sessions)) [
  | inl e ↦
      let same : (pair_later c p id q).1 ≡ p = ground arith in
      subst (λ r. AllPast r (request stdin id q ∷ h)) (sym same) (later-AllPast p _ h past)
  | inr (s, e) ↦
      let same : pair_later c p id q ≡ pair_phase c p s q = ground arith in
      subst (λ (r : Reply × Pairing). AllPast r.1 (request stdin id q ∷ h)) (sym same)
        (pair_phase-AllPast c p s stdin id q h e past)
]

pair-AllPast :
    (c : Crypto) (p : Pairing) (stdin : Option (List ℕ)) (id : ℕ) (q : Query) (h : List Call)
    → AllPast p h
    → AllPast (pair c stdin p (some id) q).1 (request stdin id q ∷ h)
unfolding pair
pair-AllPast c p none id (start cert salt) h past =
    let (own, was) = start_session-Past p id cert salt h past in
    let t : PairSession = record (start_session p id cert salt) { response = true } in
    put-AllPast p id t _ (later-AllPast p _ h past) (
      subst (λ i. Past i t.last_phase (request none id (start cert salt) ∷ h)) (sym own)
        (later was))
pair-AllPast c p (some digits) id (start cert salt) h past =
    let s = start_session p id cert salt in
    let (own, was) = start_session-Past p id cert salt h past in
    settle-AllPast p id _ _ (later-AllPast p _ h past) λ t kept.
      advanced-Past id s t _ _ _ h (getservercert-Advanced c s t digits kept) own was
        (λ before. typed)
pair-AllPast c p stdin id pairchallenge h past = later-AllPast p _ h past
pair-AllPast c p stdin id (challenge t a b) h past =
    pair_later-AllPast c p stdin id (challenge t a b) h past
pair-AllPast c p stdin id (challengeresp t) h past =
    pair_later-AllPast c p stdin id (challengeresp t) h past
pair-AllPast c p stdin id (secret t) h past = pair_later-AllPast c p stdin id (secret t) h past
pair-AllPast c p stdin id other h past = pair_later-AllPast c p stdin id other h past

pin-AllPast :
    (c : Crypto) (p : Pairing) (first : ℕ) (digits name : List ℕ) (h : List Call)
    → AllPast p h
    → AllPast (pin c p first digits name).1 (enters first digits name ∷ h)
unfolding pin
pin-AllPast c p first digits name h past = elim (Option-cases (find_session first p.sessions)) [
  | inl e ↦
      let same : (pin c p first digits name).1 ≡ p = ground arith in
      subst (λ r. AllPast r (k ∷ h)) (sym same) (later-AllPast p k h past)
  | inr (s, e) ↦ elim (Bool-cases (not (length digits == 4) || not (all_digits digits))) [
    | inl bad ↦
        let same : (pin c p first digits name).1 ≡ p = ground arith in
        subst (λ r. AllPast r (k ∷ h)) (sym same) (later-AllPast p k h past)
    | inr good ↦ elim (Option-cases (getservercert c s digits).1) [
      | inl gone ↦
          let same : (pin c p first digits name).1 ≡ settle p first none = ground arith in
          subst (λ r. AllPast r (k ∷ h)) (sym same)
            (removed-AllPast p first (k ∷ h) (later-AllPast p k h past))
      | inr (t, kept) ↦
          let u : PairSession = record t { name = name; response = false } in
          let same : (pin c p first digits name).1 ≡ settle p first (some u) = ground arith in
          let own = find_session-unique_id first p.sessions s e in
          subst (λ r. AllPast r (k ∷ h)) (sym same)
            (put-AllPast p first u (k ∷ h) (later-AllPast p k h past) (
              advanced-Past first s t phase_none phase_getservercert k h
                (getservercert-Advanced c s t digits kept) own (past first s e)
                (λ before. entered)))
    ]
  ]
]
  where
    k : Call
    k = enters first digits name

-- From the empty state, after any requests and entered PINs: a session that is in a phase has come to
-- it through the phases before, by calls in their order, and first of all by an entered PIN.
pub state-Past :
    (c : Crypto) (h : List Call) (id : ℕ) (s : PairSession)
    → find_session id (state c h).sessions ≡ some s
    → Past id s.last_phase h
unfolding state find_session
state-Past c [] id s e = cc
state-Past c (request stdin i q ∷ h) id s e =
    pair-AllPast c (state c h) stdin i q h (state-Past c h) id s e
state-Past c (enters first digits name ∷ h) id s e =
    pin-AllPast c (state c h) first digits name h (state-Past c h) id s e
