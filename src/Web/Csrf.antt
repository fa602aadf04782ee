-- ===== src/Web/Csrf.antt =====
-- confighttp.cpp: the store of CSRF tokens, from which what has expired is erased, answers as one that keeps all.
use solari.Base.{
  ℕ, ◌+◌, ◌≤◌, ◌≡◌, ◌↔◌, refl, sym, ap, ◌∙◌, subst, List, [], ◌∷◌, Option, none, some, true, false,
  ◌⊎◌, inl, inr, arith, Bool-cases, Option-cases, ltb, if◌then◌else◌,
}
use mathlib.Core.Option.{some-injective}
use solari.Base.Text.{Text, codes, same_text, same_text-eq, same_text_refl}
use solari.Web.{
  CsrfToken, Tokens, csrf_token_lifetime, find_token, erase_token, erase_expired,
  generate_csrf_token, validate_stored_csrf_token,
}
use solari.Web.Tokens.{
  unexpired, Unique, find_token-erase_token_other, find_token-erase_token, find_token-erase_expired,
  erase_expired-Unique, erase_token-Unique, unexpired-unexpired, unexpired-erase_token,
}
use solari.Web.Access.{accepted, bad_request}

-- A call on the store, at its time.
pub data Call : Type 0 where
  generate : Text → Text → Call
  validate : Text → Text → Call

abbrev pub call : ℕ → Call → Tokens → Tokens
call now (generate client token) tokens = generate_csrf_token now token client tokens
call now (validate client provided) tokens =
    (validate_stored_csrf_token now client provided tokens).1

-- The store after calls at their times, the last one first.
abbrev pub store : List (ℕ × Call) → Tokens
store [] = []
store ((now, c) ∷ earlier) = call now c (store earlier)

-- The times do not go back.
abbrev pub InOrder : ℕ → List (ℕ × Call) → Type 0
InOrder now [] = Unit
InOrder now ((time, c) ∷ earlier) = (time ≤ now) × InOrder time earlier

-- The token that was last generated for a client, and when.
abbrev pub latest : List (ℕ × Call) → Text → Option (ℕ × Text)
latest [] client = none
latest ((now, validate name provided) ∷ earlier) client = latest earlier client
latest ((now, generate name token) ∷ earlier) client =
    if same_text name client then some (now, token) else latest earlier client

-- What the store should hold of a client at a time: the latest token, unless it has expired.
abbrev pub live : ℕ → Option (ℕ × Text) → Option CsrfToken
live now none = none
live now (some (time, token)) =
    if ltb (time + csrf_token_lifetime) now
    then none
    else some (record { token = token; expiration = time + csrf_token_lifetime })

-- What holds at any time from `now` on of a store.
record Refines (now : ℕ) (tokens : Tokens) (calls : List (ℕ × Call)) : Type 0 where
  unique : Unique tokens
  same :
      (later : ℕ) (client : Text)
      → now ≤ later
      → unexpired later (find_token tokens client) ≡ live later (latest calls client)

-- Validating changes the store only where it erases a token that has expired.
validate-tokens :
    (now : ℕ) (client provided : Text) (tokens : Tokens)
    → ((validate_stored_csrf_token now client provided tokens).1 ≡ tokens)
      ⊎ ((t : CsrfToken) × (find_token tokens client ≡ some t)
          × (ltb t.expiration now ≡ true)
          × ((validate_stored_csrf_token now client provided tokens).1 ≡ erase_token tokens client))
unfolding validate_stored_csrf_token
validate-tokens now client provided tokens = elim (Option-cases (find_token tokens client)) [
  | inl missing ↦ inl (rw (validate_stored_csrf_token, missing) refl)
  | inr (t, found) ↦ elim (Bool-cases (ltb t.expiration now)) [
    | inl e ↦ inr (t, found, e, rw (validate_stored_csrf_token, found, e) refl)
    | inr e ↦ elim (Bool-cases (same_text t.token provided)) [
      | inl right ↦ inl (rw (validate_stored_csrf_token, found, e, right) refl)
      | inr wrong ↦ inl (rw (validate_stored_csrf_token, found, e, wrong) refl)
    ]
  ]
]

call-Refines :
    (before now : ℕ) (c : Call) (tokens : Tokens) (calls : List (ℕ × Call))
    → before ≤ now
    → Refines before tokens calls
    → Refines now (call now c tokens) ((now, c) ∷ calls)
unfolding generate_csrf_token find_token
call-Refines before now (generate name token) tokens calls h r =
    let kept = erase_expired now tokens in
    record {
      unique = (
        find_token-erase_token kept name,
        erase_token-Unique kept name (erase_expired-Unique now tokens r.unique),
      );
      same = λ later client after. elim (Bool-cases (same_text name client)) [
        | inl this ↦ rw (generate_csrf_token, find_token, this) refl
        | inr other ↦
            rw (generate_csrf_token, find_token, other)
              (ap (unexpired later) (
                  find_token-erase_token_other kept name client other
                  ∙ find_token-erase_expired now tokens client r.unique)
                ∙ unexpired-unexpired now later (find_token tokens client) after
                ∙ r.same later client (omega arith))
      ];
    }
call-Refines before now (validate name provided) tokens calls h r =
    elim (validate-tokens now name provided tokens) [
      | inl kept ↦
          subst (λ s. Refines now s ((now, validate name provided) ∷ calls)) (sym kept)
            record {
              unique = r.unique;
              same = λ later client after. r.same later client (omega arith);
            }
      | inr (t, found, e, erased) ↦
          subst (λ s. Refines now s ((now, validate name provided) ∷ calls)) (sym erased)
            record {
              unique = erase_token-Unique tokens name r.unique;
              same = λ later client after.
                  unexpired-erase_token now tokens name t found e later client after
                  ∙ r.same later client (omega arith);
            }
    ]

store-Refines :
    (now : ℕ) (calls : List (ℕ × Call)) → InOrder now calls → Refines now (store calls) calls
unfolding find_token
store-Refines now [] h = record { unique = tt; same = λ later client after. refl }
store-Refines now ((time, c) ∷ calls) (before, h) =
    let r =
      call-Refines time time c (store calls) calls (omega arith) (store-Refines time calls h) in
    record { unique = r.unique; same = λ later client after. r.same later client (omega arith) }

-- A token that is accepted, and only that one: the one that is stored, has not expired and is the one given.
validate-accepted :
    (now : ℕ) (client provided : Text) (tokens : Tokens)
    → ((validate_stored_csrf_token now client provided tokens).0 ≡ accepted) ↔ (
        (t : CsrfToken) × (unexpired now (find_token tokens client) ≡ some t)
        × (t.token ≡ provided))
unfolding validate_stored_csrf_token
validate-accepted now client provided tokens = (forth, back)
  where
    forth :
        (validate_stored_csrf_token now client provided tokens).0 ≡ accepted
        → (t : CsrfToken) × (unexpired now (find_token tokens client) ≡ some t)
          × (t.token ≡ provided)
    forth h = elim (Option-cases (find_token tokens client)) [
      | inl missing ↦
          let opened : (validate_stored_csrf_token now client provided tokens).0
              ≡ bad_request (codes "Invalid CSRF token") =
            rw (validate_stored_csrf_token, missing) refl in
          absurd (cc)
      | inr (t, found) ↦ elim (Bool-cases (ltb t.expiration now)) [
        | inl e ↦
            let opened : (validate_stored_csrf_token now client provided tokens).0
                ≡ bad_request (codes "CSRF token expired") =
              rw (validate_stored_csrf_token, found, e) refl in
            absurd (cc)
        | inr e ↦ elim (Bool-cases (same_text t.token provided)) [
          | inl right ↦ (t, rw (found, e) refl, same_text-eq t.token provided right)
          | inr wrong ↦
              let opened : (validate_stored_csrf_token now client provided tokens).0
                  ≡ bad_request (codes "Invalid CSRF token") =
                rw (validate_stored_csrf_token, found, e, wrong) refl in
              absurd (cc)
        ]
      ]
    ]

    back :
        (t : CsrfToken) × (unexpired now (find_token tokens client) ≡ some t) × (t.token ≡ provided)
        → (validate_stored_csrf_token now client provided tokens).0 ≡ accepted
    back (t, stored, right) = elim (Option-cases (find_token tokens client)) [
      | inl missing ↦
          let opened : unexpired now (find_token tokens client) ≡ none = rw missing refl in
          absurd (cc)
      | inr (t', found) ↦ elim (Bool-cases (ltb t'.expiration now)) [
        | inl e ↦
            let opened : unexpired now (find_token tokens client) ≡ none = rw (found, e) refl in
            absurd (cc)
        | inr e ↦
            let opened : unexpired now (find_token tokens client) ≡ some t' = rw (found, e) refl in
            let same = some-injective t' t (sym opened ∙ stored) in
            let given : same_text t'.token provided ≡ true =
              subst (λ k. same_text k provided ≡ true) (sym (ap (λ u. u.token) same ∙ right))
                (same_text_refl provided) in
            rw (validate_stored_csrf_token, found, e, given) refl
      ]
    ]

live-some :
    (now : ℕ) (o : Option (ℕ × Text)) (provided : Text)
    → ((t : CsrfToken) × (live now o ≡ some t) × (t.token ≡ provided))
      ↔ ((time : ℕ) × (o ≡ some (time, provided)) × (now ≤ time + csrf_token_lifetime))
live-some now o provided = (forth o, back)
  where
    forth :
        (o : Option (ℕ × Text))
        → (t : CsrfToken) × (live now o ≡ some t) × (t.token ≡ provided)
        → (time : ℕ) × (o ≡ some (time, provided)) × (now ≤ time + csrf_token_lifetime)
    forth none (t, e, right) = absurd (cc)
    forth (some (time, token)) (t, e, right) =
        elim (Bool-cases (ltb (time + csrf_token_lifetime) now)) [
          | inl gone ↦
              let opened : live now (some (time, token)) ≡ none = rw gone refl in absurd (cc)
          | inr kept ↦
              let made : CsrfToken = record {
                token = token;
                expiration = time + csrf_token_lifetime;
              } in
              let opened : live now (some (time, token)) ≡ some made = rw kept refl in
              let same = some-injective made t (sym opened ∙ e) in
              let given : token ≡ provided = ap (λ u. u.token) same ∙ right in
              (time, ap (λ k. some (time, k)) given, ground arith)
        ]

    back :
        (time : ℕ) × (o ≡ some (time, provided)) × (now ≤ time + csrf_token_lifetime)
        → (t : CsrfToken) × (live now o ≡ some t) × (t.token ≡ provided)
    back (time, e, h) =
        let kept : ltb (time + csrf_token_lifetime) now ≡ false = ground arith in
        (
          record { token = provided; expiration = time + csrf_token_lifetime },
          rw (e, kept) refl,
          refl,
        )

-- A token is accepted exactly if it is the one last generated for its client, an hour ago at most, whatever has
-- been erased: after any calls, at times that do not go back, a token is accepted if and only if it is the one of
-- the client's latest call of generate, and no more than the lifetime has passed since then.
pub validate-latest :
    (now : ℕ) (calls : List (ℕ × Call)) (client provided : Text)
    → InOrder now calls
    → ((validate_stored_csrf_token now client provided (store calls)).0 ≡ accepted) ↔ (
        (time : ℕ) × (latest calls client ≡ some (time, provided))
        × (now ≤ time + csrf_token_lifetime))
validate-latest now calls client provided h =
    let same = (store-Refines now calls h).same now client (omega arith) in
    let a = validate-accepted now client provided (store calls) in
    let l = live-some now (latest calls client) provided in
    (
      (λ e. let (t, stored, right) = a.0 e in l.0 (t, sym same ∙ stored, right)),
      (λ e. let (t, alive, right) = l.1 e in a.1 (t, same ∙ alive, right)),
    )
