-- ===== src/Web/Tokens.antt =====
-- confighttp.cpp: what is found in the store of CSRF tokens after something was erased.
use solari.Base.{
  ℕ, ◌≤◌, ◌≡◌, refl, sym, ap, ◌∙◌, subst, [], ◌∷◌, Option, none, some, true, false, inl, inr, arith,
  Bool-cases, ltb, if◌then◌else◌,
}
use solari.Base.Text.{Text, same_text_sym, same_text, same_text-eq}
use solari.Web.{CsrfToken, Tokens, find_token, erase_token, erase_expired}

-- What is found, unless it has expired.
abbrev pub unexpired : ℕ → Option CsrfToken → Option CsrfToken
unexpired now none = none
unexpired now (some t) = if ltb t.expiration now then none else some t

differ : (n m k : Text) → same_text n m ≡ true → same_text m k ≡ false → same_text n k ≡ false
differ n m k e h = subst (λ t. same_text t k ≡ false) (sym (same_text-eq n m e)) h

pub find_token-erase_token_other :
    (tokens : Tokens) (name client : Text)
    → same_text name client ≡ false
    → find_token (erase_token tokens name) client ≡ find_token tokens client
unfolding find_token erase_token
find_token-erase_token_other [] name client h = refl
find_token-erase_token_other ((n, t) ∷ tokens) name client h =
    let rest = find_token-erase_token_other tokens name client h in
    elim (Bool-cases (same_text n name)) [
      | inl e ↦ let other = differ n name client e h in rw (erase_token, find_token, e, other) rest
      | inr e ↦ elim (Bool-cases (same_text n client)) [
        | inl this ↦ rw (erase_token, e, find_token, this) refl
        | inr other ↦ rw (erase_token, e, find_token, other) rest
      ]
    ]

pub find_token-erase_token :
    (tokens : Tokens) (name : Text) → find_token (erase_token tokens name) name ≡ none
unfolding find_token erase_token
find_token-erase_token [] name = refl
find_token-erase_token ((n, t) ∷ tokens) name =
    let rest = find_token-erase_token tokens name in
    elim (Bool-cases (same_text n name)) [
      | inl e ↦ rw (erase_token, e) rest
      | inr e ↦ rw (erase_token, e, find_token, e) rest
    ]

-- No client stands twice.
abbrev pub Unique : Tokens → Type 0
Unique [] = Unit
Unique ((name, t) ∷ tokens) = (find_token tokens name ≡ none) × Unique tokens

find_token-erase_expired_none :
    (now : ℕ) (tokens : Tokens) (client : Text)
    → find_token tokens client ≡ none
    → find_token (erase_expired now tokens) client ≡ none
unfolding find_token erase_expired
find_token-erase_expired_none now [] client h = refl
find_token-erase_expired_none now ((n, t) ∷ tokens) client h =
    elim (Bool-cases (same_text n client)) [
      | inl this ↦
          let opened : find_token ((n, t) ∷ tokens) client ≡ some t = rw (find_token, this) refl in
          absurd (cc)
      | inr other ↦
          let opened : find_token ((n, t) ∷ tokens) client ≡ find_token tokens client =
            rw (find_token, other) refl in
          let rest = find_token-erase_expired_none now tokens client (sym opened ∙ h) in
          elim (Bool-cases (ltb t.expiration now)) [
            | inl e ↦ rw (erase_expired, e) rest
            | inr e ↦ rw (erase_expired, e, find_token, other) rest
          ]
    ]

pub find_token-erase_expired :
    (now : ℕ) (tokens : Tokens) (client : Text)
    → Unique tokens
    → find_token (erase_expired now tokens) client ≡ unexpired now (find_token tokens client)
unfolding find_token erase_expired
find_token-erase_expired now [] client u = refl
find_token-erase_expired now ((n, t) ∷ tokens) client (alone, u) =
    elim (Bool-cases (same_text n client)) [
      | inl this ↦
          let gone : find_token tokens client ≡ none =
            subst (λ k. find_token tokens k ≡ none) (same_text-eq n client this) alone in
          elim (Bool-cases (ltb t.expiration now)) [
            | inl e ↦
                rw (erase_expired, e, find_token, this, e)
                  (find_token-erase_expired_none now tokens client gone)
            | inr e ↦ rw (erase_expired, e, find_token, this, e) refl
          ]
      | inr other ↦
          let rest = find_token-erase_expired now tokens client u in
          elim (Bool-cases (ltb t.expiration now)) [
            | inl e ↦ rw (erase_expired, e, find_token, other) rest
            | inr e ↦ rw (erase_expired, e, find_token, other) rest
          ]
    ]

pub erase_expired-Unique :
    (now : ℕ) (tokens : Tokens) → Unique tokens → Unique (erase_expired now tokens)
unfolding erase_expired
erase_expired-Unique now [] u = tt
erase_expired-Unique now ((n, t) ∷ tokens) (alone, u) =
    let rest = erase_expired-Unique now tokens u in
    elim (Bool-cases (ltb t.expiration now)) [
      | inl e ↦ rw (erase_expired, e) rest
      | inr e ↦ rw (erase_expired, e) (find_token-erase_expired_none now tokens n alone, rest)
    ]

pub erase_token-Unique :
    (tokens : Tokens) (name : Text) → Unique tokens → Unique (erase_token tokens name)
unfolding erase_token
erase_token-Unique [] name u = tt
erase_token-Unique ((n, t) ∷ tokens) name (alone, u) =
    let rest = erase_token-Unique tokens name u in
    elim (Bool-cases (same_text n name)) [
      | inl e ↦ rw (erase_token, e) rest
      | inr e ↦
          rw (erase_token, e)
            (find_token-erase_token_other tokens name n (same_text_sym n name e) ∙ alone, rest)
    ]

pub unexpired-unexpired :
    (now later : ℕ) (o : Option CsrfToken)
    → now ≤ later
    → unexpired later (unexpired now o) ≡ unexpired later o
unexpired-unexpired now later none h = refl
unexpired-unexpired now later (some t) h = elim (Bool-cases (ltb t.expiration now)) [
  | inl e ↦ let gone : ltb t.expiration later ≡ true = ground arith in rw (e, gone) refl
  | inr e ↦ rw e refl
]

pub unexpired-erase_token :
    (now : ℕ) (tokens : Tokens) (name : Text) (t : CsrfToken)
    → find_token tokens name ≡ some t
    → ltb t.expiration now ≡ true
    → (later : ℕ) (client : Text) → now ≤ later
    → unexpired later (find_token (erase_token tokens name) client)
      ≡ unexpired later (find_token tokens client)
unexpired-erase_token now tokens name t found e later client h =
    elim (Bool-cases (same_text name client)) [
      | inl this ↦
          let gone : ltb t.expiration later ≡ true = ground arith in
          subst
            (λ k.
              unexpired later (find_token (erase_token tokens name) k)
              ≡ unexpired later (find_token tokens k))
            (same_text-eq name client this)
            (ap (unexpired later) (find_token-erase_token tokens name) ∙ rw (found, gone) refl)
      | inr other ↦ ap (unexpired later) (find_token-erase_token_other tokens name client other)
    ]
