-- ===== src/Web/Origin.antt =====
-- confighttp.cpp: which requests pass `validate_csrf_token`.
use solari.Base.{
  ℕ, ◌+◌, ◌≤◌, ◌≡◌, ◌↔◌, refl, sym, ap, ◌∙◌, subst, List, [], ◌∷◌, ◌++◌, Option, none, some, true,
  false, not, ◌&&◌, ◌⊎◌, inl, inr, arith, Bool-cases, Option-cases, is_some, length, drop,
  drop-append_length,
}
use solari.Base.Text.{Text, codes, has_prefix, both-true, has_prefix-append, has_prefix-drop}
use solari.Web.{
  Settings, Request, csrf_token_lifetime, ends_origin, is_allowed_origin, names_allowed,
  provided_token, validate_stored_csrf_token, validate_csrf_token,
}
use solari.Web.Csrf.{Call, store, InOrder, latest, validate-latest}
use solari.Web.Access.{accepted, bad_request}

-- Nothing, or a colon or a slash and more.
abbrev EndsOrigin : Text → Type 0
EndsOrigin [] = Unit
EndsOrigin (c ∷ rest) = (c ≡ 58) ⊎ (c ≡ 47)

-- The address is one of the origins, or one of them followed by a port or by a path.
abbrev pub FromOrigin : List Text → Text → Type 0
FromOrigin [] url = ⊥
FromOrigin (allowed ∷ more) url =
    ((rest : Text) × (url ≡ allowed ++ rest) × EndsOrigin rest) ⊎ FromOrigin more url

ends_origin-EndsOrigin : (rest : Text) → (ends_origin rest ≡ true) ↔ EndsOrigin rest
unfolding ends_origin
ends_origin-EndsOrigin [] = ((λ h. tt), (λ h. refl))
ends_origin-EndsOrigin (c ∷ rest) = ground arith

here_allowed :
    (allowed url : Text)
    → (rest : Text) × (url ≡ allowed ++ rest) × EndsOrigin rest
    → (has_prefix allowed url && ends_origin (drop (length allowed) url)) ≡ true
here_allowed allowed url (rest, same, ends) =
    let begins : has_prefix allowed url ≡ true =
      subst (λ u. has_prefix allowed u ≡ true) (sym same) (has_prefix-append allowed rest) in
    let tail : drop (length allowed) url ≡ rest =
      ap (drop (length allowed)) same ∙ drop-append_length allowed rest (length allowed) refl in
    let closes : ends_origin (drop (length allowed) url) ≡ true =
      subst (λ t. ends_origin t ≡ true) (sym tail) ((ends_origin-EndsOrigin rest).1 ends) in
    rw (begins, closes) refl

is_allowed_origin-FromOrigin :
    (origins : List Text) (url : Text)
    → (is_allowed_origin origins url ≡ true) ↔ FromOrigin origins url
unfolding is_allowed_origin
is_allowed_origin-FromOrigin [] url = ((λ h. absurd (cc)), (λ h. absurd h))
is_allowed_origin-FromOrigin (allowed ∷ more) url =
    let tail = drop (length allowed) url in
    let others = is_allowed_origin-FromOrigin more url in
    elim (Bool-cases (has_prefix allowed url && ends_origin tail)) [
      | inl e ↦
          let (begins, ends) = both-true (has_prefix allowed url) (ends_origin tail) e in
          (
            (λ h. inl (
              tail,
              sym (has_prefix-drop allowed url begins),
              (ends_origin-EndsOrigin tail).0 ends,
            )),
            (λ f. rw (is_allowed_origin, e) refl),
          )
      | inr e ↦
          let opened : is_allowed_origin (allowed ∷ more) url ≡ is_allowed_origin more url =
            rw (is_allowed_origin, e) refl in
          (
            (λ h. inr (others.0 (sym opened ∙ h))),
            (λ f. elim f [
              | inl here ↦ let never = here_allowed allowed url here in absurd (cc)
              | inr there ↦ opened ∙ others.1 there
            ]),
          )
    ]

-- A header that is there, and names an allowed origin.
abbrev pub Named : List Text → Option Text → Type 0
Named origins none = ⊥
Named origins (some url) = FromOrigin origins url

names_allowed-Named :
    (origins : List Text) (header : Option Text)
    → (names_allowed origins header ≡ true) ↔ Named origins header
unfolding names_allowed
names_allowed-Named origins none = ((λ h. absurd (cc)), (λ h. absurd h))
names_allowed-Named origins (some url) = is_allowed_origin-FromOrigin origins url

-- Why a request may pass: it names an allowed origin, it names no origin at all, or it gives the token last
-- generated for its client, before that expires.
pub data Passes (c : Settings) (now : ℕ) (r : Request) (client : Text) (calls : List (ℕ × Call))
    : Type 0 where
  by_origin : Named c.csrf_allowed_origins r.origin → Passes c now r client calls
  by_referer : Named c.csrf_allowed_origins r.referer → Passes c now r client calls
  no_browser : r.origin ≡ none → r.referer ≡ none → Passes c now r client calls
  by_token :
      (token : Text) (time : ℕ)
      → provided_token r ≡ some token
      → latest calls client ≡ some (time, token)
      → now ≤ time + csrf_token_lifetime
      → Passes c now r client calls

absent : (o : Option Text) → (is_some o ≡ false) ↔ (o ≡ none)
absent none = ((λ h. refl), (λ h. refl))
absent (some t) = ((λ h. absurd (cc)), (λ h. absurd (cc)))

-- A request from a browser passes only by an allowed origin or by its token: after any calls, at times that do
-- not go back, `validate_csrf_token` accepts a request exactly if its Origin or its Referer is an allowed origin,
-- or one followed by a port or a path; or if it has neither of the two; or if it gives the token that was last
-- generated for its client, and no more than the lifetime has passed since then.
pub validate_csrf_token-Passes :
    (c : Settings) (now : ℕ) (r : Request) (client : Text) (calls : List (ℕ × Call))
    → InOrder now calls
    → ((validate_csrf_token c now r client (store calls)).0 ≡ accepted)
      ↔ Passes c now r client calls
unfolding validate_csrf_token
validate_csrf_token-Passes c now r client calls order = (forth, back)
  where
    forth :
        (validate_csrf_token c now r client (store calls)).0 ≡ accepted
        → Passes c now r client calls
    forth h = elim (Bool-cases (names_allowed c.csrf_allowed_origins r.origin)) [
      | inl named ↦ by_origin ((names_allowed-Named c.csrf_allowed_origins r.origin).0 named)
      | inr not_origin ↦ elim (Bool-cases (names_allowed c.csrf_allowed_origins r.referer)) [
        | inl named ↦ by_referer ((names_allowed-Named c.csrf_allowed_origins r.referer).0 named)
        | inr not_referer ↦ elim (Bool-cases (not (is_some r.origin) && not (is_some r.referer))) [
          | inl neither ↦
              let (x, y) = both-true (not (is_some r.origin)) (not (is_some r.referer)) neither in
              no_browser ((absent r.origin).0 (ground arith)) ((absent r.referer).0 (ground arith))
          | inr browser ↦ elim (Option-cases (provided_token r)) [
            | inl missing ↦
                let opened : (validate_csrf_token c now r client (store calls)).0
                    ≡ bad_request (codes "Missing CSRF token") =
                  rw (validate_csrf_token, not_origin, not_referer, browser, missing) refl in
                absurd (cc)
            | inr (token, given) ↦
                let opened : (validate_csrf_token c now r client (store calls)).0
                    ≡ (validate_stored_csrf_token now client token (store calls)).0 =
                  rw (validate_csrf_token, not_origin, not_referer, browser, given) refl in
                let (time, last, kept) =
                  (validate-latest now calls client token order).0 (sym opened ∙ h) in
                by_token token time given last kept
          ]
        ]
      ]
    ]

    back :
        Passes c now r client calls
        → (validate_csrf_token c now r client (store calls)).0 ≡ accepted
    back p = elim (Bool-cases (names_allowed c.csrf_allowed_origins r.origin)) [
      | inl named ↦ rw (validate_csrf_token, named) refl
      | inr not_origin ↦ elim (Bool-cases (names_allowed c.csrf_allowed_origins r.referer)) [
        | inl named ↦ rw (validate_csrf_token, not_origin, named) refl
        | inr not_referer ↦ elim (Bool-cases (not (is_some r.origin) && not (is_some r.referer))) [
          | inl neither ↦ rw (validate_csrf_token, not_origin, not_referer, neither) refl
          | inr browser ↦ elim p [
            | by_origin named ↦
                let is = (names_allowed-Named c.csrf_allowed_origins r.origin).1 named in
                absurd (cc)
            | by_referer named ↦
                let is = (names_allowed-Named c.csrf_allowed_origins r.referer).1 named in
                absurd (cc)
            | no_browser x y ↦
                let no_origin = (absent r.origin).1 x in
                let no_referer = (absent r.referer).1 y in absurd (ground arith)
            | by_token token time given last kept ↦
                rw (validate_csrf_token, not_origin, not_referer, browser, given)
                  ((validate-latest now calls client token order).1 (time, last, kept))
          ]
        ]
      ]
    ]
