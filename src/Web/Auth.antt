-- ===== src/Web/Auth.antt =====
-- confighttp.cpp: `authenticate` lets in those who give the name and the password, from an allowed address.
use solari.Base.{
  ℕ, suc, ◌+◌, ◌≤◌, ◌<◌, ◌≡◌, ◌↔◌, refl, sym, ap, ◌∙◌, subst, [], ◌∷◌, ◌++◌, none, some, true,
  false, inl, inr, arith, All, Bool-cases, Option-cases, ==_iff, ltb, ◌==◌, length, take, drop,
  length-append, length-drop, take-append_length, drop-append_length,
}
use mathlib.Core.Option.{some-injective}
use mathlib.Core.List.{append_assoc}
use solari.Base.Text.{Text, same_text, same_text-eq, same_text_refl}
use solari.Web.{
  Library, Settings, Request, rank, find_colon, credentials, check_login, check_header,
  authenticate,
}
use solari.Web.Access.{accepted, forbidden, redirected, unauthorized, thrown}

abbrev pub NoColon : Text → Type 0
NoColon t = All (λ c. (c == 58) ≡ false) t

find_colon-before :
    (name password : Text)
    → NoColon name
    → find_colon (name ++ (58 ∷ password)) ≡ some (length name)
unfolding find_colon
find_colon-before [] password h = refl
find_colon-before (c ∷ name) password (other, h) =
    let later = find_colon-before name password h in rw (find_colon, other, later) refl

-- The text before the first colon, and that after it.
record FoundColon (t : Text) (i : ℕ) : Type 0 where
  parts : take i t ++ (58 ∷ drop (i + 1) t) ≡ t
  clean : NoColon (take i t)
  within : i < length t

find_colon-FoundColon : (t : Text) (i : ℕ) → find_colon t ≡ some i → FoundColon t i
unfolding find_colon
find_colon-FoundColon [] i h = absurd (cc)
find_colon-FoundColon (c ∷ t) i h = elim (Bool-cases (c == 58)) [
  | inl e ↦
      let opened : find_colon (c ∷ t) ≡ some 0 = rw (find_colon, e) refl in
      let here = some-injective 0 i (sym opened ∙ h) in
      subst (FoundColon (c ∷ t)) here record {
        parts = ap (λ x. x ∷ t) (sym ((==_iff c 58).0 e));
        clean = tt;
        within = omega arith;
      }
  | inr e ↦ elim (Option-cases (find_colon t)) [
    | inl missing ↦
        let opened : find_colon (c ∷ t) ≡ none = rw (find_colon, e, missing) refl in absurd (cc)
    | inr (j, found) ↦
        let f = find_colon-FoundColon t j found in
        let opened : find_colon (c ∷ t) ≡ some (suc j) = rw (find_colon, e, found) refl in
        let there = some-injective (suc j) i (sym opened ∙ h) in
        let next : suc j + 1 ≡ suc (j + 1) = omega arith in
        subst (FoundColon (c ∷ t)) there record {
          parts = ap (λ k. c ∷ (take j t ++ (58 ∷ drop k (c ∷ t)))) next ∙ ap (λ r. c ∷ r) f.parts;
          clean = (e, f.clean);
          within = omega (arith, f.within);
        }
  ]
]

-- The name has no colon, and the password is not empty.
record Login (t name password : Text) : Type 0 where
  joined : name ++ (58 ∷ password) ≡ t
  clean : NoColon name
  some_password : 0 < length password

credentials-Login :
    (t name password : Text) → (credentials t ≡ some (name, password)) ↔ Login t name password
unfolding credentials
credentials-Login t name password = (forth, back)
  where
    forth : credentials t ≡ some (name, password) → Login t name password
    forth h = elim (Option-cases (find_colon t)) [
      | inl missing ↦
          let opened : credentials t ≡ none = rw (credentials, missing) refl in absurd (cc)
      | inr (i, found) ↦
          let f = find_colon-FoundColon t i found in
          elim (Bool-cases (ltb (i + 1) (length t))) [
            | inl e ↦
                let opened : credentials t ≡ some (take i t, drop (i + 1) t) =
                  rw (credentials, found, e) refl in
                let same =
                  some-injective (take i t, drop (i + 1) t) (name, password) (sym opened ∙ h) in
                subst (λ l. Login t l.0 l.1) same
                  record {
                    joined = f.parts;
                    clean = f.clean;
                    some_password = ground (arith, length-drop (i + 1) t);
                  }
            | inr e ↦
                let opened : credentials t ≡ none = rw (credentials, found, e) refl in absurd (cc)
          ]
    ]

    back : Login t name password → credentials t ≡ some (name, password)
    back l =
        let found : find_colon t ≡ some (length name) =
          subst (λ u. find_colon u ≡ some (length name)) l.joined
            (find_colon-before name password l.clean) in
        let size = ap length (sym l.joined) ∙ length-append name (58 ∷ password) in
        let more = l.some_password in
        let room : ltb (length name + 1) (length t) ≡ true = ground arith in
        let first : take (length name) t ≡ name =
          ap (take (length name)) (sym l.joined)
          ∙ take-append_length name (58 ∷ password) (length name) refl in
        let last : drop (length name + 1) t ≡ password =
          ap (drop (length name + 1)) (sym l.joined ∙ sym (append_assoc name (58 ∷ []) password))
          ∙ drop-append_length (name ++ (58 ∷ [])) password (length name + 1)
              (length-append name (58 ∷ [])) in
        rw (credentials, found, room)
          (ap (λ n. some (n, drop (length name + 1) t)) first ∙ ap (λ q. some (name, q)) last)

check_login-accepted :
    (lib : Library) (c : Settings) (name password : Text)
    → (check_login lib c (name, password) ≡ accepted)
      ↔ ((lib.iequals name c.username ≡ true) × (lib.hash (password ++ c.salt) ≡ c.password))
unfolding check_login
check_login-accepted lib c name password = (forth, back)
  where
    forth :
        check_login lib c (name, password) ≡ accepted
        → (lib.iequals name c.username ≡ true) × (lib.hash (password ++ c.salt) ≡ c.password)
    forth h = elim (Bool-cases (lib.iequals name c.username)) [
      | inl known ↦ elim (Bool-cases (same_text (lib.hash (password ++ c.salt)) c.password)) [
        | inl e ↦ (known, same_text-eq (lib.hash (password ++ c.salt)) c.password e)
        | inr e ↦
            let opened : check_login lib c (name, password) ≡ unauthorized =
              rw (check_login, known, e) refl in
            absurd (cc)
      ]
      | inr unknown ↦
          let opened : check_login lib c (name, password) ≡ unauthorized =
            rw (check_login, unknown) refl in
          absurd (cc)
    ]

    back :
        (lib.iequals name c.username ≡ true) × (lib.hash (password ++ c.salt) ≡ c.password)
        → check_login lib c (name, password) ≡ accepted
    back (known, right) =
        let same : same_text (lib.hash (password ++ c.salt)) c.password ≡ true =
          subst (λ t. same_text t c.password ≡ true) (sym right) (same_text_refl c.password) in
        rw (check_login, known, same) refl

-- A request with the right name and password, from an address that may use the interface.
pub record IsLogin (lib : Library) (c : Settings) (r : Request) : Type 0 where
  pub near : rank (lib.from_address r.address) ≤ rank c.origin_web_ui_allowed
  pub configured : 0 < length c.username
  pub raw : Text
  pub given : r.authorization ≡ some raw
  pub long : 6 ≤ length raw
  pub name : Text
  pub password : Text
  pub decoded : name ++ (58 ∷ password) ≡ lib.decode (drop 6 raw)
  pub clean : NoColon name
  pub some_password : 0 < length password
  pub known : lib.iequals name c.username ≡ true
  pub right : lib.hash (password ++ c.salt) ≡ c.password

check_header-accepted :
    (lib : Library) (c : Settings) (r : Request) (raw : Text)
    → rank (lib.from_address r.address) ≤ rank c.origin_web_ui_allowed
    → 0 < length c.username
    → r.authorization ≡ some raw
    → check_header lib c raw ≡ accepted
    → IsLogin lib c r
unfolding check_header
check_header-accepted lib c r raw near configured given h = elim (Bool-cases (ltb (length raw) 6)) [
  | inl e ↦ let opened : check_header lib c raw ≡ thrown = rw (check_header, e) refl in absurd (cc)
  | inr e ↦ elim (Option-cases (credentials (lib.decode (drop 6 raw)))) [
    | inl missing ↦
        let opened : check_header lib c raw ≡ unauthorized = rw (check_header, e, missing) refl in
        absurd (cc)
    | inr ((name, password), found) ↦
        let opened : check_header lib c raw ≡ check_login lib c (name, password) =
          rw (check_header, e, found) refl in
        let (known, right) = (check_login-accepted lib c name password).0 (sym opened ∙ h) in
        let l = (credentials-Login (lib.decode (drop 6 raw)) name password).0 found in
        record {
          near = near;
          configured = configured;
          raw = raw;
          given = given;
          long = ground arith;
          name = name;
          password = password;
          decoded = l.joined;
          clean = l.clean;
          some_password = l.some_password;
          known = known;
          right = right;
        }
  ]
]

-- The interface is open to those who log in, and to nobody else: a request is accepted exactly if it comes from an
-- address of a class that is allowed, a user name is configured, and its authorization, after six characters,
-- decodes to a name without colon, a colon, and a password that is not empty, where the name is the configured one
-- but for case, and the hash of the password with the salt is the stored one.
pub authenticate-IsLogin :
    (lib : Library) (c : Settings) (r : Request)
    → (authenticate lib c r ≡ accepted) ↔ IsLogin lib c r
unfolding authenticate check_header
authenticate-IsLogin lib c r = (forth, back)
  where
    forth : authenticate lib c r ≡ accepted → IsLogin lib c r
    forth h =
        elim (Bool-cases (ltb (rank c.origin_web_ui_allowed) (rank (lib.from_address r.address)))) [
          | inl far ↦
              let opened : authenticate lib c r ≡ forbidden = rw (authenticate, far) refl in
              absurd (cc)
          | inr near ↦ elim (Bool-cases (length c.username == 0)) [
            | inl e ↦
                let opened : authenticate lib c r ≡ redirected = rw (authenticate, near, e) refl in
                absurd (cc)
            | inr e ↦ elim (Option-cases r.authorization) [
              | inl missing ↦
                  let opened : authenticate lib c r ≡ unauthorized =
                    rw (authenticate, near, e, missing) refl in
                  absurd (cc)
              | inr (raw, given) ↦
                  let opened : authenticate lib c r ≡ check_header lib c raw =
                    rw (authenticate, near, e, given) refl in
                  check_header-accepted lib c r raw (ground arith) (ground arith) given
                    (sym opened ∙ h)
            ]
          ]
        ]

    back : IsLogin lib c r → authenticate lib c r ≡ accepted
    back l =
        let near : ltb (rank c.origin_web_ui_allowed) (rank (lib.from_address r.address)) ≡ false =
          let h = l.near in ground arith in
        let configured : (length c.username == 0) ≡ false = let h = l.configured in ground arith in
        let long : ltb (length l.raw) 6 ≡ false = let h = l.long in ground arith in
        let found =
          (credentials-Login (lib.decode (drop 6 l.raw)) l.name l.password).1
            record { joined = l.decoded; clean = l.clean; some_password = l.some_password } in
        let login = (check_login-accepted lib c l.name l.password).1 (l.known, l.right) in
        rw (authenticate, near, configured, l.given, long, found) login
