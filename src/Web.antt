-- ===== src/Web.antt =====
-- confighttp.cpp: who may use the configuration's web interface: `authenticate`, and the CSRF tokens.
pub mod Auth
pub mod Tokens
pub mod Csrf
pub mod Origin
mod Tests
use solari.Base.{
  ℕ, zero, suc, ◌+◌, ◌-◌, List, [], ◌∷◌, ◌++◌, Option, none, some, Bool, true, false, not, ◌&&◌,
  ◌||◌, ltb, leb, ◌==◌, if◌then◌else◌, length, take, drop, is_some,
}
use solari.Base.Text.{Text, codes, same_text, has_prefix}

-- `net_e`.
pub data Net : Type 0 where
  pc : Net
  lan : Net
  wan : Net

abbrev pub rank : Net → ℕ
rank pc = 0
rank lan = 1
rank wan = 2

-- What the libraries compute: the class of an address, Base64, the hash in hexadecimal, and the comparison
-- without case.
pub record Library : Type 0 where
  pub from_address : Text → Net
  pub decode : Text → Text
  pub hash : Text → Text
  pub iequals : Text → Text → Bool

pub record Settings : Type 0 where
  pub username : Text
  pub password : Text
  pub salt : Text
  pub csrf_allowed_origins : List Text
  pub origin_web_ui_allowed : Net

-- The parts of a request that are read.
pub record Request : Type 0 where
  pub address : Text
  pub authorization : Option Text
  pub origin : Option Text
  pub referer : Option Text
  pub csrf_header : Option Text
  pub csrf_query : Option Text

-- How a check ends: nothing is sent, or a reply is; `thrown` is the exception of `substr`, on which the guard
-- replies `unauthorized` as well.
pub data Access : Type 0 where
  accepted : Access
  forbidden : Access
  redirected : Access
  unauthorized : Access
  thrown : Access
  bad_request : Text → Access

-- `find(':')`.
unfoldable pub find_colon : Text → Option ℕ
find_colon [] = none
find_colon (c ∷ t) =
    let later : Option ℕ = elim (find_colon t) [ none ↦ none | some i ↦ some (suc i) ] in
    if c == 58 then some 0 else later

-- The name and the password, if both are there: a position of -1 is the greatest of `size_t` in the comparison, and
-- so is the size of no text less one.
unfoldable pub credentials : Text → Option (Text × Text)
credentials auth_data = elim (find_colon auth_data) [
  | none ↦ none
  | some index ↦
      if ltb (index + 1) (length auth_data)
      then some (take index auth_data, drop (index + 1) auth_data)
      else none
]

unfoldable pub check_login : Library → Settings → Text × Text → Access
check_login lib c (username, password) =
    let hash = lib.hash (password ++ c.salt) in
    if not (lib.iequals username c.username) || not (same_text hash c.password)
    then unauthorized
    else accepted

unfoldable pub check_header : Library → Settings → Text → Access
check_header lib c raw_auth =
    if ltb (length raw_auth) 6 then thrown else elim (credentials (lib.decode (drop 6 raw_auth))) [
      | none ↦ unauthorized
      | some login ↦ check_login lib c login
    ]

unfoldable pub authenticate : Library → Settings → Request → Access
authenticate lib c r =
    if ltb (rank c.origin_web_ui_allowed) (rank (lib.from_address r.address))
    then forbidden
    else if length c.username == 0
    then redirected
    else elim r.authorization [ none ↦ unauthorized | some raw ↦ check_header lib c raw ]

-- `csrf_token_t`; `csrf_tokens` maps clients to it.
pub record CsrfToken : Type 0 where
  pub token : Text
  pub expiration : ℕ

abbrev pub Tokens : Type 0
Tokens = List (Text × CsrfToken)

-- `CSRF_TOKEN_LIFETIME`, an hour, in nanoseconds.
abbrev pub csrf_token_lifetime : ℕ
csrf_token_lifetime = 3600000000000

unfoldable pub find_token : Tokens → Text → Option CsrfToken
find_token [] client = none
find_token ((name, t) ∷ tokens) client =
    if same_text name client then some t else find_token tokens client

unfoldable pub erase_token : Tokens → Text → Tokens
erase_token [] client = []
erase_token ((name, t) ∷ tokens) client =
    let rest = erase_token tokens client in if same_text name client then rest else (name, t) ∷ rest

unfoldable pub erase_expired : ℕ → Tokens → Tokens
erase_expired now [] = []
erase_expired now ((name, t) ∷ tokens) =
    let rest = erase_expired now tokens in if ltb t.expiration now then rest else (name, t) ∷ rest

-- `token` is the new random token.
unfoldable pub generate_csrf_token : ℕ → Text → Text → Tokens → Tokens
generate_csrf_token now token client_id tokens =
    (client_id, record { token = token; expiration = now + csrf_token_lifetime })
    ∷ erase_token (erase_expired now tokens) client_id

unfoldable pub validate_stored_csrf_token : ℕ → Text → Text → Tokens → Access × Tokens
validate_stored_csrf_token now client_id provided tokens = elim (find_token tokens client_id) [
  | none ↦ (bad_request (codes "Invalid CSRF token"), tokens)
  | some t ↦
      if ltb t.expiration now
      then (bad_request (codes "CSRF token expired"), erase_token tokens client_id)
      else if same_text t.token provided
      then (accepted, tokens)
      else (bad_request (codes "Invalid CSRF token"), tokens)
]

-- A text that ends, or goes on with a port or a path.
unfoldable pub ends_origin : Text → Bool
ends_origin [] = true
ends_origin (c ∷ t) = c == 58 || c == 47

unfoldable pub is_allowed_origin : List Text → Text → Bool
is_allowed_origin [] url = false
is_allowed_origin (allowed ∷ more) url =
    (has_prefix allowed url && ends_origin (drop (length allowed) url))
    || is_allowed_origin more url

-- A header that is there and names an allowed origin.
unfoldable pub names_allowed : List Text → Option Text → Bool
names_allowed origins header = elim header [
  | none ↦ false
  | some url ↦ is_allowed_origin origins url
]

-- A token that the request gives, in its header or else in its query.
unfoldable pub provided_token : Request → Option Text
provided_token r = elim r.csrf_header [ none ↦ r.csrf_query | some token ↦ some token ]

unfoldable pub validate_csrf_token : Settings → ℕ → Request → Text → Tokens → Access × Tokens
validate_csrf_token c now r client_id tokens =
    if names_allowed c.csrf_allowed_origins r.origin
    then (accepted, tokens)
    else if names_allowed c.csrf_allowed_origins r.referer
    then (accepted, tokens)
    else if not (is_some r.origin) && not (is_some r.referer)
    then (accepted, tokens)
    else elim (provided_token r) [
      | none ↦ (bad_request (codes "Missing CSRF token"), tokens)
      | some token ↦ validate_stored_csrf_token now client_id token tokens
    ]

-- The name of the client, or its address.
unfoldable pub get_client_id : Library → Settings → Request → Text
get_client_id lib c r =
    let named : Text → Text = λ raw.
      if has_prefix (codes "Basic ") raw
      then elim (credentials (lib.decode (drop 6 raw))) [
        | none ↦ r.address
        | some (username, password) ↦ username
      ]
      else r.address in
    if length c.username == 0
    then r.address
    else elim r.authorization [ none ↦ r.address | some raw ↦ named raw ]
