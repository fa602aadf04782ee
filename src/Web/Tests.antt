-- ===== src/Web/Tests.antt =====
-- confighttp.cpp: the theorems on logins and CSRF tokens at concrete requests.
use solari.Base.{◌≡◌, ◌↔◌, ℕ, List, [], ◌∷◌, none, some, arith, refl}
use solari.Base.Text.{codes, same_text}
use solari.Web.{
  Library, Settings, Request, find_colon, credentials, check_login, check_header, authenticate,
  validate_csrf_token,
}
use solari.Web.Net.{lan}
use solari.Web.Access.{accepted}
use solari.Web.Auth.{IsLogin, authenticate-IsLogin}
use solari.Web.Csrf.{Call, store}
use solari.Web.Csrf.Call.{generate}
use solari.Web.Origin.{Passes, validate_csrf_token-Passes}

-- Everything is on the network, and neither Base64 nor the hash changes the text.
abbrev plain : Library
plain = record { from_address = λ t. lan; decode = λ t. t; hash = λ t. t; iequals = same_text }

abbrev settings : Settings
settings = record {
  username = codes "sun";
  password = codes "shinesalt";
  salt = codes "salt";
  csrf_allowed_origins = codes "https://host" ∷ [];
  origin_web_ui_allowed = lan;
}

abbrev request : Request
request = record {
  address = codes "10.0.0.2";
  authorization = some (codes "Basic sun:shine");
  origin = some (codes "https://other");
  referer = none;
  csrf_header = some (codes "token");
  csrf_query = none;
}

-- One client fetches two tokens, and another one between them.
abbrev calls : List (ℕ × Call)
calls =
    (9, generate (codes "sun") (codes "token"))
    ∷ ((5, generate (codes "moon") (codes "else"))
        ∷ ((3, generate (codes "sun") (codes "old")) ∷ []))

authenticate-IsLogin_example :
    (authenticate plain settings request ≡ accepted) ↔ IsLogin plain settings request
authenticate-IsLogin_example = authenticate-IsLogin plain settings request

validate_csrf_token-Passes_example :
    ((validate_csrf_token settings 12 request (codes "sun") (store calls)).0 ≡ accepted)
    ↔ Passes settings 12 request (codes "sun") calls
validate_csrf_token-Passes_example =
    validate_csrf_token-Passes settings 12 request (codes "sun") calls
      (omega arith, (omega arith, (omega arith, tt)))

login : authenticate plain settings request ≡ accepted
unfolding authenticate check_header credentials find_colon check_login same_text
login = refl
