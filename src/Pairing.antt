-- ===== src/Pairing.antt =====
-- nvhttp.cpp, nvhttp.h: the pairing of a client. A text is a list of character codes; a client's
-- unique id, the key of `map_id_sess`, is a number.
pub mod Once
pub mod Authorized
pub mod Phases
mod Tests
use solari.Base.{
  ℕ, ◌+◌, ◌-◌, List, [], ◌∷◌, ◌++◌, Option, none, some, Bool, true, false, not, ◌&&◌, ◌||◌, ltb,
  leb, ◌==◌, if◌then◌else◌, length, take, drop,
}
use solari.Hex.{Bytes, from_hex, from_hex_vec, is_digit}

-- What OpenSSL computes, with the server's certificate and key: hashes, AES in ECB mode, the signature
-- field of a certificate that can be read, and RSA signatures.
pub record Crypto : Type 0 where
  pub hash : Bytes → Bytes
  pub decrypt : Bytes → Bytes → Bytes
  pub encrypt : Bytes → Bytes → Bytes
  pub signature : Bytes → Option Bytes
  pub server_signature : Bytes
  pub sign256 : Bytes → Bytes
  pub verify256 : Bytes → Bytes → Bytes → Bool

pub data PairPhase : Type 0 where
  phase_none phase_getservercert phase_clientchallenge phase_serverchallengeresp : PairPhase
  phase_clientpairingsecret : PairPhase

-- `pair_session_t`; `response` says whether a client waits for the PIN.
pub record PairSession : Type 0 where
  pub unique_id : ℕ
  pub cert : Bytes
  pub name : List ℕ
  pub cipher_key : Option Bytes
  pub clienthash : Bytes
  pub serversecret : Bytes
  pub serverchallenge : Bytes
  pub response : Bool
  pub salt : List ℕ
  pub last_phase : PairPhase

-- `map_id_sess`, the devices of `client_root`, and the certificates raised on `add_cert`.
pub record Pairing : Type 0 where
  pub sessions : List PairSession
  pub named_devices : List (List ℕ × Bytes)
  pub add_cert : List Bytes

-- The response's tree: a failure has status 400, `rejected` status 200 with `paired` 0.
pub data Reply : Type 0 where
  missing_id unknown_id invalid_request : Reply
  out_of_order short_salt no_key short_secret invalid_cert : Reply
  plaincert paired rejected : Reply
  challengeresponse pairingsecret : Bytes → Reply
  waits : Reply

-- `crypto::gen_aes_key`.
unfoldable pub gen_aes_key : Crypto → Bytes → List ℕ → Bytes
gen_aes_key c salt pin = take 16 (c.hash (salt ++ pin))

unfoldable pub same_phase : PairPhase → PairPhase → Bool
same_phase phase_none phase_none = true
same_phase phase_getservercert phase_getservercert = true
same_phase phase_clientchallenge phase_clientchallenge = true
same_phase phase_serverchallengeresp phase_serverchallengeresp = true
same_phase phase_clientpairingsecret phase_clientpairingsecret = true
same_phase _ _ = false

-- Each handler: the reply, and what becomes of the session, which `fail_pair` removes.
unfoldable pub getservercert : Crypto → PairSession → List ℕ → Reply × Option PairSession
unfolding gen_aes_key
getservercert c s pin =
    let key = gen_aes_key c (from_hex 16 (take 32 s.salt) true) pin in
    if not (same_phase s.last_phase phase_none)
    then (out_of_order, none)
    else if ltb (length s.salt) 32
    then (short_salt, none)
    else (plaincert, some (record s { last_phase = phase_getservercert; cipher_key = some key }))

-- `serversecret` and `serverchallenge` are what `crypto::rand(16)` returns.
unfoldable pub clientchallenge :
    Crypto → PairSession → Bytes → Bytes → Bytes → Reply × Option PairSession
clientchallenge c s challenge serversecret serverchallenge =
    if not (same_phase s.last_phase phase_getservercert)
    then (out_of_order, none)
    else elim s.cipher_key [
      | none ↦ (no_key, none)
      | some key ↦
          let hash = c.hash (c.decrypt key challenge ++ c.server_signature ++ serversecret) in
          (
            challengeresponse (c.encrypt key (hash ++ serverchallenge)),
            some (record s {
              last_phase = phase_clientchallenge;
              serversecret = serversecret;
              serverchallenge = serverchallenge;
            }),
          )
    ]

unfoldable pub is_empty : Bytes → Bool
is_empty [] = true
is_empty (b ∷ bs) = false

unfoldable pub serverchallengeresp : Crypto → PairSession → Bytes → Reply × Option PairSession
serverchallengeresp c s encrypted_response =
    if not (same_phase s.last_phase phase_clientchallenge)
    then (out_of_order, none)
    else elim s.cipher_key [
      | none ↦ (no_key, none)
      | some key ↦ if is_empty s.serversecret then (no_key, none) else (
        pairingsecret (s.serversecret ++ c.sign256 s.serversecret),
        some (record s {
          last_phase = phase_serverchallengeresp;
          clienthash = c.decrypt key encrypted_response;
        }),
      )
    ]

unfoldable pub same_bytes : Bytes → Bytes → Bool
same_bytes [] [] = true
same_bytes (x ∷ xs) (y ∷ ys) = x == y && same_bytes xs ys
same_bytes _ _ = false

-- Whether the hash that the client committed to, and its signature, are right.
unfoldable pub is_genuine : Crypto → PairSession → Bytes → Bytes → Bool
is_genuine c s signature client_pairing_secret =
    let secret = take 16 client_pairing_secret in
    same_bytes (c.hash (s.serverchallenge ++ signature ++ secret)) s.clienthash
    && c.verify256 s.cert secret (drop 16 client_pairing_secret)

-- The session is removed in any case; the flag says whether the client is authorized.
unfoldable pub clientpairingsecret : Crypto → PairSession → Bytes → Reply × Bool
clientpairingsecret c s client_pairing_secret =
    if not (same_phase s.last_phase phase_serverchallengeresp)
    then (out_of_order, false)
    else if leb (length client_pairing_secret) 16
    then (short_secret, false)
    else elim (c.signature s.cert) [
      | none ↦ (invalid_cert, false)
      | some signature ↦
          if is_genuine c s signature client_pairing_secret
          then (paired, true)
          else (rejected, false)
    ]

-- `map_id_sess`: `find`, `erase`, and the write through a reference.
unfoldable pub find_session : ℕ → List PairSession → Option PairSession
find_session id [] = none
find_session id (s ∷ ss) = if s.unique_id == id then some s else find_session id ss

unfoldable pub remove_session : ℕ → List PairSession → List PairSession
remove_session id [] = []
remove_session id (s ∷ ss) =
    if s.unique_id == id then remove_session id ss else s ∷ remove_session id ss

unfoldable pub put_session : PairSession → List PairSession → List PairSession
put_session t [] = t ∷ []
put_session t (s ∷ ss) = if s.unique_id == t.unique_id then t ∷ ss else s ∷ put_session t ss

unfoldable pub settle : Pairing → ℕ → Option PairSession → Pairing
settle p id none = record p { sessions = remove_session id p.sessions }
settle p id (some s) = record p { sessions = put_session s p.sessions }

-- `add_authorized_client`, after `add_cert` is raised; the state file is not modelled.
unfoldable pub authorize : Pairing → PairSession → Pairing
authorize p s = record p {
  named_devices = p.named_devices ++ (s.name, s.cert) ∷ [];
  add_cert = p.add_cert ++ s.cert ∷ [];
}

-- The query of a request: the two phrases, with the client's certificate and the salt as they are
-- sent, or a later phase, which is the first of the three keys that the query has. `challenge` carries
-- the two random values of its handler.
pub data Query : Type 0 where
  start : List ℕ → List ℕ → Query
  pairchallenge : Query
  challenge : List ℕ → Bytes → Bytes → Query
  challengeresp : List ℕ → Query
  secret : List ℕ → Query
  other : Query

-- `emplace` keeps a session that is there; its salt is overwritten all the same.
unfoldable pub start_session : Pairing → ℕ → List ℕ → List ℕ → PairSession
start_session p id clientcert salt = elim (find_session id p.sessions) [
  | some s ↦ record s { salt = salt }
  | none ↦ record {
    unique_id = id;
    cert = from_hex_vec clientcert true;
    name = [];
    cipher_key = none;
    clienthash = [];
    serversecret = [];
    serverchallenge = [];
    response = false;
    salt = salt;
    last_phase = phase_none;
  }
]

-- A later phase, for a session that is there.
unfoldable pub pair_phase : Crypto → Pairing → PairSession → Query → Reply × Pairing
pair_phase c p s (challenge text serversecret serverchallenge) =
    let (reply, after) =
      clientchallenge c s (from_hex_vec text true) serversecret serverchallenge in
    (reply, settle p s.unique_id after)
pair_phase c p s (challengeresp text) =
    let (reply, after) = serverchallengeresp c s (from_hex_vec text true) in
    (reply, settle p s.unique_id after)
pair_phase c p s (secret text) =
    let (reply, genuine) = clientpairingsecret c s (from_hex_vec text true) in
    (reply, settle (if genuine then authorize p s else p) s.unique_id none)
pair_phase c p s _ = (invalid_request, p)

-- The part of `pair` after the phrases.
unfoldable pub pair_later : Crypto → Pairing → ℕ → Query → Reply × Pairing
pair_later c p id q = elim (find_session id p.sessions) [
  | none ↦ (unknown_id, p)
  | some s ↦ pair_phase c p s q
]

-- `pin_stdin` is the PIN read from the terminal, if the server is set to ask there.
unfoldable pub pair : Crypto → Option (List ℕ) → Pairing → Option ℕ → Query → Reply × Pairing
pair c pin_stdin p none q = (missing_id, p)
pair c pin_stdin p (some id) (start clientcert salt) =
    let s = start_session p id clientcert salt in
    elim pin_stdin [
      | none ↦ (waits, settle p id (some (record s { response = true })))
      | some pin ↦ let (reply, after) = getservercert c s pin in (reply, settle p id after)
    ]
pair c pin_stdin p (some id) pairchallenge = (paired, p)
pair c pin_stdin p (some id) q = pair_later c p id q

unfoldable pub all_digits : List ℕ → Bool
all_digits [] = true
all_digits (ch ∷ pin) = is_digit ch && all_digits pin

-- What `pin` does: it refuses; it answers the waiting client, or finds none that waits; or the session
-- was removed by `fail_pair`, and `pin` goes on to use the reference to it.
pub data PinResult : Type 0 where
  refused unanswered dangling : PinResult
  answered : Reply → PinResult

-- `pin`; `first` is the key of the first entry of `map_id_sess`, which is empty if it has none.
unfoldable pub pin : Crypto → Pairing → ℕ → List ℕ → List ℕ → PinResult × Pairing
pin c p first digits name = elim (find_session first p.sessions) [
  | none ↦ (refused, p)
  | some s ↦
      let (reply, after) = getservercert c s digits in
      if not (length digits == 4) || not (all_digits digits) then (refused, p) else elim after [
        | none ↦ (dangling, settle p first none)
        | some t ↦
            let u = record t { name = name; response = false } in
            (if s.response then answered reply else unanswered, settle p first (some u))
      ]
]
