-- ===== src/Pairing/Tests.antt =====
-- nvhttp.cpp, utility.h: a client that pairs, and one that is refused.
use solari.Base.{ℕ, ◌≡◌, refl, ◌⊎◌, List, [], ◌∷◌, none, some, true, false, arith, replicate}
use solari.Hex
use solari.Hex.{from_hex_vec, hex_vec}
use solari.Hex.RoundTrip.{from_hex_vec-hex_vec}
use solari.Pairing
use solari.Pairing.{
  Crypto, PairSession, PairPhase, Pairing, Query, pair, pin, phase_none, phase_serverchallengeresp,
  find_session, start, challenge, challengeresp, secret, dangling,
}
use solari.Pairing.Once
use solari.Pairing.Once.{pair-failed}
use solari.Pairing.Authorized.{Unchanged, Authorizes, pair-Authorizes}
use solari.Pairing.Phases.{Call, request, enters, state, Past}
use solari.Pairing.Phases.Run.{state-Past}

from_hex_vec-hex_vec_example :
    from_hex_vec (hex_vec (0 ∷ 171 ∷ 255 ∷ []) true) true ≡ 0 ∷ 171 ∷ 255 ∷ []
from_hex_vec-hex_vec_example =
    from_hex_vec-hex_vec (0 ∷ 171 ∷ 255 ∷ []) true (omega arith, (omega arith, (omega arith, tt)))

-- A cipher that changes nothing, a hash of one byte, and signatures that are all good.
abbrev plain : Crypto
plain = record {
  hash = λ bs. 7 ∷ [];
  decrypt = λ key bs. bs;
  encrypt = λ key bs. bs;
  signature = λ cert. some (1 ∷ []);
  server_signature = 2 ∷ [];
  sign256 = λ bs. 3 ∷ [];
  verify256 = λ cert bs sign. true;
}

abbrev digits : List ℕ
digits = 49 ∷ 50 ∷ 51 ∷ 52 ∷ []

abbrev salt : List ℕ
salt = replicate 32 48

-- The text "07".
abbrev seven : List ℕ
seven = 48 ∷ 55 ∷ []

abbrev calls : List Call
calls =
    request none 5 (challengeresp seven)
    ∷ request none 5 (challenge seven (9 ∷ []) (8 ∷ []))
    ∷ enters 5 digits seven
    ∷ request none 5 (start seven salt)
    ∷ []

abbrev in_last_phase : PairSession
in_last_phase = record {
  unique_id = 5;
  cert = 7 ∷ [];
  name = seven;
  cipher_key = some (7 ∷ []);
  clienthash = 7 ∷ [];
  serversecret = 9 ∷ [];
  serverchallenge = 8 ∷ [];
  response = false;
  salt = salt;
  last_phase = phase_serverchallengeresp;
}

state-Past_example : Past 5 phase_serverchallengeresp calls
unfolding find_session state pair Pairing.pair_later pin Pairing.settle Pairing.put_session
    Pairing.start_session Pairing.all_digits Hex.is_digit Pairing.getservercert Pairing.same_phase
    Pairing.pair_phase Pairing.clientchallenge Pairing.serverchallengeresp Pairing.is_empty
    from_hex_vec Hex.convert Hex.decode_back Hex.from_hex Hex.is_convertable Hex.join Hex.lower
    Hex.values Pairing.gen_aes_key
state-Past_example = state-Past plain calls 5 in_last_phase refl

abbrev ready_to_pair : Pairing
ready_to_pair = record { sessions = in_last_phase ∷ []; named_devices = []; add_cert = [] }

pair-Authorizes_example :
    let p' = (pair plain none ready_to_pair (some 5) (secret (replicate 34 48))).1 in
    Unchanged ready_to_pair p' ⊎ Authorizes plain ready_to_pair 5 (secret (replicate 34 48)) p'
pair-Authorizes_example = pair-Authorizes plain none ready_to_pair 5 (secret (replicate 34 48))

-- A secret that is too short.
pair-failed_example :
    find_session 5 (pair plain none ready_to_pair (some 5) (secret seven)).1.sessions ≡ none
unfolding Once.failed pair Pairing.pair_later find_session Pairing.pair_phase
    Pairing.clientpairingsecret Pairing.same_phase from_hex_vec Hex.convert Hex.decode_back
    Hex.is_convertable Hex.values
pair-failed_example = pair-failed plain none ready_to_pair 5 (secret seven) refl
