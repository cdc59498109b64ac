-- ===== src/Scenarios/Auth.antt =====
-- Tests of src/cluster/auth.rs, with a checksum in place of the hashes.
use siderostat.Prelude.{
  ℕ, zero, suc, ◌+◌, ◌%◌, ◌<◌, ◌≡◌, ◌≢◌, refl, ap, true, false, some, List, [], ◌∷◌, arith,
  AllBytes,
}
use siderostat.Cluster.Auth.{
  Crypto, SignedControlHeaders, ControlAuthenticator, Request, ok, new_authenticator,
  validate_body_and_fields, validate_nonce, encode_lower_hex,
}
use siderostat.Cluster.Auth.Authenticator.{sign, verify, signature, contains_key, retain_live}
use siderostat.Cluster.Auth.Replay.{is_ok, verify_all, accepted_once}
use siderostat.Cluster.Auth.RoundTrip.{IsHmac, carrying, verify-sign}

abbrev sum : List ℕ → ℕ
sum [] = 0
sum (b ∷ bs) = b + sum bs

abbrev repeat : ℕ → ℕ → List ℕ
repeat zero b = []
repeat (suc n) b = b ∷ repeat n b

abbrev checksum : Crypto
checksum = record {
  hmac = λ key message. repeat 32 ((sum key + sum message) % 256);
  sha256 = λ message. repeat 32 (sum message % 256);
}

repeat-AllBytes : (n b : ℕ) → b < 256 → AllBytes (repeat n b)
repeat-AllBytes zero b h = tt
repeat-AllBytes (suc n) b h = (h, repeat-AllBytes n b h)

checksum-IsHmac : IsHmac checksum
checksum-IsHmac = record {
  has_bytes = λ key message. repeat-AllBytes 32 ((sum key + sum message) % 256) (omega arith);
  has_length = λ key message. refl;
}

abbrev secret : List ℕ
secret = repeat 32 0x5a

abbrev authenticator : ControlAuthenticator
authenticator = record {
  secret = secret;
  expected_node_id = some (112 ∷ 49 ∷ []);
  expected_source_ip = 2;
  nonce_expiry = [];
}

authenticator_new : new_authenticator secret (some (112 ∷ 49 ∷ [])) 2 ≡ ok authenticator
unfolding new_authenticator
authenticator_new = refl

abbrev post : List ℕ
post = 80 ∷ 79 ∷ 83 ∷ 84 ∷ []

abbrev pair_path : List ℕ
pair_path = 47 ∷ 112 ∷ []

abbrev some_nonce : List ℕ
some_nonce = repeat 16 110

-- The headers that the authenticator signs, of any code.
abbrev headers_with : List ℕ → SignedControlHeaders
headers_with code = record {
  node_id = 112 ∷ 49 ∷ [];
  timestamp_millis = 1000000;
  nonce = some_nonce;
  signature = code;
}

abbrev own_code : List ℕ
own_code = encode_lower_hex (signature checksum secret post pair_path 1000000 some_nonce (7 ∷ []))

signed_here :
    sign checksum authenticator (112 ∷ 49 ∷ []) post pair_path 1000000 some_nonce (7 ∷ [])
    ≡ ok (headers_with own_code)
unfolding sign validate_body_and_fields validate_nonce
signed_here = refl

nonce_new : contains_key (112 ∷ 49 ∷ []) some_nonce (retain_live 1000500 []) ≡ false
unfolding contains_key retain_live
nonce_new = refl

verify-sign_example :
    (verify checksum authenticator
      (carrying post pair_path (7 ∷ []) 2 (headers_with own_code))
      1000500).1
    ≡ ok (record { node_id = 112 ∷ 49 ∷ []; source_ip = 2; timestamp_millis = 1000000 })
verify-sign_example =
    verify-sign checksum authenticator (112 ∷ 49 ∷ []) post pair_path some_nonce (7 ∷ []) 1000000 2
      1000500 (headers_with own_code) checksum-IsHmac signed_here refl refl (omega arith)
      (omega arith) nonce_new

abbrev signed_request : Request
signed_request = carrying post pair_path (7 ∷ []) 2 (headers_with own_code)

accepted_first : is_ok (verify checksum authenticator signed_request 1000500).1 ≡ true
accepted_first = ap is_ok (
    verify-sign checksum authenticator (112 ∷ 49 ∷ []) post pair_path some_nonce (7 ∷ []) 1000000 2
      1000500 (headers_with own_code) checksum-IsHmac signed_here refl refl (omega arith)
      (omega arith) nonce_new)

accepted_once_example :
    is_ok
      (verify checksum
        (verify_all checksum
          (verify checksum authenticator signed_request 1000500).0
          ((signed_request, 1000600) ∷ []))
        signed_request
        1020000).1
    ≢ true
accepted_once_example =
    accepted_once checksum authenticator signed_request signed_request 1000500 1020000
      ((signed_request, 1000600) ∷ []) accepted_first (omega arith, tt) (omega arith) refl refl refl
