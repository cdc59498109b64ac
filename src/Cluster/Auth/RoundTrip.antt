-- ===== src/Cluster/Auth/RoundTrip.antt =====
-- What an authenticator signs, it accepts.
use siderostat.Prelude.{
  ℕ, ◌+◌, ◌*◌, ◌/◌, ◌%◌, ◌≤◌, ◌<◌, true, false, Option, none, some, List, [], ◌∷◌, ◌≡◌, refl, ap,
  ◌∙◌, arith, same_bytes_iff, AllBytes, length,
}
use siderostat.Cluster.Auth.{
  Crypto, SignedControlHeaders, ok, ControlAuthenticator, Request, validate_body_and_fields,
  validate_nonce, encode_lower_hex, decode_lower_hex_32, decode_pairs, lower_hex_value, hex_digit,
  byte_of,
}
use siderostat.Cluster.Auth.Authenticator.{
  signature, canonical_message, sign, check_request, contains_key, retain_live, use_nonce, verify,
  peer_of, is_signed, is_other_node,
}

-- What the code relies on: a code of HMAC-SHA-256 has thirty-two bytes.
pub record IsHmac (crypto : Crypto) : Type 0 where
  pub has_bytes : (key message : List ℕ) → AllBytes (crypto.hmac key message)
  pub has_length : (key message : List ℕ) → length (crypto.hmac key message) ≡ 32

lower_hex_value-hex_digit : (n : ℕ) → n < 16 → lower_hex_value (hex_digit n) ≡ some n
lower_hex_value-hex_digit n h = ground arith

decode_pairs-encode_lower_hex :
    (bs : List ℕ) → AllBytes bs → decode_pairs (encode_lower_hex bs) ≡ some bs
unfolding decode_pairs encode_lower_hex
decode_pairs-encode_lower_hex [] all = refl
decode_pairs-encode_lower_hex (b ∷ bs) all =
    (λ i.
      byte_of (lower_hex_value-hex_digit (b / 16) (omega (arith, all.0)) i)
        (lower_hex_value-hex_digit (b % 16) (omega arith) i)
        (decode_pairs-encode_lower_hex bs all.1 i))
    ∙ ap (λ (n : ℕ). some (n ∷ bs)) (omega arith)

length-encode_lower_hex : (bs : List ℕ) → length (encode_lower_hex bs) ≡ 2 * length bs
unfolding encode_lower_hex
length-encode_lower_hex [] = omega arith
length-encode_lower_hex (b ∷ bs) = omega (arith, length-encode_lower_hex bs)

decode_lower_hex_32-encode_lower_hex :
    (bs : List ℕ)
    → AllBytes bs
    → length bs ≡ 32
    → decode_lower_hex_32 (encode_lower_hex bs) ≡ some bs
unfolding decode_lower_hex_32
decode_lower_hex_32-encode_lower_hex bs all h =
    ground (arith, length-encode_lower_hex bs, h, decode_pairs-encode_lower_hex bs all)

-- The request that carries signed headers.
abbrev pub carrying : List ℕ → List ℕ → List ℕ → ℕ → SignedControlHeaders → Request
carrying method path body source headers = record {
  method = method;
  path_and_query = path;
  body = body;
  source_ip = source;
  headers = headers;
}

sign-ok :
    (crypto : Crypto) (a : ControlAuthenticator) (node method path nonce body : List ℕ)
    (timestamp : ℕ) (headers : SignedControlHeaders)
    → sign crypto a node method path timestamp nonce body ≡ ok headers
    → (validate_body_and_fields method path body ≡ none)
      × (validate_nonce nonce ≡ none)
      × (headers ≡ record {
        node_id = node;
        timestamp_millis = timestamp;
        nonce = nonce;
        signature = encode_lower_hex (signature crypto a.secret method path timestamp nonce body);
      })
unfolding sign
sign-ok crypto a node method path nonce body timestamp headers h =
    (ground arith, ground arith, ground arith)

is_signed_own :
    (m : List ℕ)
    → AllBytes m
    → length m ≡ 32
    → is_signed (decode_lower_hex_32 (encode_lower_hex m)) m ≡ true
is_signed_own m all h =
    ap (λ (d : Option (List ℕ)). is_signed d m) (decode_lower_hex_32-encode_lower_hex m all h)
    ∙ (same_bytes_iff m m).1 refl

check_request-signed :
    (crypto : Crypto)
    → IsHmac crypto
    → (a : ControlAuthenticator) (method path body : List ℕ) (source now : ℕ) (node nonce : List ℕ)
      (timestamp : ℕ)
    → validate_body_and_fields method path body ≡ none
    → validate_nonce nonce ≡ none
    → (is_other_node a.expected_node_id node) ≡ false
    → source ≡ a.expected_source_ip
    → timestamp ≤ now + 30000
    → now ≤ timestamp + 30000
    → check_request crypto a
        (carrying method path body source (record {
          node_id = node;
          timestamp_millis = timestamp;
          nonce = nonce;
          signature = encode_lower_hex (signature crypto a.secret method path timestamp nonce body);
        }))
        now
      ≡ none
unfolding check_request signature
check_request-signed crypto hm a method path body source now node nonce timestamp hv hn ho hs le1
      le2 =
    ground (
      arith,
      hv,
      hn,
      ho,
      hs,
      is_signed_own (signature crypto a.secret method path timestamp nonce body)
          (hm.has_bytes a.secret (canonical_message crypto method path timestamp nonce body))
          (hm.has_length a.secret (canonical_message crypto method path timestamp nonce body)),
    )

verify_new :
    (crypto : Crypto) (a : ControlAuthenticator) (r : Request) (now : ℕ)
    → check_request crypto a r now ≡ none
    → contains_key r.headers.node_id r.headers.nonce (retain_live now a.nonce_expiry) ≡ false
    → (verify crypto a r now).1 ≡ ok (peer_of r)
unfolding verify use_nonce
verify_new crypto a r now h new = ground (arith, h, new)

-- The headers that an authenticator signs for a node, it accepts on the request for which they were
-- signed, as that node's, when the node and the address are the expected ones, the clock is within
-- thirty seconds of the timestamp, and the node has not used the nonce (a nonce that has expired
-- counts as not used). HMAC codes have thirty-two bytes.
pub verify-sign :
    (crypto : Crypto) (a : ControlAuthenticator) (node method path nonce body : List ℕ)
    (timestamp source now : ℕ) (headers : SignedControlHeaders)
    → IsHmac crypto
    → sign crypto a node method path timestamp nonce body ≡ ok headers
    → is_other_node a.expected_node_id node ≡ false
    → source ≡ a.expected_source_ip
    → timestamp ≤ now + 30000
    → now ≤ timestamp + 30000
    → contains_key node nonce (retain_live now a.nonce_expiry) ≡ false
    → (verify crypto a (carrying method path body source headers) now).1
      ≡ ok (record { node_id = node; source_ip = source; timestamp_millis = timestamp })
verify-sign crypto a node method path nonce body timestamp source now headers hm signed hnode
      hsource le1 le2 new =
    let s = sign-ok crypto a node method path nonce body timestamp headers signed in
    ap (λ (h : SignedControlHeaders). (verify crypto a (carrying method path body source h) now).1)
      s.2
    ∙ verify_new crypto a
        (carrying method path body source (record {
          node_id = node;
          timestamp_millis = timestamp;
          nonce = nonce;
          signature = encode_lower_hex (signature crypto a.secret method path timestamp nonce body);
        }))
        now
        (check_request-signed crypto hm a method path body source now node nonce timestamp s.0 s.1
          hnode hsource le1 le2)
        new
