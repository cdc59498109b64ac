-- ===== src/Cluster/Auth/Authenticator.antt =====
-- src/cluster/auth.rs: signing and verifying.
use siderostat.Prelude.{
  ℕ, ◌+◌, ◌-◌, Bool, false, not, ◌&&◌, ◌||◌, Option, none, some, List, [], ◌∷◌, ◌++◌, if◌then◌else◌,
  ltb, ◌==◌, same_bytes, saturating_add, u64_max,
}
use siderostat.Cluster.Auth.{
  Crypto, SignedControlHeaders, AuthenticatedPeer, AuthError, AuthResult, ok, err, Nonce,
  ControlAuthenticator, Request, validate_body_and_fields, validate_nonce, decimal,
  encode_lower_hex, decode_lower_hex_32, control_clock_skew_millis, control_nonce_ttl_millis,
  wrong_node, wrong_source, clock_skew, invalid_signature, replay,
}

unfoldable pub canonical_message : Crypto → List ℕ → List ℕ → ℕ → List ℕ → List ℕ → List ℕ
canonical_message crypto method path timestamp nonce body =
    method
    ++ (10
        ∷ (path
            ++ (10
                ∷ (decimal timestamp
                    ++ (10 ∷ (nonce ++ (10 ∷ encode_lower_hex (crypto.sha256 body))))))))

unfoldable pub signature : Crypto → List ℕ → List ℕ → List ℕ → ℕ → List ℕ → List ℕ → List ℕ
signature crypto secret method path timestamp nonce body =
    crypto.hmac secret (canonical_message crypto method path timestamp nonce body)

-- `a?; b`: the first of two errors.
abbrev pub first_error : Option AuthError → Option AuthError → Option AuthError
first_error (some e) next = some e
first_error none next = next

abbrev pub signed_headers :
    Option AuthError → SignedControlHeaders → AuthResult SignedControlHeaders
signed_headers (some e) headers = err e
signed_headers none headers = ok headers

unfoldable pub sign :
    Crypto
    → ControlAuthenticator
    → List ℕ
    → List ℕ
    → List ℕ
    → ℕ
    → List ℕ
    → List ℕ
    → AuthResult SignedControlHeaders
unfolding signature
sign crypto a node method path timestamp nonce body =
    signed_headers (first_error (validate_body_and_fields method path body) (validate_nonce nonce))
      (record {
        node_id = node;
        timestamp_millis = timestamp;
        nonce = nonce;
        signature = encode_lower_hex (signature crypto a.secret method path timestamp nonce body);
      })

abbrev pub is_other_node : Option (List ℕ) → List ℕ → Bool
is_other_node none node = false
is_other_node (some expected) node = not (same_bytes node expected)

-- `abs_diff`: one of the differences is zero.
abbrev pub abs_diff : ℕ → ℕ → ℕ
abs_diff a b = (a - b) + (b - a)

-- `verify_slice` on the decoded signature.
abbrev pub is_signed : Option (List ℕ) → List ℕ → Bool
is_signed none mac = false
is_signed (some supplied) mac = same_bytes supplied mac

-- The checks of `verify` before the nonces are locked.
unfoldable pub check_request : Crypto → ControlAuthenticator → Request → ℕ → Option AuthError
unfolding signature
check_request crypto a r now =
    first_error (validate_body_and_fields r.method r.path_and_query r.body) (
      first_error (validate_nonce r.headers.nonce) (
        if is_other_node a.expected_node_id r.headers.node_id
        then some wrong_node
        else if not (r.source_ip == a.expected_source_ip)
        then some wrong_source
        else if ltb control_clock_skew_millis (abs_diff r.headers.timestamp_millis now)
        then some clock_skew
        else if not (
            is_signed (decode_lower_hex_32 r.headers.signature) (
              signature crypto a.secret r.method r.path_and_query r.headers.timestamp_millis
                r.headers.nonce r.body))
        then some invalid_signature
        else none))

abbrev pub is_key : List ℕ → List ℕ → Nonce → Bool
is_key node nonce n = same_bytes n.node_id node && same_bytes n.nonce nonce

unfoldable pub contains_key : List ℕ → List ℕ → List Nonce → Bool
contains_key node nonce [] = false
contains_key node nonce (n ∷ ns) = is_key node nonce n || contains_key node nonce ns

-- `retain(|_, expires_at| *expires_at > now_millis)`.
unfoldable pub retain_live : ℕ → List Nonce → List Nonce
retain_live now [] = []
retain_live now (n ∷ ns) =
    let rest = retain_live now ns in if ltb now n.expires_at then n ∷ rest else rest

abbrev pub peer_of : Request → AuthenticatedPeer
peer_of r = record {
  node_id = r.headers.node_id;
  source_ip = r.source_ip;
  timestamp_millis = r.headers.timestamp_millis;
}

-- The part of `verify` under the lock. The key that is inserted is not in the map.
unfoldable pub use_nonce :
    ControlAuthenticator → Request → ℕ → ControlAuthenticator × AuthResult AuthenticatedPeer
use_nonce a r now =
    let live = retain_live now a.nonce_expiry in
    if contains_key r.headers.node_id r.headers.nonce live
    then (record a { nonce_expiry = live }, err replay)
    else (
      record a {
        nonce_expiry =
            record {
              node_id = r.headers.node_id;
              nonce = r.headers.nonce;
              expires_at = saturating_add u64_max now control_nonce_ttl_millis;
            }
            ∷ live;
      },
      ok (peer_of r),
    )

abbrev pub verify_checked :
    Option AuthError
    → ControlAuthenticator
    → Request
    → ℕ
    → ControlAuthenticator × AuthResult AuthenticatedPeer
verify_checked (some e) a r now = (a, err e)
verify_checked none a r now = use_nonce a r now

unfoldable pub verify :
    Crypto
    → ControlAuthenticator
    → Request
    → ℕ
    → ControlAuthenticator × AuthResult AuthenticatedPeer
verify crypto a r now = verify_checked (check_request crypto a r now) a r now
