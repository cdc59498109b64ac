-- ===== src/Cluster/Auth.antt =====
-- src/cluster/auth.rs: the signature of a control request, and `ControlAuthenticator`. Strings are
-- lists of bytes. HMAC-SHA-256 and SHA-256 are other people's code and parameters here.
pub mod Authenticator
pub mod Replay
pub mod RoundTrip
use siderostat.Prelude.{
  ℕ, zero, suc, ◌+◌, ◌-◌, ◌*◌, ◌/◌, ◌%◌, Bool, true, false, not, ◌&&◌, ◌||◌, Option, none, some,
  List, [], ◌∷◌, ◌++◌, if◌then◌else◌, ltb, leb, ◌==◌, length, same_bytes, saturating_add, u64_max,
}

pub record Crypto : Type 0 where
  pub hmac : List ℕ → List ℕ → List ℕ
  pub sha256 : List ℕ → List ℕ

abbrev pub control_body_limit : ℕ
control_body_limit = 65536

abbrev pub control_clock_skew_millis : ℕ
control_clock_skew_millis = 30000

abbrev pub control_nonce_ttl_millis : ℕ
control_nonce_ttl_millis = 300000

pub record SignedControlHeaders : Type 0 where
  pub node_id : List ℕ
  pub timestamp_millis : ℕ  -- u64
  pub nonce : List ℕ
  pub signature : List ℕ

pub record AuthenticatedPeer : Type 0 where
  pub node_id : List ℕ
  pub source_ip : ℕ
  pub timestamp_millis : ℕ

pub data AuthError : Type 0 where
  invalid_secret body_too_large invalid_canonical_fields invalid_nonce clock_skew : AuthError
  invalid_timestamp wrong_node wrong_source invalid_signature replay unavailable : AuthError

pub data AuthResult (T : Type 0) : Type 0 where
  ok : T → AuthResult T
  err : AuthError → AuthResult T

-- A key of the map is a node and a nonce.
pub record Nonce : Type 0 where
  pub node_id : List ℕ
  pub nonce : List ℕ
  pub expires_at : ℕ

pub record ControlAuthenticator : Type 0 where
  pub secret : List ℕ
  pub expected_node_id : Option (List ℕ)
  pub expected_source_ip : ℕ
  pub nonce_expiry : List Nonce

-- The request as it arrives.
pub record Request : Type 0 where
  pub method : List ℕ
  pub path_and_query : List ℕ
  pub body : List ℕ
  pub source_ip : ℕ
  pub headers : SignedControlHeaders

-- `ControlSecret::new`, then `ControlAuthenticator::new` or, without a node, `new_at_source`.
unfoldable pub new_authenticator : List ℕ → Option (List ℕ) → ℕ → AuthResult ControlAuthenticator
new_authenticator secret node source =
    if ltb (length secret) 32
    then err invalid_secret
    else ok (record {
      secret = secret;
      expected_node_id = node;
      expected_source_ip = source;
      nonce_expiry = [];
    })

abbrev in_range : ℕ → ℕ → ℕ → Bool
in_range low high b = leb low b && leb b high

abbrev all : (ℕ → Bool) → List ℕ → Bool
all p [] = true
all p (b ∷ bs) = p b && all p bs

abbrev is_empty : List ℕ → Bool
is_empty [] = true
is_empty (_ ∷ _) = false

abbrev starts_with_slash : List ℕ → Bool
starts_with_slash [] = false
starts_with_slash (b ∷ _) = b == 47

abbrev no_line_end : ℕ → Bool
no_line_end b = not (b == 13) && not (b == 10)

unfoldable pub validate_body_and_fields : List ℕ → List ℕ → List ℕ → Option AuthError
validate_body_and_fields method path body =
    if ltb control_body_limit (length body)
    then some body_too_large
    else if is_empty method
        || not (all (in_range 65 90) method)
        || not (starts_with_slash path)
        || not (all no_line_end method)
        || not (all no_line_end path)
    then some invalid_canonical_fields
    else none

-- Letters, digits, `-`, `_` and `.`.
abbrev is_nonce_byte : ℕ → Bool
is_nonce_byte b =
    in_range 48 57 b || in_range 65 90 b || in_range 97 122 b || b == 45 || b == 95 || b == 46

unfoldable pub validate_nonce : List ℕ → Option AuthError
validate_nonce nonce =
    if in_range 16 128 (length nonce) && all is_nonce_byte nonce then none else some invalid_nonce

-- A number of 64 bits in decimal has at most twenty digits.
decimal_from : ℕ → ℕ → List ℕ
decimal_from zero n = []
decimal_from (suc fuel) n =
    let rest = decimal_from fuel (n / 10) in
    if ltb n 10 then (48 + n) ∷ [] else rest ++ ((48 + n % 10) ∷ [])

unfoldable pub decimal : ℕ → List ℕ
unfolding decimal_from
decimal n = decimal_from 20 n

abbrev pub hex_digit : ℕ → ℕ
hex_digit n = if ltb n 10 then 48 + n else 87 + n

unfoldable pub encode_lower_hex : List ℕ → List ℕ
encode_lower_hex [] = []
encode_lower_hex (b ∷ bs) = hex_digit (b / 16) ∷ hex_digit (b % 16) ∷ encode_lower_hex bs

abbrev pub lower_hex_value : ℕ → Option ℕ
lower_hex_value b =
    if in_range 48 57 b
    then some (b - 48)
    else if in_range 97 102 b
    then some (b - 97 + 10)
    else none

abbrev pub byte_of : Option ℕ → Option ℕ → Option (List ℕ) → Option (List ℕ)
byte_of (some high) (some low) (some rest) = some ((high * 16 + low) ∷ rest)
byte_of _ _ _ = none

unfoldable pub decode_pairs : List ℕ → Option (List ℕ)
decode_pairs [] = some []
decode_pairs (_ ∷ []) = none
decode_pairs (a ∷ b ∷ rest) = byte_of (lower_hex_value a) (lower_hex_value b) (decode_pairs rest)

unfoldable pub decode_lower_hex_32 : List ℕ → Option (List ℕ)
decode_lower_hex_32 value = if length value == 64 then decode_pairs value else none
