-- ===== src/Cluster/Auth/Replay.antt =====
-- A request is accepted once, whatever comes in between.
use siderostat.Prelude.{
  ℕ, ◌+◌, ◌≤◌, ◌<◌, Bool, true, false, ◌&&◌, ◌||◌, Option, none, some, List, [], ◌∷◌, ◌≡◌, ◌≢◌, sym,
  ap, ◌∙◌, arith, leb, same_bytes_iff, u64_max, min,
}
use siderostat.Cluster.Auth.{
  Crypto, AuthenticatedPeer, AuthError, AuthResult, ok, err, Nonce, ControlAuthenticator, Request,
}
use siderostat.Cluster.Auth.Authenticator.{
  check_request, is_key, contains_key, retain_live, use_nonce, verify_checked, verify,
}

abbrev pub is_ok : AuthResult AuthenticatedPeer → Bool
is_ok (ok peer) = true
is_ok (err e) = false

-- Requests with their times, one after the other.
unfoldable pub verify_all :
    Crypto → ControlAuthenticator → List (Request × ℕ) → ControlAuthenticator
verify_all crypto a [] = a
verify_all crypto a ((r, now) ∷ rest) = verify_all crypto (verify crypto a r now).0 rest

-- None of these requests comes later.
abbrev pub AllBy : ℕ → List (Request × ℕ) → Type 0
AllBy limit [] = Unit {0}
AllBy limit ((r, now) ∷ rest) = (now ≤ limit) × AllBy limit rest

-- The nonce of the node is kept until that time.
holds : List ℕ → List ℕ → ℕ → List Nonce → Bool
holds node nonce until [] = false
holds node nonce until (n ∷ ns) =
    (is_key node nonce n && leb until n.expires_at) || holds node nonce until ns

retain_live-holds :
    (node nonce : List ℕ) (until now : ℕ) (ns : List Nonce)
    → now < until
    → holds node nonce until ns ≡ true
    → holds node nonce until (retain_live now ns) ≡ true
unfolding holds retain_live
retain_live-holds node nonce until now [] lt h = h
retain_live-holds node nonce until now (n ∷ ns) lt h =
    ground (arith, retain_live-holds node nonce until now ns lt)

holds-contains_key :
    (node nonce : List ℕ) (until : ℕ) (ns : List Nonce)
    → holds node nonce until ns ≡ true
    → contains_key node nonce ns ≡ true
unfolding holds contains_key
holds-contains_key node nonce until [] h = ground arith
holds-contains_key node nonce until (n ∷ ns) h =
    ground (arith, holds-contains_key node nonce until ns)

use_nonce-holds :
    (node nonce : List ℕ) (until now : ℕ) (a : ControlAuthenticator) (r : Request)
    → now < until
    → holds node nonce until a.nonce_expiry ≡ true
    → holds node nonce until (use_nonce a r now).0.nonce_expiry ≡ true
unfolding use_nonce holds
use_nonce-holds node nonce until now a r lt h =
    ground (arith, retain_live-holds node nonce until now a.nonce_expiry lt h)

verify_checked-holds :
    (e : Option AuthError) (node nonce : List ℕ) (until now : ℕ) (a : ControlAuthenticator)
    (r : Request)
    → now < until
    → holds node nonce until a.nonce_expiry ≡ true
    → holds node nonce until (verify_checked e a r now).0.nonce_expiry ≡ true
verify_checked-holds (some e) node nonce until now a r lt h = h
verify_checked-holds none node nonce until now a r lt h =
    use_nonce-holds node nonce until now a r lt h

verify_all-holds :
    (crypto : Crypto) (node nonce : List ℕ) (until limit : ℕ) (a : ControlAuthenticator)
    (rs : List (Request × ℕ))
    → limit < until
    → AllBy limit rs
    → holds node nonce until a.nonce_expiry ≡ true
    → holds node nonce until (verify_all crypto a rs).nonce_expiry ≡ true
unfolding verify_all verify
verify_all-holds crypto node nonce until limit a [] lt by h = h
verify_all-holds crypto node nonce until limit a ((r, now) ∷ rs) lt by h =
    verify_all-holds crypto node nonce until limit (verify crypto a r now).0 rs lt by.1 (
      verify_checked-holds (check_request crypto a r now) node nonce until now a r
        (omega (arith, by.0)) h)

-- An accepted request is near its timestamp, and leaves its nonce.
use_nonce-keeps :
    (a : ControlAuthenticator) (r : Request) (now : ℕ)
    → is_ok (use_nonce a r now).1 ≡ true
    → holds r.headers.node_id r.headers.nonce
        (min (now + 300000) u64_max)
        (use_nonce a r now).0.nonce_expiry
      ≡ true
unfolding use_nonce holds
use_nonce-keeps a r now h = ground (
  arith,
  same_bytes_iff r.headers.node_id r.headers.node_id,
  same_bytes_iff r.headers.nonce r.headers.nonce,
)

verify-ok :
    (crypto : Crypto) (a : ControlAuthenticator) (r : Request) (now : ℕ)
    → is_ok (verify crypto a r now).1 ≡ true
    → (check_request crypto a r now ≡ none) × (verify crypto a r now ≡ use_nonce a r now)
unfolding verify
verify-ok crypto a r now h = ground arith

check_request-near :
    (crypto : Crypto) (a : ControlAuthenticator) (r : Request) (now : ℕ)
    → check_request crypto a r now ≡ none
    → (r.headers.timestamp_millis ≤ now + 30000) × (now ≤ r.headers.timestamp_millis + 30000)
unfolding check_request
check_request-near crypto a r now h = (ground arith, ground arith)

use_nonce-kept :
    (a : ControlAuthenticator) (r : Request) (until now : ℕ)
    → now < until
    → holds r.headers.node_id r.headers.nonce until a.nonce_expiry ≡ true
    → is_ok (use_nonce a r now).1 ≡ false
unfolding use_nonce
use_nonce-kept a r until now lt h = ground (
  arith,
  holds-contains_key r.headers.node_id r.headers.nonce until (retain_live now a.nonce_expiry)
      (retain_live-holds r.headers.node_id r.headers.nonce until now a.nonce_expiry lt h),
)

-- The nonce that an accepted request leaves outlives the time at which its timestamp is near.
verify-holds :
    (crypto : Crypto) (a : ControlAuthenticator) (r : Request) (now : ℕ)
    → is_ok (verify crypto a r now).1 ≡ true
    → holds r.headers.node_id r.headers.nonce
        (min (now + 300000) u64_max)
        (verify crypto a r now).0.nonce_expiry
      ≡ true
verify-holds crypto a r now h =
    let e = (verify-ok crypto a r now h).1 in
    ap
      (λ (t : ControlAuthenticator × AuthResult AuthenticatedPeer).
        holds r.headers.node_id r.headers.nonce (min (now + 300000) u64_max) t.0.nonce_expiry)
      e
    ∙ use_nonce-keeps a r now
        (sym (ap (λ (t : ControlAuthenticator × AuthResult AuthenticatedPeer). is_ok t.1) e) ∙ h)

near_in_time :
    (crypto : Crypto) (a n : ControlAuthenticator) (first second : Request) (earlier later : ℕ)
    → check_request crypto a first earlier ≡ none
    → check_request crypto n second later ≡ none
    → second.headers.timestamp_millis ≡ first.headers.timestamp_millis
    → later < u64_max
    → later < min (earlier + 300000) u64_max
near_in_time crypto a n first second earlier later h1 h2 e lt = omega (
  arith,
  (check_request-near crypto a first earlier h1).0,
  (check_request-near crypto n second later h2).1,
  e,
  lt,
)

verify-kept :
    (crypto : Crypto) (n : ControlAuthenticator) (r : Request) (until now : ℕ)
    → now < until
    → holds r.headers.node_id r.headers.nonce until n.nonce_expiry ≡ true
    → is_ok (verify crypto n r now).1 ≢ true
verify-kept crypto n r until now lt h again =
    let e = (verify-ok crypto n r now again).1 in
    let f = use_nonce-kept n r until now lt h in
    let g = ap (λ (t : ControlAuthenticator × AuthResult AuthenticatedPeer). is_ok t.1) e in
    ground (arith, f, g, again)

-- Once a request has been accepted, no request with the same node, nonce and timestamp is accepted,
-- whatever requests come in between that are not later than it, as long as the clock has not
-- reached its last value.
pub accepted_once :
    (crypto : Crypto) (a : ControlAuthenticator) (first second : Request) (earlier later : ℕ)
    (between : List (Request × ℕ))
    → is_ok (verify crypto a first earlier).1 ≡ true
    → AllBy later between
    → later < u64_max
    → second.headers.node_id ≡ first.headers.node_id
    → second.headers.nonce ≡ first.headers.nonce
    → second.headers.timestamp_millis ≡ first.headers.timestamp_millis
    → is_ok
        (verify crypto (verify_all crypto (verify crypto a first earlier).0 between) second later).1
      ≢ true
accepted_once crypto a first second earlier later between accepted by clock same_node same_nonce
      same_time again =
    verify-kept crypto n second (min (earlier + 300000) u64_max) later near held again
  where
    n : ControlAuthenticator
    n = verify_all crypto (verify crypto a first earlier).0 between

    near : later < min (earlier + 300000) u64_max
    near =
        near_in_time crypto a (verify_all crypto (verify crypto a first earlier).0 between) first
          second earlier later (verify-ok crypto a first earlier accepted).0
          (verify-ok crypto (verify_all crypto (verify crypto a first earlier).0 between) second
            later again).0
          same_time clock

    held :
        holds second.headers.node_id second.headers.nonce
          (min (earlier + 300000) u64_max)
          (verify_all crypto (verify crypto a first earlier).0 between).nonce_expiry
        ≡ true
    held =
        (λ i.
          holds (same_node i) (same_nonce i) (min (earlier + 300000) u64_max)
            (verify_all crypto (verify crypto a first earlier).0 between).nonce_expiry)
        ∙ verify_all-holds crypto first.headers.node_id first.headers.nonce
            (min (earlier + 300000) u64_max) later (verify crypto a first earlier).0 between near by
            (verify-holds crypto a first earlier accepted)
