-- ===== src/Cluster/Network/Roles.antt =====
-- The roles of the two nodes of a pair.
use siderostat.Prelude.{
  ℕ, Bool, true, false, not, ◌||◌, ◌≡◌, ◌≢◌, ◌⊎◌, inl, inr, refl, sym, ap, ◌∙◌, Option, none, some,
  List, [], ◌∷◌, if◌then◌else◌, ◌==◌, ==_iff, same_bytes, subst, arith,
}
use siderostat.Target.{LocalRole}
use siderostat.Cluster.Network.{
  Ipv4Assignment, RoleAssessment, missing, conflict, known, assess_one, assess_relevant,
  assess_role, address_conflict, interface_unavailable, service_disabled, NetworkServiceObservation,
  InterfaceObservation, NetworkObservation, NetworkSnapshot, unavailable, located_as,
  from_assessment, from_interface, from_service, from_observation, is_known, assess, relevant,
}

abbrev pub opposite : LocalRole → LocalRole
opposite LocalRole.coordinator = LocalRole.worker
opposite LocalRole.worker = LocalRole.coordinator
opposite LocalRole.unknown = LocalRole.unknown

abbrev IsAt : NetworkSnapshot → LocalRole → Option ℕ → Option ℕ → Type 0
IsAt s role address expected =
    (s.role ≡ role) × (s.local_address ≡ address) × (s.expected_peer_address ≡ expected)

-- A snapshot knows neither address, or both, as its role has them.
abbrev IsPlaced : ℕ → ℕ → NetworkSnapshot → Type 0
IsPlaced c w s =
    ((s.peer_present ≡ false) × (s.local_address ≡ none))
    ⊎ (IsAt s LocalRole.coordinator (some c) (some w) ⊎ IsAt s LocalRole.worker (some w) (some c))

-- What `assess_role` may find.
abbrev IsAssessed : ℕ → ℕ → RoleAssessment → Type 0
IsAssessed c w missing = Unit
IsAssessed c w conflict = Unit
IsAssessed c w (known role address) =
    ((role ≡ LocalRole.coordinator) × (address ≡ c)) ⊎ ((role ≡ LocalRole.worker) × (address ≡ w))

assess_one-IsAssessed :
    (a : Ipv4Assignment) (c w prefix : ℕ) → IsAssessed c w (assess_one a c w prefix)
assess_one-IsAssessed a c w prefix =
    tried (a.prefix == prefix) (a.address == c) (a.address == w) refl refl
  where
    tried :
        (p m n : Bool)
        → (a.address == c) ≡ m
        → (a.address == w) ≡ n
        → IsAssessed c w (
            if not p
            then conflict
            else if m
            then known LocalRole.coordinator a.address
            else if n
            then known LocalRole.worker a.address
            else conflict)
    tried false m n hm hn = tt
    tried true true n hm hn = inl (refl, (==_iff a.address c).0 hm)
    tried true false true hm hn = inr (refl, (==_iff a.address w).0 hn)
    tried true false false hm hn = tt

assess_role-IsAssessed :
    (addresses : List Ipv4Assignment) (c w prefix : ℕ)
    → IsAssessed c w (assess_role addresses c w prefix)
unfolding assess_role
assess_role-IsAssessed addresses c w prefix = only (relevant addresses)
  where
    only : (list : List Ipv4Assignment) → IsAssessed c w (assess_relevant list c w prefix)
    only [] = tt
    only (a ∷ []) = assess_one-IsAssessed a c w prefix
    only (a ∷ b ∷ rest) = tt

if-IsPlaced :
    (c w : ℕ) (b : Bool) (s t : NetworkSnapshot)
    → IsPlaced c w s
    → IsPlaced c w t
    → IsPlaced c w (if b then s else t)
if-IsPlaced c w true s t hs ht = hs
if-IsPlaced c w false s t hs ht = ht

located_as-IsPlaced :
    (o : NetworkObservation) (role : LocalRole) (address : ℕ)
    → IsAssessed o.coordinator_address o.worker_address (known role address)
    → IsPlaced o.coordinator_address o.worker_address (located_as o role address)
located_as-IsPlaced o LocalRole.coordinator address (inl h) = inr (inl (refl, ap some h.1, refl))
located_as-IsPlaced o LocalRole.coordinator address (inr h) = ground (arith, h.0)
located_as-IsPlaced o LocalRole.worker address (inl h) = ground (arith, h.0)
located_as-IsPlaced o LocalRole.worker address (inr h) = inr (inr (refl, ap some h.1, refl))
located_as-IsPlaced o LocalRole.unknown address h = inl (refl, refl)

from_assessment-IsPlaced :
    (o : NetworkObservation) (service : NetworkServiceObservation) (r : RoleAssessment)
    → IsAssessed o.coordinator_address o.worker_address r
    → IsPlaced o.coordinator_address o.worker_address (from_assessment o service r)
from_assessment-IsPlaced o service missing h = inl (refl, refl)
from_assessment-IsPlaced o service conflict h = inl (refl, refl)
from_assessment-IsPlaced o service (known role address) h =
    if-IsPlaced o.coordinator_address o.worker_address
      (not (is_known role address (assess o service.configured_addresses)))
      (unavailable o.epoch address_conflict) (located_as o role address) (inl (refl, refl))
      (located_as-IsPlaced o role address h)

from_interface-IsPlaced :
    (o : NetworkObservation) (service : NetworkServiceObservation) (i : Option InterfaceObservation)
    → IsPlaced o.coordinator_address o.worker_address (from_interface o service i)
from_interface-IsPlaced o service none = inl (refl, refl)
from_interface-IsPlaced o service (some i) =
    if-IsPlaced o.coordinator_address o.worker_address
      (not (same_bytes i.name o.expected_interface) || not i.up)
      (unavailable o.epoch interface_unavailable)
      (from_assessment o service (assess o i.ipv4_addresses)) (inl (refl, refl))
      (from_assessment-IsPlaced o service (assess o i.ipv4_addresses) (
        assess_role-IsAssessed i.ipv4_addresses o.coordinator_address o.worker_address
          o.expected_prefix))

from_observation-IsPlaced :
    (o : NetworkObservation) → IsPlaced o.coordinator_address o.worker_address (from_observation o)
unfolding from_observation
from_observation-IsPlaced o = served o.service
  where
    served :
        (s : Option NetworkServiceObservation)
        → IsPlaced o.coordinator_address o.worker_address (from_service o s)
    served none = inl (refl, refl)
    served (some s) =
        if-IsPlaced o.coordinator_address o.worker_address (not s.enabled || not s.ipv4_enabled)
          (unavailable o.epoch service_disabled) (from_interface o s o.interface) (inl (refl, refl))
          (from_interface-IsPlaced o s o.interface)

some-injective : (a b : ℕ) → some a ≡ some b → a ≡ b
some-injective a b h = ground (arith, h)

opposed :
    (c w : ℕ) (s t : NetworkSnapshot)
    → IsPlaced c w s
    → IsPlaced c w t
    → c ≢ w
    → s.peer_present ≡ true
    → t.local_address ≡ s.expected_peer_address
    → (t.role ≡ opposite s.role)
      × (t.expected_peer_address ≡ s.local_address)
      × (s.role ≢ LocalRole.unknown)
opposed c w s t (inl hs) ht d p e = ground (arith, hs.0, p)
opposed c w s t (inr (inl hs)) (inl ht) d p e = ground (arith, sym ht.1 ∙ e ∙ hs.2)
opposed c w s t (inr (inr hs)) (inl ht) d p e = ground (arith, sym ht.1 ∙ e ∙ hs.2)
opposed c w s t (inr (inl hs)) (inr (inl ht)) d p e =
    elim (d (some-injective c w (sym ht.1 ∙ e ∙ hs.2))) [ ]
opposed c w s t (inr (inl hs)) (inr (inr ht)) d p e =
    (ht.0 ∙ ap opposite (sym hs.0), ht.2 ∙ sym hs.1, λ u. ground (arith, sym hs.0 ∙ u))
opposed c w s t (inr (inr hs)) (inr (inl ht)) d p e =
    (ht.0 ∙ ap opposite (sym hs.0), ht.2 ∙ sym hs.1, λ u. ground (arith, sym hs.0 ∙ u))
opposed c w s t (inr (inr hs)) (inr (inr ht)) d p e =
    elim (d (some-injective c w (sym (sym ht.1 ∙ e ∙ hs.2)))) [ ]

-- Two nodes that are configured with the same two different addresses agree on their roles: when one
-- sees its peer, the node that has the address of that peer has the other role and expects the first
-- one, and the first one is not of an unknown role.
pub from_observation-opposed :
    (a b : NetworkObservation)
    → a.coordinator_address ≡ b.coordinator_address
    → a.worker_address ≡ b.worker_address
    → a.coordinator_address ≢ a.worker_address
    → (from_observation a).peer_present ≡ true
    → (from_observation b).local_address ≡ (from_observation a).expected_peer_address
    → ((from_observation b).role ≡ opposite (from_observation a).role)
      × ((from_observation b).expected_peer_address ≡ (from_observation a).local_address)
      × ((from_observation a).role ≢ LocalRole.unknown)
from_observation-opposed a b hc hw d p e =
    opposed a.coordinator_address a.worker_address (from_observation a) (from_observation b)
      (from_observation-IsPlaced a)
      (subst (λ c. IsPlaced c a.worker_address (from_observation b)) (sym hc)
        (subst (λ w. IsPlaced b.coordinator_address w (from_observation b)) (sym hw)
          (from_observation-IsPlaced b)))
      d p e
