-- ===== src/Cluster/PeerLease/Lapse.antt =====
-- A peer whose lease has lapsed has to be stable again.
use siderostat.Prelude.{
  ℕ, ◌+◌, ◌≤◌, ◌<◌, min, Bool, true, false, ◌⊎◌, inl, ◌≡◌, refl, Option, none, some, List, [], ◌∷◌,
  arith, u64_max,
}
use siderostat.Cluster.Auth.{AuthenticatedPeer}
use siderostat.Cluster.PeerLease.{
  NodeDescriptor, PeerLease, expired, establish, renew, peer_present, invalidate_route,
  advance_generation,
}

-- The calls that change the lease, the first two with their time.
pub data Call : Type 0 where
  establishes : AuthenticatedPeer → NodeDescriptor → ℕ → Bool → ℕ → Call
  renews : AuthenticatedPeer → ℕ → Bool → ℕ → Call
  invalidates : Call
  advances : ℕ → Call

unfoldable pub perform : PeerLease → Call → PeerLease
perform l (establishes peer d generation scoped now) = (establish l peer d generation scoped now).0
perform l (renews peer generation scoped now) = (renew l peer generation scoped now).0
perform l invalidates = invalidate_route l
perform l (advances generation) = advance_generation l generation

unfoldable pub perform_all : PeerLease → List Call → PeerLease
perform_all l [] = l
perform_all l (c ∷ cs) = perform_all (perform l c) cs

-- The calls that have a time come at this time or later.
abbrev pub AllFrom : ℕ → List Call → Type 0
AllFrom start [] = Unit {0}
AllFrom start (establishes peer d generation scoped now ∷ cs) = (start ≤ now) × AllFrom start cs
AllFrom start (renews peer generation scoped now ∷ cs) = (start ≤ now) × AllFrom start cs
AllFrom start (invalidates ∷ cs) = AllFrom start cs
AllFrom start (advances generation ∷ cs) = AllFrom start cs

-- The peer was first seen at this time or later, if at all.
abbrev SeenFrom : ℕ → Option ℕ → Type 0
SeenFrom start none = Unit {0}
SeenFrom start (some first) = start ≤ first

record HasLapsed (start : ℕ) (stability : ℕ) (l : PeerLease) : Type 0 where
  same : l.required_stability_millis ≡ stability
  lapsed : (expired l start ≡ true) ⊎ SeenFrom start l.first_authenticated_at_millis

establish-lapsed :
    (start stability : ℕ) (l : PeerLease) (peer : AuthenticatedPeer) (d : NodeDescriptor)
    (generation : ℕ) (scoped : Bool) (now : ℕ)
    → start ≤ now
    → HasLapsed start stability l
    → HasLapsed start stability (establish l peer d generation scoped now).0
unfolding establish expired
establish-lapsed start stability l peer d generation scoped now le h = record {
  same = ground (arith, h.same);
  lapsed = ground (arith, h.lapsed);
}

renew-lapsed :
    (start stability : ℕ) (l : PeerLease) (peer : AuthenticatedPeer) (generation : ℕ)
    (scoped : Bool) (now : ℕ)
    → start ≤ now
    → HasLapsed start stability l
    → HasLapsed start stability (renew l peer generation scoped now).0
unfolding renew expired
renew-lapsed start stability l peer generation scoped now le h = record {
  same = ground (arith, h.same);
  lapsed = ground (arith, h.lapsed);
}

perform_all-lapsed :
    (start stability : ℕ) (l : PeerLease) (cs : List Call)
    → AllFrom start cs
    → HasLapsed start stability l
    → HasLapsed start stability (perform_all l cs)
unfolding perform_all perform invalidate_route advance_generation expired
perform_all-lapsed start stability l [] from h = h
perform_all-lapsed start stability l (establishes peer d generation scoped now ∷ cs) from h =
    perform_all-lapsed start stability (establish l peer d generation scoped now).0 cs from.1
      (establish-lapsed start stability l peer d generation scoped now from.0 h)
perform_all-lapsed start stability l (renews peer generation scoped now ∷ cs) from h =
    perform_all-lapsed start stability (renew l peer generation scoped now).0 cs from.1
      (renew-lapsed start stability l peer generation scoped now from.0 h)
perform_all-lapsed start stability l (invalidates ∷ cs) from h =
    perform_all-lapsed start stability (invalidate_route l) cs from
      (record { same = h.same; lapsed = h.lapsed })
perform_all-lapsed start stability l (advances generation ∷ cs) from h =
    perform_all-lapsed start stability (advance_generation l generation) cs from
      (record { same = h.same; lapsed = h.lapsed })

absent :
    (start stability now : ℕ) (l : PeerLease)
    → HasLapsed start stability l
    → start ≤ now
    → now < min (start + stability) u64_max
    → peer_present l now ≡ false
unfolding peer_present expired
absent start stability now l h le lt = ground (arith, h.same, h.lapsed)

-- From a time at which its lease is over, a peer is absent until it has been there for the required
-- time again, whatever it sends meanwhile and however the route and the generation change.
pub lapsed_waits :
    (l : PeerLease) (cs : List Call) (start now : ℕ)
    → expired l start ≡ true
    → AllFrom start cs
    → start ≤ now
    → now < min (start + l.required_stability_millis) u64_max
    → peer_present (perform_all l cs) now ≡ false
lapsed_waits l cs start now over from le lt =
    absent start l.required_stability_millis now (perform_all l cs)
      (perform_all-lapsed start l.required_stability_millis l cs from
        (record { same = refl; lapsed = inl over }))
      le lt
