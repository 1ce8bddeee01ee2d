-- ===== src/Transport/Nat/Cascade.antt =====
-- What the cascade of strategies gives.
use ensemble.Common.{
  ℕ, zero, suc, ◌≤◌, ◌<◌, ◌≡◌, ◌∙◌, refl, sym, ap, subst, Option, none, some, List, [], ◌∷◌, leb,
  Bool-cases, Option-cases, inl, inr, arith,
}
use ensemble.Crypto.{Bytes}
use ensemble.Transport.Connector.{NatStrategy, direct, hole_punch, relay, tor_only, NatResult}
use ensemble.Transport.Nat.{
  Net, has_direct_conn, try_dial, try_direct, await_upgrade, punch_through, try_hole_punch,
  try_relay, only_tor, or_else, rank, nat_traverse_from, nat_traverse, filter_relay,
}

-- What a strategy gives; Tor is always left.
pub attempt : Net → List Bytes → NatStrategy → Option NatResult
attempt net addrs direct = try_direct net addrs
attempt net addrs hole_punch = try_hole_punch net addrs
attempt net addrs relay = try_relay net addrs
attempt net addrs tor_only = some only_tor

-- The result is that of its strategy, which does not come before `from`, and every strategy between
-- the two failed.
pub record IsFirst (net : Net) (addrs : List Bytes) (from : NatStrategy) (r : NatResult)
    : Type 0 where
  pub no_earlier : rank from ≤ rank r.nat_strategy
  pub reached : attempt net addrs r.nat_strategy ≡ some r
  pub failed_before :
      (s : NatStrategy)
      → rank from ≤ rank s
      → rank s < rank r.nat_strategy
      → attempt net addrs s ≡ none

of_rank : ℕ → NatStrategy
of_rank zero = direct
of_rank (suc zero) = hole_punch
of_rank (suc (suc zero)) = relay
of_rank (suc (suc (suc _))) = tor_only

of_rank-rank : (s : NatStrategy) → of_rank (rank s) ≡ s
unfolding of_rank rank
of_rank-rank direct = refl
of_rank-rank hole_punch = refl
of_rank-rank relay = refl
of_rank-rank tor_only = refl

rank-injective : (s t : NatStrategy) → rank s ≡ rank t → s ≡ t
rank-injective s t e = sym (of_rank-rank s) ∙ ap of_rank e ∙ of_rank-rank t

try_dial_strategy :
    (s : NatStrategy) (id_text : Bytes) (dial : List Bytes → Option (ℕ × List Bytes))
    (addrs : List Bytes) (r : NatResult)
    → try_dial s id_text dial addrs ≡ some r
    → r.nat_strategy ≡ s
unfolding try_dial
try_dial_strategy s id_text dial [] r e = absurd (cc)
try_dial_strategy s id_text dial (a ∷ addrs) r e = elim (Option-cases (dial (a ∷ addrs))) [
  | inl no_conn ↦ absurd (ground arith)
  | inr ((took, remotes), c) ↦ ground arith
]

await_upgrade_strategy :
    (id_text : Bytes) (ticks : List (ℕ × List Bytes)) (r : NatResult)
    → await_upgrade id_text ticks ≡ some r
    → r.nat_strategy ≡ hole_punch
unfolding await_upgrade
await_upgrade_strategy id_text [] r e = absurd (cc)
await_upgrade_strategy id_text ((took, remotes) ∷ ticks) r e =
    elim (Bool-cases (has_direct_conn remotes)) [
      | inl up ↦ ground arith
      | inr not_up ↦ await_upgrade_strategy id_text ticks r (ground arith)
    ]

punch_through_strategy :
    (net : Net) (addrs : List Bytes) (r : NatResult)
    → punch_through net addrs ≡ some r
    → r.nat_strategy ≡ hole_punch
unfolding punch_through
punch_through_strategy net [] r e = absurd (cc)
punch_through_strategy net (a ∷ addrs) r e = elim (Bool-cases (net.punch_dial (a ∷ addrs))) [
  | inl up ↦ await_upgrade_strategy net.id_text net.ticks r (ground arith)
  | inr not_up ↦ absurd (ground arith)
]

attempt_strategy :
    (net : Net) (addrs : List Bytes) (s : NatStrategy) (r : NatResult)
    → attempt net addrs s ≡ some r
    → r.nat_strategy ≡ s
unfolding attempt try_direct try_hole_punch try_relay
attempt_strategy net addrs direct r e = try_dial_strategy direct net.id_text net.direct_dial _ r e
attempt_strategy net addrs hole_punch r e = punch_through_strategy net (filter_relay addrs) r e
attempt_strategy net addrs relay r e = try_dial_strategy relay net.id_text net.relay_dial _ r e
attempt_strategy net addrs tor_only r e = ground arith

-- One strategy more before the others.
attempt-IsFirst :
    (net : Net) (addrs : List Bytes) (s next : NatStrategy) (r : NatResult)
    → rank next ≡ suc (rank s)
    → IsFirst net addrs next r
    → IsFirst net addrs s (or_else (attempt net addrs s) r)
unfolding or_else
attempt-IsFirst net addrs s next r after v = elim (Option-cases (attempt net addrs s)) [
  | inl e ↦
      rw (e, or_else)
        (record {
          no_earlier = let m = v.no_earlier in omega arith;
          reached = v.reached;
          failed_before = λ t low high. elim (Bool-cases (leb (rank next) (rank t))) [
            | inl above ↦ v.failed_before t (ground arith) high
            | inr below ↦
                subst (λ u. attempt net addrs u ≡ none) (rank-injective s t (ground arith)) e
          ];
        })
  | inr (q, e) ↦
      let at = attempt_strategy net addrs s q e in
      rw (e, or_else)
        (record {
          no_earlier = subst (λ u. rank s ≤ rank u) (sym at) (omega arith);
          reached = subst (λ u. attempt net addrs u ≡ some q) (sym at) e;
          failed_before = λ t low high.
              absurd (let high' = subst (λ u. rank t < rank u) at high in omega arith);
        })
]

only_tor-IsFirst : (net : Net) (addrs : List Bytes) → IsFirst net addrs tor_only only_tor
unfolding rank attempt
only_tor-IsFirst net addrs = record {
  no_earlier = omega arith;
  reached = refl;
  failed_before = λ t low high. absurd (omega arith);
}

-- NATTraverseFrom gives the result of the first strategy that succeeds, from the given one on in
-- the order of the constants, and Tor alone if none does. NATTraverse gives what it gives from the
-- direct strategy on.
pub nat_traverse_from-IsFirst :
    (net : Net) (addrs : List Bytes) (from : NatStrategy)
    → IsFirst net addrs from (nat_traverse_from net addrs from)
      × (nat_traverse net addrs ≡ nat_traverse_from net addrs direct)
unfolding nat_traverse_from nat_traverse attempt rank
nat_traverse_from-IsFirst net addrs from = (go from, refl)
  where
    relays : IsFirst net addrs relay (nat_traverse_from net addrs relay)
    relays = attempt-IsFirst net addrs relay tor_only only_tor refl (only_tor-IsFirst net addrs)

    punches : IsFirst net addrs hole_punch (nat_traverse_from net addrs hole_punch)
    punches =
        attempt-IsFirst net addrs hole_punch relay (nat_traverse_from net addrs relay) refl relays

    go : (s : NatStrategy) → IsFirst net addrs s (nat_traverse_from net addrs s)
    go direct =
        attempt-IsFirst net addrs direct hole_punch (nat_traverse_from net addrs hole_punch) refl
          punches
    go hole_punch = punches
    go relay = relays
    go tor_only = only_tor-IsFirst net addrs
