-- ===== src/Discovery/Dht/Hosting.antt =====
-- What stays true of a DHT node over any sequence of its calls.
use ensemble.Common.{
  ℕ, ◌≡◌, ◌≢◌, refl, sym, subst, some, List, [], ◌∷◌, bytes_eq, ◌==◌, bytes_eq_iff, Bool-cases,
  Option-cases, inl, inr, arith, Result, Result-cases,
}
use ensemble.Crypto.{Bytes, Base58}
use ensemble.Protocol.Envelope.{Envelope}
use ensemble.Discovery.NodeId.{NodeId}
use ensemble.Discovery.NodeId.Derivation.{node_id_from_address}
use ensemble.Discovery.Routing.{PeerInfo, new_routing_table}
use ensemble.Discovery.Routing.Buckets.{All}
use ensemble.Discovery.Routing.Invariant.{
  IsTable, after_calls, after_calls-IsTable, new_routing_table-IsTable,
}
use ensemble.Discovery.Routing.Limits.{IsLimited, after_calls-IsLimited, new_routing_table-limits}
use ensemble.Discovery.Dht.{
  Dht, DhtCodecs, new_dht, set_failure_threshold, replace_identity, add_local_identity,
  without_identity, remove_local_identity, seen_at,
}
use ensemble.Discovery.Dht.Queries.{
  World, dht_find_node, dht_put_record, accepted_record, handle_envelope, handle_put_record,
}
use ensemble.Discovery.Dht.Search.{dht_lookup, bootstrap, announce}
use ensemble.Discovery.Dht.Tables.{
  Reached, Reached-refl, IsForwardClock, dht_lookup-Reached, bootstrap-Reached, announce-Reached,
  handle_envelope-Reached,
}

-- No identity of the list has the address.
abbrev pub Unhosted : Bytes → List PeerInfo → Type 0
Unhosted addr = All (λ p. p.address ≢ addr)

abbrev pub DistinctAddresses : List PeerInfo → Type 0
DistinctAddresses [] = Unit
DistinctAddresses (p ∷ ps) = Unhosted p.address ps × DistinctAddresses ps

-- The hosted identities have addresses of their own, none the local peer's, and the node
-- identifiers of their addresses.
pub record IsHosting (b58 : Base58) (d : Dht) : Type 0 where
  pub distinct : DistinctAddresses d.local_identities
  pub others : Unhosted d.local_peer.address d.local_identities
  pub derived : All (λ p. node_id_from_address b58 p.address ≡ Result.ok p.id) d.local_identities

replace_identity-All {ℓ} :
    (P : PeerInfo → Type ℓ) (p : PeerInfo) (qs : List PeerInfo)
    → P p
    → All P qs
    → All P (replace_identity p qs)
unfolding replace_identity
replace_identity-All P p [] h a = (h, tt)
replace_identity-All P p (q ∷ qs) h a = elim (Bool-cases (bytes_eq q.address p.address)) [
  | inl e ↦ rw (e, replace_identity) (h, a.1)
  | inr e ↦ rw (e, replace_identity) (a.0, replace_identity-All P p qs h a.1)
]

replace_identity-DistinctAddresses :
    (p : PeerInfo) (qs : List PeerInfo)
    → DistinctAddresses qs
    → DistinctAddresses (replace_identity p qs)
unfolding replace_identity
replace_identity-DistinctAddresses p [] d = (tt, tt)
replace_identity-DistinctAddresses p (q ∷ qs) d = elim (Bool-cases (bytes_eq q.address p.address)) [
  | inl e ↦
      let same : q.address ≡ p.address = (bytes_eq_iff q.address p.address).0 e in
      rw (e, replace_identity) (subst (λ a. Unhosted a qs) same d.0, d.1)
  | inr e ↦
      rw (e, replace_identity)
        (
          replace_identity-All (λ r. r.address ≢ q.address) p qs
              (λ same. absurd (ground (arith, bytes_eq_iff q.address p.address, sym same))) d.0,
          replace_identity-DistinctAddresses p qs d.1,
        )
]

without_identity-All {ℓ} :
    (P : PeerInfo → Type ℓ) (addr : Bytes) (qs rs : List PeerInfo)
    → without_identity addr qs ≡ some rs
    → All P qs
    → All P rs
unfolding without_identity
without_identity-All P addr [] rs e a = absurd (cc)
without_identity-All P addr (q ∷ qs) rs e a = elim (Bool-cases (bytes_eq q.address addr)) [
  | inl h ↦ let same : qs ≡ rs = ground arith in subst (All P) same a.1
  | inr h ↦ elim (Option-cases (without_identity addr qs)) [
    | inl r ↦ absurd (ground arith)
    | inr (l, r) ↦
        let same : q ∷ l ≡ rs = ground arith in
        subst (All P) same (a.0, without_identity-All P addr qs l r a.1)
  ]
]

without_identity-DistinctAddresses :
    (addr : Bytes) (qs rs : List PeerInfo)
    → without_identity addr qs ≡ some rs
    → DistinctAddresses qs
    → DistinctAddresses rs
unfolding without_identity
without_identity-DistinctAddresses addr [] rs e d = absurd (cc)
without_identity-DistinctAddresses addr (q ∷ qs) rs e d =
    elim (Bool-cases (bytes_eq q.address addr)) [
      | inl h ↦ let same : qs ≡ rs = ground arith in subst DistinctAddresses same d.1
      | inr h ↦ elim (Option-cases (without_identity addr qs)) [
        | inl r ↦ absurd (ground arith)
        | inr (l, r) ↦
            let same : q ∷ l ≡ rs = ground arith in
            subst DistinctAddresses same (
              without_identity-All (λ p. p.address ≢ q.address) addr qs l r d.0,
              without_identity-DistinctAddresses addr qs l r d.1,
            )
      ]
    ]

module _ (b58 : Base58) where
  add_local_identity-IsHosting :
      (d : Dht) (addr onion : Bytes) (now : ℕ)
      → IsHosting b58 d
      → IsHosting b58 (add_local_identity b58 d addr onion now).0
  unfolding add_local_identity
  add_local_identity-IsHosting d addr onion now v =
      elim (Result-cases (node_id_from_address b58 addr)) [
        | inr (e, r) ↦ rw (r, add_local_identity) v
        | inl (id, r) ↦ elim (Bool-cases (bytes_eq d.local_peer.address addr)) [
          | inl own ↦ rw (r, own, add_local_identity) v
          | inr foreign ↦
              let p : PeerInfo = record {
                id = id;
                address = addr;
                onion_addr = onion;
                last_seen = some now;
                failures = 0;
              } in
              rw (r, foreign, add_local_identity)
                (record {
                  distinct = replace_identity-DistinctAddresses p d.local_identities v.distinct;
                  others =
                      replace_identity-All (λ q. q.address ≢ d.local_peer.address) p
                        d.local_identities
                        (λ same.
                          absurd (ground (arith, bytes_eq_iff d.local_peer.address addr, sym same)))
                        v.others;
                  derived =
                      replace_identity-All
                        (λ q. node_id_from_address b58 q.address ≡ Result.ok q.id) p
                        d.local_identities r v.derived;
                })
        ]
      ]

  remove_local_identity-IsHosting :
      (d : Dht) (addr : Bytes) → IsHosting b58 d → IsHosting b58 (remove_local_identity d addr).0
  unfolding remove_local_identity
  remove_local_identity-IsHosting d addr v =
      elim (Option-cases (without_identity addr d.local_identities)) [
        | inl r ↦ rw (r, remove_local_identity) v
        | inr (qs, r) ↦
            rw (r, remove_local_identity)
              (record {
                distinct =
                    without_identity-DistinctAddresses addr d.local_identities qs r v.distinct;
                others = without_identity-All _ addr d.local_identities qs r v.others;
                derived = without_identity-All _ addr d.local_identities qs r v.derived;
              })
      ]

add_local_identity-rt :
    (b58 : Base58) (d : Dht) (addr onion : Bytes) (now : ℕ)
    → (add_local_identity b58 d addr onion now).0.rt ≡ d.rt
unfolding add_local_identity
add_local_identity-rt b58 d addr onion now = elim (Result-cases (node_id_from_address b58 addr)) [
  | inr (e, r) ↦ rw (r, add_local_identity)
  | inl (id, r) ↦ elim (Bool-cases (bytes_eq d.local_peer.address addr)) [
    | inl own ↦ rw (r, own, add_local_identity)
    | inr foreign ↦ rw (r, foreign, add_local_identity)
  ]
]

remove_local_identity-rt : (d : Dht) (addr : Bytes) → (remove_local_identity d addr).0.rt ≡ d.rt
unfolding remove_local_identity
remove_local_identity-rt d addr = elim (Option-cases (without_identity addr d.local_identities)) [
  | inl r ↦ rw (r, remove_local_identity)
  | inr (qs, r) ↦ rw (r, remove_local_identity)
]

-- The calls that change a node, each with the number of its first event.
pub data DhtCall : Type 0 where
  looks_up boots : Bytes → ℕ → DhtCall
  hosts : Bytes → Bytes → ℕ → DhtCall
  announces : ℕ → DhtCall
  handles : Envelope → ℕ → DhtCall
  unhosts : Bytes → DhtCall
  sets_threshold : ℕ → DhtCall

module _ (w : World) (codecs : DhtCodecs) (b58 : Base58) where
  unfoldable pub after_dht_call : Dht → DhtCall → Dht
  after_dht_call d (looks_up addr n) = record d { rt = (dht_lookup w codecs b58 d addr n).0.rt }
  after_dht_call d (boots onion n) = record d { rt = (bootstrap w codecs d onion n).0.rt }
  after_dht_call d (hosts addr onion n) = (add_local_identity b58 d addr onion (w.clock n)).0
  after_dht_call d (announces n) = (announce w codecs d n).0
  after_dht_call d (handles env n) = (handle_envelope w codecs d n env).0
  after_dht_call d (unhosts addr) = (remove_local_identity d addr).0
  after_dht_call d (sets_threshold n) = set_failure_threshold d n

  unfoldable pub after_dht_calls : Dht → List DhtCall → Dht
  unfolding after_dht_call
  after_dht_calls d [] = d
  after_dht_calls d (c ∷ cs) = after_dht_calls (after_dht_call d c) cs

-- What every node keeps.
pub record IsSound (b58 : Base58) (d : Dht) : Type 0 where
  pub table : IsTable d.rt
  pub limited : IsLimited d.rt
  pub hosting : IsHosting b58 d

Reached-IsSound :
    (b58 : Base58) (d d' : Dht)
    → Reached d.rt d'.rt
    → IsHosting b58 d'
    → IsSound b58 d
    → IsSound b58 d'
unfolding Reached
Reached-IsSound b58 d d' (cs, f, e) h v = record {
  table = subst IsTable (sym e) (after_calls-IsTable d.rt cs v.table);
  limited = subst IsLimited (sym e) (after_calls-IsLimited d.rt cs f v.limited);
  hosting = h;
}

-- A node's identities are as another's.
same-IsHosting :
    (b58 : Base58) (d d' : Dht)
    → d'.local_identities ≡ d.local_identities
    → d'.local_peer.address ≡ d.local_peer.address
    → IsHosting b58 d
    → IsHosting b58 d'
same-IsHosting b58 d d' e e' v = record {
  distinct = subst DistinctAddresses (sym e) v.distinct;
  others =
      subst (λ a. Unhosted a d'.local_identities) (sym e')
        (subst (Unhosted d.local_peer.address) (sym e) v.others);
  derived = subst (All _) (sym e) v.derived;
}

module _ (w : World) (codecs : DhtCodecs) (b58 : Base58) (mono : IsForwardClock w) where
  handle_envelope-IsHosting :
      (d : Dht) (n : ℕ) (env : Envelope)
      → IsHosting b58 d
      → IsHosting b58 (handle_envelope w codecs d n env).0
  unfolding handle_envelope handle_put_record
  handle_envelope-IsHosting d n env v = elim (Bool-cases (env.kind == dht_find_node)) [
    | inl e ↦ rw e v
    | inr e ↦ elim (Bool-cases (env.kind == dht_put_record)) [
      | inr e' ↦ rw (e, e') v
      | inl e' ↦ elim (Option-cases (accepted_record w codecs d n env)) [
        | inl r ↦ rw (e, e', r, handle_put_record) v
        | inr (p, r) ↦ rw (e, e', r, handle_put_record) (same-IsHosting b58 d _ refl refl v)
      ]
    ]
  ]

  announce-IsHosting : (d : Dht) (n : ℕ) → IsHosting b58 d → IsHosting b58 (announce w codecs d n).0
  unfolding announce seen_at
  announce-IsHosting d n v = same-IsHosting b58 d _ refl refl v

  after_dht_call-IsSound :
      (d : Dht) (c : DhtCall) → IsSound b58 d → IsSound b58 (after_dht_call w codecs b58 d c)
  unfolding after_dht_call
  after_dht_call-IsSound d (looks_up addr n) v =
      Reached-IsSound b58 d _ (dht_lookup-Reached w codecs mono b58 d addr n)
        (same-IsHosting b58 d _ refl refl v.hosting) v
  after_dht_call-IsSound d (boots onion n) v =
      Reached-IsSound b58 d _ (bootstrap-Reached w codecs mono d onion n)
        (same-IsHosting b58 d _ refl refl v.hosting) v
  after_dht_call-IsSound d (hosts addr onion n) v =
      Reached-IsSound b58 d _
        (subst (Reached d.rt) (sym (add_local_identity-rt b58 d addr onion (w.clock n)))
          (Reached-refl d.rt))
        (add_local_identity-IsHosting b58 d addr onion (w.clock n) v.hosting) v
  after_dht_call-IsSound d (announces n) v =
      Reached-IsSound b58 d _ (announce-Reached w codecs mono d n)
        (announce-IsHosting d n v.hosting) v
  after_dht_call-IsSound d (handles env n) v =
      Reached-IsSound b58 d _ (handle_envelope-Reached w codecs mono d n env)
        (handle_envelope-IsHosting d n env v.hosting) v
  after_dht_call-IsSound d (unhosts addr) v =
      Reached-IsSound b58 d _
        (subst (Reached d.rt) (sym (remove_local_identity-rt d addr)) (Reached-refl d.rt))
        (remove_local_identity-IsHosting b58 d addr v.hosting) v
  after_dht_call-IsSound d (sets_threshold n) v =
      unfold set_failure_threshold in
      record {
        table = v.table;
        limited = v.limited;
        hosting = same-IsHosting b58 d _ refl refl v.hosting;
      }

  after_dht_calls-IsSound :
      (d : Dht) (cs : List DhtCall)
      → IsSound b58 d
      → IsSound b58 (after_dht_calls w codecs b58 d cs)
  unfolding after_dht_calls
  after_dht_calls-IsSound d [] v = v
  after_dht_calls-IsSound d (c ∷ cs) v =
      after_dht_calls-IsSound (after_dht_call w codecs b58 d c) cs (after_dht_call-IsSound d c v)

  -- After any sequence of lookups, bootstraps, announcements, incoming requests and changes of the
  -- hosted identities on a new node, whatever the network answers, if the clock does not run back:
  -- the routing table is valid and no source is over its limits, the hosted identities have
  -- distinct addresses, none of them the local peer's, and each has the node identifier of its
  -- address.
  pub new_dht-after_dht_calls :
      (l : NodeId) (local_peer : PeerInfo) (cs : List DhtCall)
      → IsSound b58 (after_dht_calls w codecs b58 (new_dht (new_routing_table l) local_peer) cs)
  unfolding new_dht new_routing_table after_calls
  new_dht-after_dht_calls l local_peer cs =
      after_dht_calls-IsSound (new_dht (new_routing_table l) local_peer) cs (record {
        table = new_routing_table-IsTable l;
        limited = new_routing_table-limits l [] tt;
        hosting = record { distinct = tt; others = tt; derived = tt };
      })
