-- ===== src/Tests/Fixtures.antt =====
-- Small functions that obey the laws of the interfaces, for the cases. They are not secure.
use ensemble.Common.{
  ℕ, zero, suc, ◌+◌, ◌*◌, ◌%◌, ◌≡◌, refl, sym, ap, subst, ◌∙◌, Bool, true, false, some, List, [],
  ◌∷◌, ◌++◌, length, length-append, length-take, take-append_exact, drop-append_exact, take, drop,
  get_or, replicate, bytes_eq, bytes_eq_refl, arith, map, length-map, Option, none, ap₂,
}
use ensemble.Crypto.{Bytes, Sha256, Ripemd160, Base58, Ed25519}
use ensemble.Signaling.Handshake.{ConnRequest, ConnResponse, ConnConfirm}
use ensemble.Protocol.{Codec}
use ensemble.Protocol.Envelope.{Envelope}
use ensemble.Discovery.Dht.{PeerRecord, DhtCodecs}

abbrev weigh : Bytes → ℕ
weigh [] = 7
weigh (x ∷ xs) = (x + 3 * weigh xs) % 251

abbrev pub toy_sha : Sha256
toy_sha = record { digest = λ m. weigh m ∷ replicate 31 0; digest_size = λ m. refl }

abbrev pub toy_ripemd : Ripemd160
toy_ripemd = record { digest = λ m. weigh m ∷ replicate 19 0; digest_size = λ m. refl }

abbrev pub toy_base58 : Base58
toy_base58 = record { encode = λ m. m; decode = λ m. some m; decode-encode = λ m. refl }

-- A signature is the public key with the message.
abbrev pub toy_ed25519 : Ed25519
toy_ed25519 = record {
  new_key_from_seed = λ seed. seed ++ seed;
  public = λ key. take 32 key;
  sign = λ key m. take 32 key ++ m;
  verify = λ pub_key m signature. bytes_eq signature (pub_key ++ m);
  key_size = λ seed n. omega (arith, length-append seed seed);
  public_size = λ key n. omega (arith, length-take 32 key);
  verify-sign = λ seed m n. bytes_eq_refl (take 32 (seed ++ seed) ++ m);
}

-- Fields with their lengths before them.
abbrev pub pack : List Bytes → Bytes
pack [] = []
pack (f ∷ fields) = length f ∷ (f ++ pack fields)

abbrev unpack : ℕ → Bytes → List Bytes
unpack zero bytes = []
unpack (suc n) [] = []
unpack (suc n) (k ∷ bytes) = take k bytes ∷ unpack n (drop k bytes)

pub unpack-pack : (fields : List Bytes) → unpack (length fields) (pack fields) ≡ fields
unpack-pack [] = refl
unpack-pack (f ∷ fields) =
    rw (take-append_exact f (pack fields), drop-append_exact f (pack fields), unpack-pack fields)

pub some-injective : {a b : Bytes} → some a ≡ some b → a ≡ b
some-injective e = cc

-- A codec from fields of a message and back.
abbrev pub codec_of :
    {A : Type 0} (n : ℕ) (fields : A → List Bytes) (message : List Bytes → A)
    → ((a : A) → length (fields a) ≡ n)
    → ((a : A) → message (fields a) ≡ a)
    → Codec A
codec_of n fields message count back = record {
  marshal = λ a. some (pack (fields a));
  unmarshal = λ bytes. some (message (unpack n bytes));
  unmarshal-marshal = λ a bytes e.
      let same : pack (fields a) ≡ bytes = some-injective e in
      let parsed : unpack n bytes ≡ fields a =
        subst (λ b. unpack n b ≡ fields a) same
          (subst (λ k. unpack k (pack (fields a)) ≡ fields a) (count a) (unpack-pack (fields a))) in
      ap some (ap message parsed ∙ back a);
}

abbrev flag : Bool → Bytes
flag true = 1 ∷ []
flag false = []

abbrev is_set : Bytes → Bool
is_set [] = false
is_set (_ ∷ _) = true

pub is_set-flag : (b : Bool) → is_set (flag b) ≡ b
is_set-flag true = refl
is_set-flag false = refl

abbrev pub request_codec : Codec ConnRequest
request_codec =
    codec_of 4 (λ m. m.from_address ∷ m.target_address ∷ m.nonce ∷ (m.timestamp ∷ []) ∷ [])
      (λ f. record {
        from_address = get_or f 0 [];
        target_address = get_or f 1 [];
        nonce = get_or f 2 [];
        timestamp = get_or (get_or f 3 []) 0 0;
      })
      (λ m. refl) (λ m. refl)

abbrev pub response_codec : Codec ConnResponse
response_codec =
    codec_of 5 (λ m. flag m.accepted ∷ m.pub_key ∷ m.signature ∷ m.nonce ∷ m.reason ∷ [])
      (λ f. record {
        accepted = is_set (get_or f 0 []);
        pub_key = get_or f 1 [];
        signature = get_or f 2 [];
        nonce = get_or f 3 [];
        reason = get_or f 4 [];
      })
      (λ m. refl) (λ m. ap (λ (b : Bool). record m { accepted = b }) (is_set-flag m.accepted))

abbrev pub confirm_codec : Codec ConnConfirm
confirm_codec =
    codec_of 2 (λ m. m.pub_key ∷ m.signature ∷ [])
      (λ f. record { pub_key = get_or f 0 []; signature = get_or f 1 [] }) (λ m. refl) (λ m. refl)

abbrev pub envelope_codec : Codec Envelope
envelope_codec =
    codec_of 5 (λ m. (m.kind ∷ []) ∷ m.payload ∷ (m.timestamp ∷ []) ∷ m.pub_key ∷ m.signature ∷ [])
      (λ f. record {
        kind = get_or (get_or f 0 []) 0 0;
        payload = get_or f 1 [];
        timestamp = get_or (get_or f 2 []) 0 0;
        pub_key = get_or f 3 [];
        signature = get_or f 4 [];
      })
      (λ m. refl) (λ m. refl)

abbrev moment : Option ℕ → Bytes
moment none = []
moment (some t) = t ∷ []

abbrev moment_of : Bytes → Option ℕ
moment_of [] = none
moment_of (t ∷ _) = some t

pub moment_of-moment : (t : Option ℕ) → moment_of (moment t) ≡ t
moment_of-moment none = refl
moment_of-moment (some t) = refl

abbrev pack_record : PeerRecord → Bytes
pack_record r = pack (r.node_id ∷ r.record_address ∷ r.onion_address ∷ moment r.timestamp ∷ [])

abbrev record_of : List Bytes → PeerRecord
record_of f = record {
  node_id = get_or f 0 [];
  record_address = get_or f 1 [];
  onion_address = get_or f 2 [];
  timestamp = moment_of (get_or f 3 []);
}

abbrev unpack_record : Bytes → PeerRecord
unpack_record bytes = record_of (unpack 4 bytes)

unpack_record-pack_record : (r : PeerRecord) → unpack_record (pack_record r) ≡ r
unpack_record-pack_record r =
    ap record_of
      (unpack-pack (r.node_id ∷ r.record_address ∷ r.onion_address ∷ moment r.timestamp ∷ []))
    ∙ ap (λ (t : Option ℕ). record r { timestamp = t }) (moment_of-moment r.timestamp)

unpack_records-pack_records : (rs : List PeerRecord) → map unpack_record (map pack_record rs) ≡ rs
unpack_records-pack_records [] = refl
unpack_records-pack_records (r ∷ rs) =
    ap₂ (λ x xs. x ∷ xs) (unpack_record-pack_record r) (unpack_records-pack_records rs)

abbrev pack_records : List PeerRecord → Bytes
pack_records rs = length rs ∷ pack (map pack_record rs)

abbrev unpack_records : Bytes → List PeerRecord
unpack_records [] = []
unpack_records (k ∷ bytes) = map unpack_record (unpack k bytes)

pub unpack_all-pack_records : (rs : List PeerRecord) → unpack_records (pack_records rs) ≡ rs
unpack_all-pack_records rs =
    ap (map unpack_record) (
      subst (λ k. unpack k (pack (map pack_record rs)) ≡ map pack_record rs)
        (length-map rs pack_record) (unpack-pack (map pack_record rs)))
    ∙ unpack_records-pack_records rs

-- A codec from an encoding that can be undone.
abbrev pub codec_from :
    {A : Type 0} (enc : A → Bytes) (dec : Bytes → A) → ((a : A) → dec (enc a) ≡ a) → Codec A
codec_from enc dec back = record {
  marshal = λ a. some (enc a);
  unmarshal = λ bytes. some (dec bytes);
  unmarshal-marshal = λ a bytes e. ap some (ap dec (sym (some-injective e)) ∙ back a);
}

abbrev pack_announced : Option PeerRecord → Bytes
pack_announced none = []
pack_announced (some r) = 1 ∷ pack_record r

abbrev unpack_announced : Bytes → Option PeerRecord
unpack_announced [] = none
unpack_announced (_ ∷ bytes) = some (unpack_record bytes)

pub unpack_announced-pack_announced :
    (o : Option PeerRecord) → unpack_announced (pack_announced o) ≡ o
unpack_announced-pack_announced none = refl
unpack_announced-pack_announced (some r) = ap some (unpack_record-pack_record r)

abbrev pub dht_codecs : DhtCodecs
dht_codecs = record {
  envelope = envelope_codec;
  find_node = codec_from (λ m. m.target) (λ b. record { target = b }) (λ m. refl);
  put_record =
      codec_from (λ m. pack_announced m.announced) (λ b. record { announced = unpack_announced b })
        (λ m.
          ap (λ (o : Option PeerRecord). record { announced = o })
            (unpack_announced-pack_announced m.announced));
  node_response =
      codec_from (λ m. pack_records m.peers) (λ b. record { peers = unpack_records b })
        (λ m. ap (λ (l : List PeerRecord). record { peers = l }) (unpack_all-pack_records m.peers));
}
