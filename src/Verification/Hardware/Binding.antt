-- ===== src/Verification/Hardware/Binding.antt =====
-- Which fields of a serial proof its signature binds
-- (`verifyRelaySerialProof` of src/verification/hardware-verification.service.ts).
use operator_registry_contro.Prelude.{
  ℕ, ◌/◌, ◌%◌, ◌<◌, ◌≡◌, refl, ◌∙◌, sym, ap, subst, Bool, true, false, ◌&&◌, ◌||◌, some, [], ◌∷◌,
  ◌++◌, map, length, drop, every, Text, lower, leb, arith,
}
use operator_registry_contro.Util.HexString.{
  hex_chars, upper_hex_chars, has_char, is_hex_string_valid, is_fingerprint_valid,
}
use operator_registry_contro.Verification.Hardware.SerialProof.{
  Crypto, SerialProof, checked, nft_id_hex_lsb, message_hex_string, bytes_of,
}
use operator_registry_contro.Verification.Hardware.MessageBytes.{IsBytes}
use operator_registry_contro.Verification.Hardware.NftIdHex.{
  nft_id_hex_lsb-IsBytes, length-nft_id_hex_lsb, bytes_of-nft_id_hex_lsb,
}
use operator_registry_contro.Verification.Hardware.Message.{
  is_hex, lowered, has_char-IsHex, has_upper_char-IsHex, append-injective, lower-append,
  length-lower, lower-IsBytes, IsBytes-append, lower-same, bytes_of-injective, every-lowered,
}
use operator_registry_contro.Verification.Hardware.Authentic.{IsAuthentic}

every-imp :
    (p q : ℕ → Bool)
    → ((c : ℕ) → p c ≡ true → q c ≡ true)
    → (s : Text) → every p s ≡ true
    → every q s ≡ true
every-imp p q h [] k = refl
every-imp p q h (c ∷ s) k =
    let here : p c ≡ true = ground arith in
    let there : every p s ≡ true = ground arith in rw (h c here, every-imp p q h s there) refl

is_hex_string_valid-every :
    (s : Text) → is_hex_string_valid (some s) false ≡ true → every is_hex s ≡ true
unfolding is_hex_string_valid
is_hex_string_valid-every [] h = refl
is_hex_string_valid-every (c ∷ s) h = every-imp (has_char hex_chars) is_hex has_char-IsHex (c ∷ s) h

-- Digits of capital letters only.
abbrev is_upper : Text → Bool
is_upper s = every (has_char upper_hex_chars) s

is_fingerprint_valid-long :
    (s : Text) → is_fingerprint_valid (some s) ≡ true → (length s ≡ 40) × (is_upper s ≡ true)
unfolding is_fingerprint_valid
is_fingerprint_valid-long s h = (ground arith, ground arith)

abbrev is_upper_hex : ℕ → Bool
is_upper_hex c = (leb b'0' c && leb c b'9') || (leb b'A' c && leb c b'F')

has_upper_char-IsUpperHex : (c : ℕ) → has_char upper_hex_chars c ≡ true → is_upper_hex c ≡ true
unfolding has_char
has_upper_char-IsUpperHex c h = ground arith

lowered-cancel :
    (c d : ℕ) → is_upper_hex c ≡ true → is_upper_hex d ≡ true → lowered c ≡ lowered d → c ≡ d
lowered-cancel c d hc hd h = ground arith

lowered-injective :
    (c d : ℕ)
    → has_char upper_hex_chars c ≡ true
    → has_char upper_hex_chars d ≡ true
    → lowered c ≡ lowered d
    → c ≡ d
lowered-injective c d hc hd h =
    lowered-cancel c d (has_upper_char-IsUpperHex c hc) (has_upper_char-IsUpperHex d hd) h

map-lowered :
    (s t : Text) → is_upper s ≡ true → is_upper t ≡ true → map lowered s ≡ map lowered t → s ≡ t
map-lowered [] [] hs ht h = refl
map-lowered [] (d ∷ t) hs ht h = cc
map-lowered (c ∷ s) [] hs ht h = cc
map-lowered (c ∷ s) (d ∷ t) hs ht h =
    let heads : c ≡ d = lowered-injective c d (ground arith) (ground arith) (cc) in
    let tails : s ≡ t = map-lowered s t (ground arith) (ground arith) (cc) in cc

-- The parts of a message, with what the checks of the formats say of them.
record Parts (node_id_hex : Text) (p : SerialProof) : Type 0 where
  node : IsBytes node_id_hex
  small : p.nft_id < 65536
  device_long : length (checked p.device_serial) ≡ 16
  device_hex : every is_hex (checked p.device_serial) ≡ true
  atec_long : length p.atec_serial ≡ 18
  atec_hex : every is_hex p.atec_serial ≡ true
  fingerprint_long : length p.fingerprint ≡ 40
  fingerprint_upper : is_upper p.fingerprint ≡ true
  address_long : length (drop 2 p.address) ≡ 40
  address_hex : every is_hex (drop 2 p.address) ≡ true

module _ {node_id_hex : Text} {p : SerialProof} (x : Parts node_id_hex p) where
  fingerprint_hex : every is_hex p.fingerprint ≡ true
  fingerprint_hex =
      every-imp (has_char upper_hex_chars) is_hex has_upper_char-IsHex p.fingerprint
        x.fingerprint_upper

  -- The message, part by part.
  abbrev parts : Text
  parts =
      node_id_hex
      ++ (nft_id_hex_lsb p.nft_id
          ++ (lower (checked p.device_serial)
              ++ (lower p.atec_serial ++ (lower p.fingerprint ++ lower (drop 2 p.address)))))

  message_hex_string-parts : message_hex_string node_id_hex p ≡ parts
  unfolding message_hex_string
  message_hex_string-parts =
      rw
        (
          lower-append node_id_hex,
          lower-append (nft_id_hex_lsb p.nft_id),
          lower-append (checked p.device_serial),
          lower-append p.atec_serial,
          lower-append p.fingerprint,
          lower-same x.node,
          lower-same (nft_id_hex_lsb-IsBytes p.nft_id x.small),
        )
        refl

  parts-IsBytes : IsBytes parts
  parts-IsBytes = IsBytes-append x.node (
      IsBytes-append (nft_id_hex_lsb-IsBytes p.nft_id x.small) (
        IsBytes-append (lower-IsBytes 8 (checked p.device_serial) x.device_long x.device_hex) (
          IsBytes-append (lower-IsBytes 9 p.atec_serial x.atec_long x.atec_hex) (
            IsBytes-append (lower-IsBytes 20 p.fingerprint x.fingerprint_long fingerprint_hex)
              (lower-IsBytes 20 (drop 2 p.address) x.address_long x.address_hex)))))

nft_id-same : (m n : ℕ) → m < 65536 → n < 65536 → nft_id_hex_lsb m ≡ nft_id_hex_lsb n → m ≡ n
nft_id-same m n hm hn h =
    let bytes : m % 256 ∷ m / 256 ∷ [] ≡ n % 256 ∷ n / 256 ∷ [] =
      sym (bytes_of-nft_id_hex_lsb m hm) ∙ ap bytes_of h ∙ bytes_of-nft_id_hex_lsb n hn in
    let low : m % 256 ≡ n % 256 = cc in
    let high : m / 256 ≡ n / 256 = cc in omega (arith, low, high)

-- The parts of two messages of the same bytes.
Parts-bound :
    {h k : Text} {p q : SerialProof} (x : Parts h p) (y : Parts k q)
    → length h ≡ length k
    → bytes_of (message_hex_string h p) ≡ bytes_of (message_hex_string k q)
    → (h ≡ k)
      × (p.nft_id ≡ q.nft_id)
      × (lower (checked p.device_serial) ≡ lower (checked q.device_serial))
      × (lower p.atec_serial ≡ lower q.atec_serial)
      × (p.fingerprint ≡ q.fingerprint)
      × (lower (drop 2 p.address) ≡ lower (drop 2 q.address))
Parts-bound {h} {k} {p} {q} x y same_length same_bytes =
    let whole : parts x ≡ parts y =
      bytes_of-injective (parts-IsBytes x) (parts-IsBytes y)
        (rw (← message_hex_string-parts x, ← message_hex_string-parts y) same_bytes) in
    let (nodes, r1) = append-injective h k _ _ same_length whole in
    let (nfts, r2) =
      append-injective (nft_id_hex_lsb p.nft_id) (nft_id_hex_lsb q.nft_id) _ _
        (length-nft_id_hex_lsb p.nft_id x.small ∙ sym (length-nft_id_hex_lsb q.nft_id y.small))
        r1 in
    let (devices, r3) =
      append-injective (lower (checked p.device_serial)) (lower (checked q.device_serial)) _ _
        (length-lower (checked p.device_serial) x.device_hex
          ∙ x.device_long
          ∙ sym (length-lower (checked q.device_serial) y.device_hex ∙ y.device_long))
        r2 in
    let (atecs, r4) =
      append-injective (lower p.atec_serial) (lower q.atec_serial) _ _
        (length-lower p.atec_serial x.atec_hex
          ∙ x.atec_long
          ∙ sym (length-lower q.atec_serial y.atec_hex ∙ y.atec_long))
        r3 in
    let (fingerprints, addresses) =
      append-injective (lower p.fingerprint) (lower q.fingerprint) _ _
        (length-lower p.fingerprint (fingerprint_hex x)
          ∙ x.fingerprint_long
          ∙ sym (length-lower q.fingerprint (fingerprint_hex y) ∙ y.fingerprint_long))
        r4 in
    (
      nodes,
      nft_id-same p.nft_id q.nft_id x.small y.small nfts,
      devices,
      atecs,
      map-lowered p.fingerprint q.fingerprint x.fingerprint_upper y.fingerprint_upper (
          sym (every-lowered p.fingerprint (fingerprint_hex x))
          ∙ fingerprints
          ∙ every-lowered q.fingerprint (fingerprint_hex y)),
      addresses,
    )

IsAuthentic-Parts :
    (crypto : Crypto) (p : SerialProof) (a : IsAuthentic crypto p)
    → IsBytes (crypto.bytes_to_hex a.node_id_bytes)
    → p.nft_id < 65536
    → length (drop 2 p.address) ≡ 40
    → is_hex_string_valid (some (drop 2 p.address)) false ≡ true
    → Parts (crypto.bytes_to_hex a.node_id_bytes) p
IsAuthentic-Parts crypto p a node small address_long address_hex = record {
  node = node;
  small = small;
  device_long =
      subst (λ d. length (checked d) ≡ 16) (sym a.device_serial_hex.given) a.device_serial_hex.long;
  device_hex =
      subst (λ d. every is_hex (checked d) ≡ true) (sym a.device_serial_hex.given)
        (is_hex_string_valid-every a.device_serial a.device_serial_hex.hexadecimal);
  atec_long = a.atec_serial_hex.long;
  atec_hex = is_hex_string_valid-every p.atec_serial a.atec_serial_hex.hexadecimal;
  fingerprint_long = (is_fingerprint_valid-long p.fingerprint a.fingerprint_valid).0;
  fingerprint_upper = (is_fingerprint_valid-long p.fingerprint a.fingerprint_valid).1;
  address_long = address_long;
  address_hex = is_hex_string_valid-every (drop 2 p.address) address_hex;
}

module _ (crypto : Crypto) (p q : SerialProof) (a : IsAuthentic crypto p)
    (b : IsAuthentic crypto q) where
  -- Take two authentic proofs whose addresses are 40 hexadecimal digits after their first two units, whose
  -- numbers of tokens are less than 65536, and whose node ids have the same number of digits, which are
  -- pairs of lower-case hexadecimal ones. If the same bytes are hashed for both, then their node ids and
  -- numbers of tokens are the same, their fingerprints are, and, up to the case of the digits, their
  -- device serials, their ATEC serials and their addresses are.
  pub message-injective :
      IsBytes (crypto.bytes_to_hex a.node_id_bytes)
      → IsBytes (crypto.bytes_to_hex b.node_id_bytes)
      → length (crypto.bytes_to_hex a.node_id_bytes) ≡ length (crypto.bytes_to_hex b.node_id_bytes)
      → p.nft_id < 65536
      → q.nft_id < 65536
      → length (drop 2 p.address) ≡ 40
      → length (drop 2 q.address) ≡ 40
      → is_hex_string_valid (some (drop 2 p.address)) false ≡ true
      → is_hex_string_valid (some (drop 2 q.address)) false ≡ true
      → bytes_of (message_hex_string (crypto.bytes_to_hex a.node_id_bytes) p)
        ≡ bytes_of (message_hex_string (crypto.bytes_to_hex b.node_id_bytes) q)
      → (crypto.bytes_to_hex a.node_id_bytes ≡ crypto.bytes_to_hex b.node_id_bytes)
        × (p.nft_id ≡ q.nft_id)
        × (lower (checked p.device_serial) ≡ lower (checked q.device_serial))
        × (lower p.atec_serial ≡ lower q.atec_serial)
        × (p.fingerprint ≡ q.fingerprint)
        × (lower (drop 2 p.address) ≡ lower (drop 2 q.address))
  message-injective node_p node_q same_length small_p small_q long_p long_q hex_p hex_q same_bytes =
      Parts-bound (IsAuthentic-Parts crypto p a node_p small_p long_p hex_p)
        (IsAuthentic-Parts crypto q b node_q small_q long_q hex_q) same_length same_bytes
