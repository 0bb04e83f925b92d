-- ===== src/Protocol.antt =====
-- turbobond/bond/protocol.py and version.py: the datagrams of the tunnel. A byte string is a list of
-- numbers below 256.
pub mod Layout
pub mod RoundTrip
pub mod Authentic
mod Tests
use turbobond.Base.{
  ℕ, ◌+◌, ◌-◌, ◌^◌, ◌≡◌, refl, ◌⊎◌, inl, inr, List, [], ◌∷◌, ◌++◌, Option, none, some, Bool, true,
  false,
}
use turbobond.Base.{bit_and, ltb, leb, ◌==◌, not, ◌||◌, if◌then◌else◌, length, take, drop, bytes_eq}
use turbobond.Base.Words.{to_bytes, from_bytes}
use turbobond.Crypto.{Aead, seal, open_sealed, mask64}

abbrev pub protocol_version : ℕ
protocol_version = 1

abbrev pub magic : List ℕ
magic = b'T' ∷ b'B' ∷ []

-- struct.calcsize("!2sBBIIQ")
abbrev pub header_len : ℕ
header_len = 20

abbrev pub seq_len : ℕ
seq_len = 8

abbrev pub tag_len : ℕ
tag_len = 16

abbrev pub max_payload : ℕ
max_payload = 1600

abbrev pub max_datagram : ℕ
max_datagram = header_len + seq_len + max_payload + tag_len

pub data FrameType : Type 0 where
  data_frame keepalive handshake handshake_ack link_stats close : FrameType

-- `int(frame_type)`
abbrev pub type_code : FrameType → ℕ
type_code data_frame = 1
type_code keepalive = 2
type_code handshake = 3
type_code handshake_ack = 4
type_code link_stats = 5
type_code close = 6

-- `FrameType(raw_type)`; `none` is the ValueError.
unfoldable pub frame_type_of : ℕ → Option FrameType
frame_type_of n =
    if n == 1
    then some data_frame
    else if n == 2
    then some keepalive
    else if n == 3
    then some handshake
    else if n == 4
    then some handshake_ack
    else if n == 5
    then some link_stats
    else if n == 6
    then some close
    else none

pub record Frame : Type 0 where
  pub type : FrameType
  pub session_id : ℕ
  pub link_id : ℕ
  pub counter : ℕ
  pub seq : ℕ
  pub payload : List ℕ
  pub version : ℕ

-- The tuple that `parse_header` returns.
pub record Header : Type 0 where
  pub type : FrameType
  pub session_id : ℕ
  pub link_id : ℕ
  pub counter : ℕ
  pub version : ℕ

-- The BondErrors of this module, and the OverflowError of the nonce.
pub data Error : Type 0 where
  too_short bad_magic bad_version unknown_type payload_too_big link_id_too_big : Error

pub data Result {ℓ} (A : Type ℓ) : Type ℓ where
  ok : A → Result A
  err : Error → Result A

pub Result-cases {ℓ} :
    {A : Type ℓ} (r : Result A) → ((a : A) × (r ≡ ok a)) ⊎ ((e : Error) × (r ≡ err e))
Result-cases (ok a) = inl (a, refl)
Result-cases (err e) = inr (e, refl)

-- An exception ends the function.
infixl 5 ◌>>◌
abbrev pub ◌>>◌ {ℓ} : {B : Type ℓ} → Result (Unit {0}) → Result B → Result B
err raised >> rest = err raised
ok done >> rest = rest

module _ {ℓ κ} {A : Type ℓ} {B : Type κ} where
  infixl 5 ◌>>=◌
  abbrev pub ◌>>=◌ : Result A → (A → Result B) → Result B
  err raised >>= rest = err raised
  ok value >>= rest = rest value

-- `if b: raise e`
abbrev pub raise_if : Bool → Error → Result (Unit {0})
raise_if true e = err e
raise_if false e = ok tt

abbrev pub or_raise {ℓ} : {A : Type ℓ} → Option A → Error → Result A
or_raise none e = err e
or_raise (some a) e = ok a

-- `x & 0xFFFFFFFF`
abbrev pub mask32 : ℕ → ℕ
mask32 x = bit_and x (2 ^ 32 - 1)

unfoldable pub pack_header : FrameType → ℕ → ℕ → ℕ → List ℕ
pack_header frame_type session_id link_id counter =
    magic
    ++ ((protocol_version ∷ type_code frame_type ∷ [])
        ++ (to_bytes 4 (mask32 session_id)
            ++ (to_bytes 4 (mask32 link_id) ++ to_bytes 8 (mask64 counter))))

-- The six fields of `struct.unpack(HEADER_FMT, data[:HEADER_LEN])`, each off the front of the rest.
unfoldable pub parse_header : List ℕ → Result Header
parse_header data' = do
  raise_if (ltb (length data') header_len) too_short
  let after_magic = drop 2 data'
  let version = from_bytes 0 (take 1 after_magic)
  let after_version = drop 1 after_magic
  let raw_type = from_bytes 0 (take 1 after_version)
  let after_type = drop 1 after_version
  let after_session = drop 4 after_type
  let after_link = drop 4 after_session
  raise_if (not (bytes_eq (take 2 data') magic)) bad_magic
  raise_if (not (version == protocol_version)) bad_version
  frame_type ← or_raise (frame_type_of raw_type) unknown_type
  ok (record {
    type = frame_type;
    session_id = from_bytes 0 (take 4 after_type);
    link_id = from_bytes 0 (take 4 after_session);
    counter = from_bytes 0 (take 8 after_link);
    version = version;
  })

module _ (a : Aead) where
  unfoldable pub encode_frame : FrameType → ℕ → ℕ → ℕ → ℕ → List ℕ → Result (List ℕ)
  encode_frame frame_type session_id link_id counter seq payload = do
    raise_if (ltb max_payload (length payload)) payload_too_big
    let header = pack_header frame_type session_id link_id counter
    let plaintext = to_bytes 8 (mask64 seq) ++ payload
    ciphertext ← or_raise (seal a plaintext link_id counter header) link_id_too_big
    ok (header ++ ciphertext)

  -- The frame of a datagram whose header has parsed.
  unfoldable pub open_frame : List ℕ → Header → Option Frame
  open_frame data' h =
      let header = take header_len data' in
      let ciphertext = drop header_len data' in
      if ltb (length ciphertext) (seq_len + tag_len)
      then none
      else elim (open_sealed a ciphertext h.link_id h.counter header) [
        | none ↦ none
        | some plaintext ↦
            if ltb (length plaintext) seq_len
            then none
            else some (record {
              type = h.type;
              session_id = h.session_id;
              link_id = h.link_id;
              counter = h.counter;
              seq = from_bytes 0 (take seq_len plaintext);
              payload = drop seq_len plaintext;
              version = h.version;
            })
      ]

  unfoldable pub decode_frame : List ℕ → Option Frame
  decode_frame data' = elim (parse_header data') [ err e ↦ none | ok h ↦ open_frame data' h ]
