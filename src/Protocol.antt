-- ===== src/Protocol.antt =====
-- src/common/Protocol.h and src/common/Protocol.cpp: message types, the packed header, and packets
-- as bytes. The host is little-endian: `store` and `load` give the bytes of a `uint32_t` in memory.
pub mod Bytes
pub mod RoundTrip
pub mod Framing
mod Examples
use nullchat.Base.{
  if◌then◌else◌, ℕ, ◌+◌, ◌/◌, ◌%◌, ◌^◌, ◌<◌, Str, not, List, [], ◌∷◌, ◌++◌, length, get_or, take,
  drop, ltb, eqb, Result, ok, err,
}
use nullchat.Qt.{Qt, word}

-- `other` is a `uint8_t` that no enumerator names; a cast to the enumeration accepts it.
pub data MessageType : Type 0 where
  auth_login auth_register auth_response : MessageType
  text_message group_message : MessageType
  create_group join_group leave_group group_list group_info : MessageType
  p2p_offer p2p_answer p2p_ice_candidate : MessageType
  user_status ping pong error : MessageType
  user_online user_offline : MessageType
  pub_key_request pub_key_response : MessageType
  rename_group delete_group : MessageType
  mention : MessageType
  other : ℕ → MessageType

-- The enumerators in the order of their values.
abbrev pub message_types : List MessageType
message_types =
    auth_login ∷ auth_register ∷ auth_response ∷ text_message ∷ group_message ∷ create_group
    ∷ join_group ∷ leave_group ∷ group_list ∷ group_info ∷ p2p_offer ∷ p2p_answer
    ∷ p2p_ice_candidate ∷ user_status ∷ ping ∷ pong ∷ error ∷ user_online ∷ user_offline
    ∷ pub_key_request ∷ pub_key_response ∷ rename_group ∷ delete_group ∷ mention ∷ []

-- `static_cast<MessageType>(byte)`
unfoldable pub of_byte : ℕ → MessageType
of_byte n = get_or message_types n (other n)

-- `static_cast<uint8_t>(type)`
unfoldable pub to_byte : MessageType → ℕ
to_byte auth_login = 0
to_byte auth_register = 1
to_byte auth_response = 2
to_byte text_message = 3
to_byte group_message = 4
to_byte create_group = 5
to_byte join_group = 6
to_byte leave_group = 7
to_byte group_list = 8
to_byte group_info = 9
to_byte p2p_offer = 10
to_byte p2p_answer = 11
to_byte p2p_ice_candidate = 12
to_byte user_status = 13
to_byte ping = 14
to_byte pong = 15
to_byte error = 16
to_byte user_online = 17
to_byte user_offline = 18
to_byte pub_key_request = 19
to_byte pub_key_response = 20
to_byte rename_group = 21
to_byte delete_group = 22
to_byte mention = 23
to_byte (other n) = n

pub record PacketHeader : Type 0 where
  pub size : ℕ
  pub type : ℕ
  pub version : ℕ

pub record Packet : Type 0 where
  pub type : MessageType
  pub body : Str

abbrev pub protocol_version : ℕ
protocol_version = 1

abbrev pub header_size : ℕ
header_size = 6

-- The bytes of a `uint32_t` in memory, and back.
unfoldable pub store : ℕ → Str
store n = n % 256 ∷ n / 256 % 256 ∷ n / 65536 % 256 ∷ n / 16777216 % 256 ∷ []

unfoldable pub load : Str → ℕ
load s = word (get_or s 0 0) (get_or s 1 0) (get_or s 2 0) (get_or s 3 0)

-- The `memcpy` of a header out of a buffer, and of a header into one.
unfoldable pub read_header : Str → PacketHeader
unfolding load
read_header data' = record {
  size = load data';
  type = get_or data' 4 0;
  version = get_or data' 5 0;
}

unfoldable pub header_bytes : PacketHeader → Str
unfolding store
header_bytes hdr = store hdr.size ++ hdr.type ∷ hdr.version ∷ []

unfoldable pub make_packet : MessageType → Str → Packet
make_packet type body = record { type = type; body = body }

-- The exceptions of `deserialize`. Past its two checks it reads as many bytes as the header says:
-- `out_of_bounds` stands for a read behind the end of the vector.
pub data Error : Type 0 where
  packet_too_small version_mismatch out_of_bounds : Error

module _ (q : Qt) where
  unfoldable pub serialize : Packet → Str
  unfolding header_bytes
  serialize p = header_bytes hdr ++ p.body
    where
      hdr : PacketHeader
      hdr = record {
        size = q.to_big_endian (length p.body % 2 ^ 32);
        type = to_byte p.type;
        version = protocol_version;
      }

  unfoldable pub deserialize : Str → Result Error Packet
  unfolding read_header
  deserialize data' =
      let hdr = read_header data' in
      let body_len = q.from_big_endian hdr.size in
      if ltb (length data') header_size
      then err packet_too_small
      else if not (eqb hdr.version protocol_version)
      then err version_mismatch
      else if ltb (length data') (header_size + body_len)
      then err out_of_bounds
      else ok (record { type = of_byte hdr.type; body = take body_len (drop header_size data') })
