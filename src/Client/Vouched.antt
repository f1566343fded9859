-- ===== src/Client/Vouched.antt =====
-- What a client of the server reports about users, however the bytes reach it.
mod Examples
use nullchat.Base.{
  ◌+◌, ◌≡◌, Str, is_empty, Bool, true, false, ◌||◌, List, append_assoc, append-nil, length-append,
  eqb, if◌then◌else◌, All,
}
use nullchat.Base.Map.{Map}
use nullchat.Qt.{Qt}
use nullchat.Protocol.{of_byte, header_bytes, store, serialize}
use nullchat.Protocol
use nullchat.Protocol.Bytes.{Fits}
use nullchat.Database.{Database, UserRecord}
use nullchat.Database.Users.{has_account}
use nullchat.Server.State.{Server}
use nullchat.Server.Reachable.{Reach}
use nullchat.Server.Vouched.{has_id, Honest, Told}
use nullchat.Client.{
  Client, Signal, connected, disconnected, auth_success, auth_error, message_received,
  group_message_received, user_online, user_offline, group_created, p2p_offer_received,
  p2p_answer_received, p2p_ice_received, pub_key_received, mention_received,
}
use nullchat.Client.Receive.{on_ready_read, message_of}

-- The accounts bear a signal out: those for logins, messages and presence, and the sender of an offer,
-- an answer or a candidate of a peer. An answer to a request for a public key and a mention are never
-- reported. The key that comes with an offer is its sender's own.
abbrev pub vouched : List UserRecord → Signal → Bool
vouched us (auth_success id username) = is_empty id || has_account us id username
vouched us (message_received msg) = has_account us msg.sender_id msg.sender_name
vouched us (group_message_received msg) = has_account us msg.sender_id msg.sender_name
vouched us (user_online id username) = has_account us id username
vouched us (user_offline id) = has_id us id
vouched us (p2p_offer_received from_id sdp public_key) = has_id us from_id
vouched us (p2p_answer_received from_id sdp) = has_id us from_id
vouched us (p2p_ice_received from_id candidate) = has_id us from_id
vouched us (pub_key_received id public_key) = false
vouched us (mention_received sender_id sender_name group_id group_name content) = false
vouched us _ = true

-- Every signal is borne out, the keys of the peers are as they were, and the socket has not been told
-- to disconnect.
pub record Sound (us : List UserRecord) (keys : Map Str) (c : Client) : Type 0 where
  pub signals : All (λ s. vouched us s ≡ true) c.signals
  pub peer_keys : c.peer_keys ≡ keys
  pub closing : c.closing ≡ false
