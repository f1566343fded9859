-- ===== src/Client.antt =====
-- src/client/network/ClientNetwork.h and the part of src/client/network/ClientNetwork.cpp that
-- sends.
pub mod Receive
pub mod Connect
pub mod Answers
pub mod Login
pub mod Register
pub mod EndToEnd
pub mod Stream
pub mod Vouched
mod Examples
use nullchat.Base.{
  Str, text, is_empty, Bool, true, false, none, some, List, [], ◌∷◌, ◌++◌, if◌then◌else◌,
}
use nullchat.Base.Map.{Map, find}
use nullchat.Qt.{Qt}
use nullchat.Qt.Json.{put_string}
use nullchat.Message.{ChatMessage}
use nullchat.Protocol.{
  MessageType, auth_login, auth_register, text_message, group_message, p2p_offer, pub_key_request,
  make_packet, serialize,
}
use nullchat.Protocol

pub record GroupEntry : Type 0 where
  pub id : Str
  pub name : Str

-- The signals with their arguments.
pub data Signal : Type 0 where
  connected disconnected : Signal
  auth_success : Str → Str → Signal
  auth_error : Str → Signal
  message_received group_message_received : ChatMessage → Signal
  user_online : Str → Str → Signal
  user_offline : Str → Signal
  group_created : Str → Str → Signal
  p2p_offer_received : Str → Str → Str → Signal
  p2p_answer_received p2p_ice_received pub_key_received : Str → Str → Signal
  mention_received : Str → Str → Str → Str → Str → Signal

-- `online` says that the socket is in `ConnectedState`, `closing` that it has been told to
-- disconnect. `sent` holds what has been written to it, `signals` what has been emitted, oldest first.
pub record Client : Type 0 where
  pub user_id : Str
  pub username : Str
  pub own_public_key : Str
  pub authenticated : Bool
  pub is_null : Bool
  pub is_login : Bool
  pub initial_groups : List GroupEntry
  pub pending_username : Str
  pub pending_password : Str
  pub read_buffer : Str
  pub peer_keys : Map Str
  pub online : Bool
  pub closing : Bool
  pub sent : List Str
  pub signals : List Signal

-- A client as its constructor leaves it.
abbrev pub new_client : Client
new_client = record {
  user_id = [];
  username = [];
  own_public_key = [];
  authenticated = false;
  is_null = false;
  is_login = false;
  initial_groups = [];
  pending_username = [];
  pending_password = [];
  read_buffer = [];
  peer_keys = [];
  online = false;
  closing = false;
  sent = [];
  signals = [];
}

abbrev pub emit : Signal → Client → Client
emit s c = record c { signals = c.signals ++ s ∷ [] }

unfoldable pub set_public_key : Str → Client → Client
set_public_key key c = record c { own_public_key = key }

pub peer_public_key : Client → Str → Str
peer_public_key c peer_id = elim (find peer_id c.peer_keys) [ none ↦ [] | some key ↦ key ]

module _ (q : Qt) where
  open q use {Object, print, empty}

  unfoldable pub send_packet : MessageType → Str → Client → Client
  send_packet type body c = record c { sent = c.sent ++ serialize q (make_packet type body) ∷ [] }

  -- The object with which a client logs in or registers.
  unfoldable pub credentials : Str → Str → Str → Object
  credentials username password public_key =
      let obj = put_string q (put_string q empty "username" username) "password" password in
      if is_empty public_key then obj else put_string q obj "public_key" public_key

  unfoldable pub send_login_or_register : Client → Client
  unfolding send_packet credentials
  send_login_or_register c =
      send_packet (if c.is_login then auth_login else auth_register)
        (print (credentials c.pending_username c.pending_password c.own_public_key)) c

  unfoldable pub send_login : Str → Str → Client → Client
  unfolding send_login_or_register
  send_login username password c =
      let waiting = record c {
        pending_username = username;
        pending_password = password;
        is_login = true;
      } in
      if c.online then send_login_or_register waiting else waiting

  unfoldable pub send_register : Str → Str → Client → Client
  unfolding send_login_or_register
  send_register username password c =
      let waiting = record c {
        pending_username = username;
        pending_password = password;
        is_login = false;
      } in
      if c.online then send_login_or_register waiting else waiting

  -- The JSON texts of the two kinds of message.
  unfoldable pub direct_message_body : ChatMessage → Str
  direct_message_body msg =
      let obj =
        put_string q (put_string q empty "recipient_id" msg.recipient_id) "content" msg.content in
      let marked = q.insert obj "encrypted" (q.bool msg.encrypted) in
      print (q.insert marked "timestamp" (q.integer msg.timestamp))

  unfoldable pub group_message_body : ChatMessage → Str
  group_message_body msg =
      let obj = put_string q (put_string q empty "group_id" msg.group_id) "content" msg.content in
      let marked = q.insert obj "encrypted" (q.bool msg.encrypted) in
      print (q.insert marked "timestamp" (q.integer msg.timestamp))

  pub send_direct_message : ChatMessage → Client → Client
  unfolding send_packet direct_message_body
  send_direct_message msg c = send_packet text_message (direct_message_body msg) c

  unfoldable pub send_group_message : ChatMessage → Client → Client
  unfolding send_packet group_message_body
  send_group_message msg c = send_packet group_message (group_message_body msg) c

  unfoldable pub create_group : Str → Str → Client → Client
  unfolding send_packet
  create_group name encrypted_key c =
      let obj = put_string q (put_string q empty "name" name) "encrypted_key" encrypted_key in
      send_packet Protocol.create_group (print obj) c

  pub join_group : Str → Str → Client → Client
  unfolding send_packet
  join_group group_id encrypted_key c =
      let obj =
        put_string q (put_string q empty "group_id" group_id) "encrypted_key" encrypted_key in
      send_packet Protocol.join_group (print obj) c

  pub send_p2p_offer : Str → Str → Client → Client
  unfolding send_packet
  send_p2p_offer target_id public_key c =
      let obj = put_string q (put_string q empty "target_id" target_id) "sdp" (text "dummy_sdp") in
      send_packet p2p_offer (print (put_string q obj "public_key" public_key)) c

  pub rename_group : Str → Str → Client → Client
  unfolding send_packet
  rename_group group_id new_name c =
      let obj = put_string q (put_string q empty "group_id" group_id) "name" new_name in
      send_packet Protocol.rename_group (print obj) c

  pub delete_group : Str → Client → Client
  unfolding send_packet
  delete_group group_id c =
      send_packet Protocol.delete_group (print (put_string q empty "group_id" group_id)) c

  pub request_public_key : Str → Client → Client
  unfolding send_packet
  request_public_key user_id c =
      send_packet pub_key_request (print (put_string q empty "user_id" user_id)) c
