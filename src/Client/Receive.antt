-- ===== src/Client/Receive.antt =====
-- src/client/network/ClientNetwork.cpp: `onConnected`, `onDisconnected`, the error slot,
-- `onReadyRead` and `handlePacket`.
use nullchat.Base.{
  ℕ, Str, text, ◌==◌, is_empty, Bool, true, false, List, [], ◌++◌, map, if◌then◌else◌,
}
use nullchat.Base.Map.{insert}
use nullchat.Qt.{Qt}
use nullchat.Qt.Json.{string_at}
use nullchat.Message.{ChatMessage}
use nullchat.Protocol.{
  MessageType, auth_response, text_message, group_message, group_info, p2p_offer, p2p_answer,
  p2p_ice_candidate, pub_key_response, mention, of_byte,
}
use nullchat.Protocol
use nullchat.Protocol.Framing.{drain}
use nullchat.Client.{
  Client, GroupEntry, connected, disconnected, auth_success, auth_error, message_received,
  group_message_received, user_online, user_offline, group_created, p2p_offer_received,
  p2p_answer_received, p2p_ice_received, pub_key_received, mention_received, emit,
  send_login_or_register,
}

-- The slot of `QTcpSocket::errorOccurred`.
unfoldable pub on_error : Str → Client → Client
on_error error c = if is_empty c.pending_username then c else emit (auth_error error) c

unfoldable pub on_disconnected : Client → Client
on_disconnected c = emit disconnected (record c { authenticated = false; online = false })

-- `if (!pubkey.empty()) peer_keys_[uid] = pubkey;`
unfoldable pub remember_key : Str → Str → Client → Client
remember_key uid pubkey c =
    if is_empty pubkey then c else record c { peer_keys = insert uid pubkey c.peer_keys }

module _ (q : Qt) where
  open q use {Object, parse, at}

  unfoldable pub on_connected : Client → Client
  unfolding send_login_or_register
  on_connected c =
      let told = emit connected (record c { online = true }) in
      if is_empty c.pending_username then told else send_login_or_register q told

  abbrev pub groups_of : Object → List GroupEntry
  groups_of obj =
      map (λ go. record { id = string_at q go "id"; name = string_at q go "name" })
        (q.to_array (at obj "groups"))

  -- What the client does with the object of an answer to its credentials, and whether it is `ok`.
  unfoldable pub take_answer : Object → Client → Bool × Client
  take_answer obj c =
      let user_id = string_at q obj "user_id" in
      let username = string_at q obj "username" in
      if string_at q obj "status" == text "ok"
      then (
        true,
        emit (auth_success user_id username) (record c {
          user_id = user_id;
          username = username;
          is_null = q.to_bool (at obj "is_null");
          authenticated = true;
          initial_groups = groups_of obj;
        }),
      )
      else (false, emit (auth_error (string_at q obj "error")) c)

  abbrev pub message_of : Object → ChatMessage
  message_of obj = record {
    id = [];
    sender_id = string_at q obj "sender_id";
    sender_name = string_at q obj "sender_name";
    content = string_at q obj "content";
    group_id = [];
    recipient_id = [];
    encrypted = q.to_bool (at obj "encrypted");
    timestamp = q.to_integer (at obj "timestamp");
  }

  unfoldable pub dispatch : MessageType → Object → Client → Client
  unfolding take_answer remember_key
  dispatch auth_response obj c =
      (take_answer obj (record c { pending_username = []; pending_password = [] })).1
  dispatch text_message obj c = emit (message_received (message_of obj)) c
  dispatch group_message obj c =
      let msg = record (message_of obj) { group_id = string_at q obj "group_id" } in
      emit (group_message_received msg) c
  dispatch Protocol.user_online obj c =
      let uid = string_at q obj "user_id" in
      emit (user_online uid (string_at q obj "username"))
        (remember_key uid (string_at q obj "public_key") c)
  dispatch Protocol.user_offline obj c = emit (user_offline (string_at q obj "user_id")) c
  dispatch group_info obj c =
      emit (group_created (string_at q obj "group_id") (string_at q obj "name")) c
  dispatch p2p_offer obj c =
      emit
        (p2p_offer_received (string_at q obj "from_id") (string_at q obj "sdp")
          (string_at q obj "public_key"))
        c
  dispatch p2p_answer obj c =
      emit (p2p_answer_received (string_at q obj "from_id") (string_at q obj "sdp")) c
  dispatch p2p_ice_candidate obj c =
      emit (p2p_ice_received (string_at q obj "from_id") (string_at q obj "candidate")) c
  dispatch pub_key_response obj c =
      let uid = string_at q obj "user_id" in
      let pubkey = string_at q obj "public_key" in
      emit (pub_key_received uid pubkey) (remember_key uid pubkey c)
  dispatch mention obj c =
      emit
        (mention_received (string_at q obj "sender_id") (string_at q obj "sender_name")
          (string_at q obj "group_id") (string_at q obj "group_name") (string_at q obj "content"))
        c
  dispatch Protocol.error obj c = emit (auth_error (string_at q obj "error")) c
  dispatch _ obj c = c

  unfoldable pub handle_packet : ℕ → Str → Client → Client
  unfolding dispatch
  handle_packet type body c = dispatch (of_byte type) (parse body) c

  -- `bytes` is what `readAll` returns.
  unfoldable pub on_ready_read : Str → Client → Client
  unfolding handle_packet drain
  on_ready_read bytes c =
      let d = drain q.from_big_endian handle_packet (c.read_buffer ++ bytes) c in
      if d.closed
      then record d.state { read_buffer = d.buffer; closing = true }
      else record d.state { read_buffer = d.buffer }
