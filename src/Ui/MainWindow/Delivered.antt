-- ===== src/Ui/MainWindow/Delivered.antt =====
-- A message from the input of one window to the chat of another.
use nullchat.Base.{
  ℕ, ◌≡◌, refl, ap, ◌∙◌, ◌<◌, ◌^◌, Str, ◌==◌, is_empty, true, false, not, Option, List, [], ◌∷◌,
  ◌++◌, length, drop, drop-append_self, map, filter, append-nil, sym, if◌then◌else◌, arith,
}
use nullchat.Base.Int.{ℤ}
use nullchat.Qt.{Qt, IsQt}
use nullchat.Crypto.{OpenSsl}
use nullchat.Crypto.Ecdh.{EcKeys}
use nullchat.Message.{ChatMessage}
use nullchat.Protocol.{group_message, to_byte, make_packet, serialize}
use nullchat.Protocol.Framing.Delivery.{stream}
use nullchat.Database.{get_group_members}
use nullchat.Server.State.{Server, Session}
use nullchat.Server.Handlers.{handle_group_message}
use nullchat.Server.Delivery.{AllLive, sessions_of}
use nullchat.Client.{
  Client, group_message_received, emit, send_group_message, group_message_body, send_packet,
}
use nullchat.Client.EndToEnd.{
  passed_on, as_received, handle_group_message_lem, handle_packet-passed_on,
}
use nullchat.Client.Stream.{concat, receive_all, receive_all-stream}
use nullchat.Store.{save_message}
use nullchat.Ui.Chat.{message}
use nullchat.Ui.ContactList.{increment_unread}
use nullchat.Ui.MainWindow.{
  MainWindow, to_string, with_id, on_send_message, on_group_message_received,
}
use nullchat.Ui.MainWindow.Direct.{group_id-with_id}
use nullchat.Ui.MainWindow.Login.{on_signals, on_signal, in_app}

-- The message that `onSendMessage` makes.
abbrev pub typed : Str → ℤ → ℤ → MainWindow → ChatMessage
typed entered now later w = record {
  id = to_string now ++ b'_' ∷ w.user_id;
  sender_id = w.user_id;
  sender_name = w.username;
  content = entered;
  group_id = w.current_channel_id;
  recipient_id = [];
  encrypted = false;
  timestamp = later;
}

module _ (q : Qt) (lawful : IsQt q) where
  -- The client that has got the packet in pieces.
  received_lem :
      (s : Session) (msg : ChatMessage) (chunks : List Str) (c : Client)
      → length (passed_on q lawful s msg) < 2 ^ 32
      → c.read_buffer ≡ []
      → concat chunks ≡ serialize q (make_packet group_message (passed_on q lawful s msg))
      → receive_all q chunks c ≡ emit (group_message_received (as_received q lawful s msg)) c
  unfolding make_packet to_byte
  received_lem s msg chunks c fits empty whole =
      let pkt = make_packet group_message (passed_on q lawful s msg) in
      let arrived : concat chunks ≡ stream q (pkt ∷ []) =
        whole ∙ sym (append-nil (serialize q pkt)) in
      receive_all-stream q lawful chunks (pkt ∷ []) c (fits, tt) empty arrived
      ∙ rw (handle_packet-passed_on q lawful s msg c, ← empty) refl

  sent-on_send_message :
      (entered : Str) (now later : ℤ) (w : MainWindow)
      → is_empty entered ≡ false
      → is_empty w.current_channel_id ≡ false
      → (on_send_message q entered now later w).network.sent
        ≡ w.network.sent
          ++ serialize q
              (make_packet group_message (group_message_body q (typed entered now later w)))
            ∷ []
  unfolding on_send_message send_group_message send_packet
  sent-on_send_message entered now later w some_text chosen = ground arith

  -- What the window does with the news of a group message.
  taken_lem :
      (ec : EcKeys) (ssl : OpenSsl) (pin : Option Str) (m : ChatMessage) (c : Client)
      (w : MainWindow)
      → c ≡ emit (group_message_received m) w.network
      → w.built ≡ true
      → let news = drop (length w.network.signals) c.signals in
        on_signals ec ssl pin news (record w { network = c })
        ≡ on_group_message_received m (record w { network = c })
  unfolding on_signals on_signal in_app
  taken_lem ec ssl pin m c w e built =
      let news : drop (length w.network.signals) c.signals ≡ group_message_received m ∷ [] =
        ap (λ (d : Client). drop (length w.network.signals) d.signals) e
        ∙ drop-append_self w.network.signals (group_message_received m ∷ []) in
      rw (news, built) refl

  shown_lem :
      (m : ChatMessage) (w : MainWindow)
      → let w' = on_group_message_received m w in
        let open' = m.group_id == w.current_channel_id in
        (w'.store ≡ save_message (with_id m) w.store)
        × (w'.chat ≡ (if open' then w.chat ++ message (with_id m) ∷ [] else w.chat))
        × (w'.channel_list
            ≡ (if open' then w.channel_list else increment_unread m.group_id w.channel_list))
  unfolding on_group_message_received
  shown_lem m w = let same = group_id-with_id m in (refl, rw same refl, rw same refl)

  -- A text that is entered in a channel goes to the server in one packet. If the session has logged in and
  -- the sockets in the registry are live, the handler passes it on, in one packet each, to the sessions
  -- of the other members of the channel's group. When such a packet has reached a client with an empty
  -- buffer, in any pieces, and its window has the page of the app, then the window saves the
  -- message, under the id and the name that the server has for the sender; it shows it at the end of
  -- the chat if this channel is open there, and counts it as unread in the list if not. The forwarded
  -- text must have less than 2 ^ 32 bytes.
  pub receive_all-on_send_message :
      (ec : EcKeys) (ssl : OpenSsl) (pin : Option Str) (entered : Str) (now later : ℤ) (h : ℕ)
      (server : Server) (chunks : List Str) (sender receiver : MainWindow)
      → let s = server.objects h in
        let msg = typed entered now later sender in
        let body = passed_on q lawful s msg in
        let bytes = serialize q (make_packet group_message body) in
        is_empty entered ≡ false
        → is_empty sender.current_channel_id ≡ false
        → s.authenticated ≡ true
        → AllLive server
        → length body < 2 ^ 32
        → receiver.network.read_buffer ≡ []
        → receiver.built ≡ true
        → concat chunks ≡ bytes
        → let sent = (on_send_message q entered now later sender).network.sent in
          let server' = handle_group_message q h (group_message_body q msg) server in
          let others =
            filter (λ m. not (m == s.user_id)) (get_group_members server.db msg.group_id).0 in
          let c = receive_all q chunks receiver.network in
          let news = drop (length receiver.network.signals) c.signals in
          let receiver' = on_signals ec ssl pin news (record receiver { network = c }) in
          let m = with_id (as_received q lawful s msg) in
          let open' = msg.group_id == receiver.current_channel_id in
          (sent
            ≡ sender.network.sent
              ++ serialize q (make_packet group_message (group_message_body q msg)) ∷ [])
          × (server'.sent ≡ server.sent ++ map (λ i. (i, bytes)) (sessions_of server others))
          × (receiver'.store ≡ save_message m receiver.store)
          × (receiver'.chat ≡ (if open' then receiver.chat ++ message m ∷ [] else receiver.chat))
          × (receiver'.channel_list ≡ (
              if open'
              then receiver.channel_list
              else increment_unread msg.group_id receiver.channel_list))
  receive_all-on_send_message ec ssl pin entered now later h server chunks sender receiver some_text
        chosen on live fits empty built whole =
      let s = server.objects h in
      let msg = typed entered now later sender in
      let got = received_lem s msg chunks receiver.network fits empty whole in
      let forwarded = handle_group_message_lem q lawful h msg server on live in
      let m = as_received q lawful s msg in
      let c = receive_all q chunks receiver.network in
      let taken = taken_lem ec ssl pin m c receiver got built in
      let (store, chat, channels) = shown_lem m (record receiver { network = c }) in
      (
        sent-on_send_message entered now later sender some_text chosen,
        ap (λ w. w.sent) forwarded,
        ap (λ w. w.store) taken ∙ store,
        ap (λ w. w.chat) taken ∙ chat,
        ap (λ w. w.channel_list) taken ∙ channels,
      )
