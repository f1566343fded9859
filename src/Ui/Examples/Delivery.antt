-- ===== src/Ui/Examples/Delivery.antt =====
-- One message between two windows that have the same channel open.
use nullchat.Base.{
  ◌≡◌, refl, ap, ◌∙◌, Str, text, ◌==◌, ◌<◌, ◌^◌, true, not, none, List, [], ◌∷◌, ◌++◌, length, drop,
  take, append-take-drop, append-nil, Str-discrete, map, filter, eqb, if◌then◌else◌, arith,
}
use nullchat.Base.Int.{pos}
use nullchat.Qt.Sample.{sample as qt, sample-IsQt as qt-IsQt}
use nullchat.Crypto.Sample.{sample as ssl}
use nullchat.Crypto.SampleKeys.{ec}
use nullchat.Message.{ChatMessage}
use nullchat.Protocol.{group_message, make_packet, serialize}
use nullchat.Database.{get_group_members}
use nullchat.Server.State.{Session, Server, new_session, initial}
use nullchat.Server.Handlers.{handle_group_message, forwarded_message}
use nullchat.Server.Delivery.{AllLive, sessions_of}
use nullchat.Client.{group_message_body}
use nullchat.Client.EndToEnd.{passed_on, as_received}
use nullchat.Client.Stream.{concat, receive_all}
use nullchat.Store.{save_message}
use nullchat.Ui.Chat.{message}
use nullchat.Ui.ContactList.{increment_unread}
use nullchat.Ui.MainWindow.{MainWindow, with_id, on_send_message}
use nullchat.Ui.MainWindow.Login.{on_signals}
use nullchat.Ui.MainWindow.Delivered.{typed, receive_all-on_send_message}
use nullchat.Ui.Examples.{bob, window}

abbrev session_of : Str → Session
session_of id = record new_session { user_id = id; username = id; authenticated = true }

-- The window's user has session 0, Bob session 1; both are in the group 3.
abbrev server : Server
server =
    record (initial (record {
      users = [];
      groups = [];
      members =
          record { user_id = b'a' ∷ []; group_id = 3 ∷ []; encrypted_symmetric_key = [] }
          ∷ record { user_id = bob; group_id = 3 ∷ []; encrypted_symmetric_key = [] }
          ∷ [];
      messages = [];
      uuids = 0;
      faults = [];
    })) {
      registry = (b'a' ∷ [], 0) ∷ (bob, 1) ∷ [];
      objects = λ i. if eqb i 0 then session_of (b'a' ∷ []) else session_of bob;
      created = 2;
    }

abbrev other : MainWindow
other = record window { user_id = bob; username = bob }

abbrev msg : ChatMessage
msg = typed (7 ∷ []) (pos 1) (pos 2) window

abbrev s : Session
s = server.objects 0

abbrev body : Str
body = passed_on qt qt-IsQt s msg

abbrev bytes : Str
bytes = serialize qt (make_packet group_message body)

abbrev chunks : List Str
chunks = take 5 bytes ∷ drop 5 bytes ∷ []

live : AllLive server
live id h e = ground arith

short : length body < 2 ^ 32
unfolding qt group_message_body forwarded_message text Str-discrete
short = omega arith

whole : concat chunks ≡ bytes
whole = ap (λ t. take 5 bytes ++ t) (append-nil (drop 5 bytes)) ∙ append-take-drop 5 bytes

receive_all-on_send_message_example :
    let sent = (on_send_message qt (7 ∷ []) (pos 1) (pos 2) window).network.sent in
    let server' = handle_group_message qt 0 (group_message_body qt msg) server in
    let others = filter (λ m. not (m == s.user_id)) (get_group_members server.db msg.group_id).0 in
    let c = receive_all qt chunks other.network in
    let news = drop (length other.network.signals) c.signals in
    let receiver' = on_signals ec ssl none news (record other { network = c }) in
    let m = with_id (as_received qt qt-IsQt s msg) in
    let open' = msg.group_id == other.current_channel_id in
    (sent
      ≡ window.network.sent
        ++ serialize qt (make_packet group_message (group_message_body qt msg)) ∷ [])
    × (server'.sent ≡ server.sent ++ map (λ i. (i, bytes)) (sessions_of server others))
    × (receiver'.store ≡ save_message m other.store)
    × (receiver'.chat ≡ (if open' then other.chat ++ message m ∷ [] else other.chat))
    × (receiver'.channel_list
        ≡ (if open' then other.channel_list else increment_unread msg.group_id other.channel_list))
receive_all-on_send_message_example =
    receive_all-on_send_message qt qt-IsQt ec ssl none (7 ∷ []) (pos 1) (pos 2) 0 server chunks
      window other refl refl refl live short refl refl whole
