-- ===== src/Ui/MainWindow/Direct.antt =====
-- Conversations with a contact: what is typed there and what comes.
use nullchat.Base.{
  ℕ, ◌≡◌, ◌≢◌, ◌∙◌, ap, map, Str, ◌==◌, is_empty, true, false, [], ◌∷◌, ◌++◌, any, filter,
  filter-append, append-nil, sym, arith, Bool-cases, inl, inr,
}
use nullchat.Base.Int.{ℤ, pos}
use nullchat.Qt.{Qt, IsQt}
use nullchat.Message.{ChatMessage}
use nullchat.Protocol.{group_message, make_packet, serialize}
use nullchat.Database.{Database, get_group_members}
use nullchat.Server.State.{Server}
use nullchat.Server.Groups.{broadcast_to_group, send_members}
use nullchat.Server.Handlers.{handle_group_message}
use nullchat.Client.{send_group_message, group_message_body, send_packet}
use nullchat.Client.EndToEnd.{group_message_body_read}
use nullchat.Store.{MessageStore, save_message, row_of, load_messages}
use nullchat.Store.Load.{filter_absent}
use nullchat.Ui.Chat.{message}
use nullchat.Ui.MainWindow.{
  MainWindow, with_id, to_string, on_message_received, on_send_message, contact_selected,
}

-- Saving a message of one group with a new id changes nothing in what another group loads.
load_messages-save_message_other :
    (g : Str) (limit : ℤ) (m : ChatMessage) (s : MessageStore)
    → m.group_id ≢ g
    → any (λ n. n.id == m.id) s.messages ≡ false
    → load_messages g limit (save_message m s) ≡ load_messages g limit s
unfolding load_messages save_message
load_messages-save_message_other g limit m s other new = elim (Bool-cases s.opened) [
  | inl on ↦
      let grown = filter-append (λ n. n.group_id == g) s.messages (row_of m ∷ []) in
      let kept : filter (λ n. n.group_id == g) (s.messages ++ row_of m ∷ [])
          ≡ filter (λ n. n.group_id == g) s.messages ++ [] =
        grown ∙ ground arith in
      let same : filter (λ n. n.group_id == g) (s.messages ++ row_of m ∷ [])
          ≡ filter (λ n. n.group_id == g) s.messages =
        kept ∙ append-nil (filter (λ n. n.group_id == g) s.messages) in
      simp (on, filter_absent m.id s.messages new, same)
  | inr off ↦ ground arith
]

pub group_id-with_id : (m : ChatMessage) → (with_id m).group_id ≡ m.group_id
unfolding with_id
group_id-with_id m = ground arith

-- A direct message, which comes without a group, from a sender with an id and under a new id for
-- itself, is not shown in the conversation with its sender: who opens it after the message has come
-- sees what was there before.
pub contact_selected-on_message_received :
    (msg : ChatMessage) (w : MainWindow)
    → msg.group_id ≡ []
    → msg.sender_id ≢ []
    → any (λ m. m.id == (with_id msg).id) w.store.messages ≡ false
    → (contact_selected msg.sender_id (on_message_received msg w)).chat
      ≡ (contact_selected msg.sender_id w).chat
unfolding contact_selected on_message_received
contact_selected-on_message_received msg w direct sender new = ap (map message) (
    load_messages-save_message_other msg.sender_id (pos 100) (with_id msg) w.store
      (λ e. sender (sym e ∙ (group_id-with_id msg ∙ direct))) new)

get_group_members-nil :
    (db : Database) (g : Str)
    → filter (λ m. m.group_id == g) db.members ≡ []
    → (get_group_members db g).0 ≡ []
unfolding get_group_members
get_group_members-nil db g none' = ground arith

module _ (q : Qt) (lawful : IsQt q) where
  -- What the user types into a chosen conversation, here with a contact, goes out as one message to
  -- the group of that id. If no group has members under that id, the server that takes the message
  -- from a session that has logged in writes nothing to anybody.
  pub handle_group_message-on_send_message :
      (entered : Str) (now later : ℤ) (w : MainWindow) (h : ℕ) (server : Server)
      → is_empty entered ≡ false
      → is_empty w.current_channel_id ≡ false
      → (server.objects h).authenticated ≡ true
      → filter (λ m. m.group_id == w.current_channel_id) server.db.members ≡ []
      → (body : Str) × ((on_send_message q entered now later w).network.sent
          ≡ w.network.sent ++ serialize q (make_packet group_message body) ∷ [])
        × ((handle_group_message q h body server).sent ≡ server.sent)
  unfolding on_send_message send_group_message send_packet handle_group_message broadcast_to_group
      send_members
  handle_group_message-on_send_message entered now later w h server some_text chosen on nobody =
      let msg : ChatMessage = record {
        id = to_string now ++ b'_' ∷ w.user_id;
        sender_id = w.user_id;
        sender_name = w.username;
        content = entered;
        group_id = w.current_channel_id;
        recipient_id = [];
        encrypted = false;
        timestamp = later;
      } in
      let sent = group_message_body_read q lawful msg in
      let none_there = get_group_members-nil server.db w.current_channel_id nobody in
      (group_message_body q msg, ground arith, simp (on, sent.0, none_there))
