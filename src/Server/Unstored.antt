-- ===== src/Server/Unstored.antt =====
-- src/server/Session.cpp: no message is kept for later. `Database::storeMessage` has no caller.
use nullchat.Base.{
  ℕ, ◌≡◌, refl, ◌∙◌, Str, is_empty, Bool, true, false, none, List, [], ◌∷◌, ◌++◌, arith, Bool-cases,
  inl, inr, length,
}
use nullchat.Qt.{Qt}
use nullchat.Qt.Json.{string_at}
use nullchat.Crypto.{OpenSsl}
use nullchat.Protocol.{
  MessageType, auth_login, auth_register, auth_response, text_message, group_message, create_group,
  join_group, p2p_offer, p2p_answer, p2p_ice_candidate, ping, pong, user_online, user_offline,
  of_byte, make_packet,
}
use nullchat.Protocol.Framing.{drain}
use nullchat.Protocol.Framing.Stream.{drain_induction, drain_waiting, drain_mismatch, drain_packet}
use nullchat.Database.{login_user}
use nullchat.Database.Messages.{messages-login_user, messages-register_user}
use nullchat.Server.State.{Server, find_session, set_session}
use nullchat.Server.Groups.{get_user_groups}
use nullchat.Server.Handlers.{
  presence, send_to, accept_login, on_authenticated, handle_auth_login, handle_auth_register,
  handle_text_message, dispatch, handle_packet,
}
use nullchat.Server.Frame.{send_packet-Same, broadcast_to_group-Same, messages-get_user_groups_info}
use nullchat.Server.Frame.Handlers.{
  handle_text_message-Same, handle_group_message-Same, handle_create_group-Same,
  handle_join_group-Same, handle_p2p_offer-Same, handle_p2p_answer-Same,
  handle_p2p_ice_candidate-Same,
}
use nullchat.Server.Events.{
  on_new_connection, on_session_disconnected, on_ready_read, on_disconnected, Event, connects,
  receives, handles, disconnects, step,
}
use nullchat.Server.Reachable.{Reach}
use nullchat.Server.Reachable

-- The message table of the second server is that of the first.
abbrev Kept : Server → Server → Type 0
Kept w w' = w'.db.messages ≡ w.db.messages

accept_login-Kept :
    (q : Qt) (h : ℕ) (id username : Str) (w : Server) → Kept w (accept_login q h id username w)
unfolding accept_login on_authenticated set_session
accept_login-Kept q h id username w =
    let s = record (w.objects h) { authenticated = true; user_id = id; username = username } in
    let known = set_session h s w in
    let (groups, db) = get_user_groups known.db id in
    let registered = on_authenticated id h (record known { db = db }) in
    let pkt = make_packet user_online (q.print (presence q id username true)) in
    let told = broadcast_to_group-Same q [] id pkt registered in
    let answered = send_packet-Same q h auth_response _ _ in
    answered.messages ∙ told.messages ∙ messages-get_user_groups_info w.db id

module _ (q : Qt) (ssl : OpenSsl) where
  handle_auth_login-Kept :
      (h : ℕ) (json : Str) (w : Server) → Kept w (handle_auth_login q ssl h json w)
  unfolding handle_auth_login
  handle_auth_login-Kept h json w =
      let username = string_at q (q.parse json) "username" in
      let password = string_at q (q.parse json) "password" in
      let r = login_user ssl w.db username password in
      let kept = messages-login_user ssl w.db username password in
      elim (Bool-cases r.0) [
        | inl done ↦ rw done (accept_login-Kept q h r.1 username (record w { db = r.2 }) ∙ kept)
        | inr failed ↦ rw failed ((send_packet-Same q h auth_response _ _).messages ∙ kept)
      ]

  handle_auth_register-Kept :
      (h : ℕ) (json : Str) (w : Server) → Kept w (handle_auth_register q ssl h json w)
  unfolding handle_auth_register
  handle_auth_register-Kept h json w =
      (send_packet-Same q h auth_response _ _).messages ∙ messages-register_user q ssl w.db _ _

  dispatch-Kept :
      (t : MessageType) (h : ℕ) (body : Str) (w : Server) → Kept w (dispatch q ssl t h body w)
  unfolding dispatch
  dispatch-Kept auth_login h body w = handle_auth_login-Kept h body w
  dispatch-Kept auth_register h body w = handle_auth_register-Kept h body w
  dispatch-Kept text_message h body w = (handle_text_message-Same q h body w).messages
  dispatch-Kept group_message h body w = (handle_group_message-Same q h body w).messages
  dispatch-Kept create_group h body w = (handle_create_group-Same q h body w).messages
  dispatch-Kept join_group h body w = (handle_join_group-Same q h body w).messages
  dispatch-Kept p2p_offer h body w = (handle_p2p_offer-Same q h body w).messages
  dispatch-Kept p2p_answer h body w = (handle_p2p_answer-Same q h body w).messages
  dispatch-Kept p2p_ice_candidate h body w = (handle_p2p_ice_candidate-Same q h body w).messages
  dispatch-Kept ping h body w = (send_packet-Same q h pong _ w).messages
  dispatch-Kept _ h body w = refl

  handle_packet-Kept :
      (h type : ℕ) (body : Str) (w : Server) → Kept w (handle_packet q ssl h type body w)
  unfolding handle_packet
  handle_packet-Kept h type body w = dispatch-Kept (of_byte type) h body w

  drain-Kept :
      (h : ℕ) (b : Str) (w : Server) → Kept w (drain (λ n. n) (handle_packet q ssl h) b w).state
  drain-Kept h b w =
      let handle = handle_packet q ssl h in
      drain_induction (λ n. n) handle (λ b w. Kept w (drain (λ n. n) handle b w).state)
        (λ b w e. rw (drain_waiting (λ n. n) handle b w e) refl)
        (λ b w e. rw (drain_mismatch (λ n. n) handle b w e) refl)
        (λ b w type body rest e ih.
          rw (drain_packet (λ n. n) handle b w e) (ih ∙ handle_packet-Kept h type body w))
        (length b) b w (omega arith)

  on_new_connection-Kept : (pending : List Bool) (w : Server) → Kept w (on_new_connection pending w)
  unfolding on_new_connection set_session
  on_new_connection-Kept [] w = refl
  on_new_connection-Kept (true ∷ pending) w = on_new_connection-Kept pending _
  on_new_connection-Kept (false ∷ pending) w = on_new_connection-Kept pending w

  on_ready_read-Kept : (h : ℕ) (chunk : Str) (w : Server) → Kept w (on_ready_read q ssl h chunk w)
  unfolding on_ready_read set_session
  on_ready_read-Kept h chunk w =
      let r = drain (λ n. n) (handle_packet q ssl h) ((w.objects h).read_buffer ++ chunk) w in
      let handled = drain-Kept h ((w.objects h).read_buffer ++ chunk) w in
      elim (Bool-cases r.closed) [ inl stop ↦ rw stop handled | inr open' ↦ rw open' handled ]

  on_disconnected-Kept : (h : ℕ) (w : Server) → Kept w (on_disconnected q h w)
  unfolding on_disconnected on_session_disconnected set_session
  on_disconnected-Kept h w =
      let s = w.objects h in
      let pkt = make_packet user_offline (q.print (presence q s.user_id s.username false)) in
      elim (Bool-cases (is_empty s.user_id)) [
        | inl unnamed ↦ rw unnamed refl
        | inr named ↦ rw named (broadcast_to_group-Same q [] s.user_id pkt w).messages
      ]

  step-Kept : (w : Server) (e : Event) → Kept w (step q ssl w e)
  unfolding step
  step-Kept w (connects pending) = on_new_connection-Kept pending w
  step-Kept w (receives h chunk) = on_ready_read-Kept h chunk w
  step-Kept w (handles h type body) = handle_packet-Kept h type body w
  step-Kept w (disconnects h) = on_disconnected-Kept h w

  Reach-Kept : {start w : Server} → Reach q ssl start w → Kept start w
  Reach-Kept Reachable.here = refl
  Reach-Kept (Reachable.next {w = v} r e a) = step-Kept v e ∙ Reach-Kept r

  -- No message is kept for later. Whatever socket events the server has gone through, its message
  -- table is what it was at the start; and a direct message, of whatever session, to somebody who is
  -- not in the registry is dropped: it changes nothing and nothing is sent, to the sender neither.
  pub handle_text_message-Reach :
      {start w : Server} (h : ℕ) (json : Str)
      → Reach q ssl start w
      → find_session w (string_at q (q.parse json) "recipient_id") ≡ none
      → (w.db.messages ≡ start.db.messages) × (handle_text_message q h json w ≡ w)
  unfolding handle_text_message send_to
  handle_text_message-Reach h json r absent = (Reach-Kept r, ground arith)
