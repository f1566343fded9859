-- ===== src/Server/Frame/Handlers.antt =====
-- The handlers that keep the sessions, the registry, the users and the messages: all but the two of
-- authentication.
use nullchat.Base.{ℕ, Str, arith}
use nullchat.Qt.{Qt}
use nullchat.Database.Users.{users-add_member, users-create_group}
use nullchat.Database.Messages.{messages-add_member, messages-create_group}
use nullchat.Server.State.{Server}
use nullchat.Server.Groups.{add_member}
use nullchat.Server.Groups
use nullchat.Server.Handlers.{
  handle_text_message, handle_group_message, handle_create_group, handle_join_group,
  handle_p2p_offer, handle_p2p_answer, handle_p2p_ice_candidate,
}
use nullchat.Server.Frame.{Same, send_packet-Same, broadcast_to_group-Same, send_to-Same}

module _ (q : Qt) where
  pub handle_text_message-Same :
      (h : ℕ) (json : Str) (w : Server) → Same w (handle_text_message q h json w)
  unfolding handle_text_message
  handle_text_message-Same h json w = grind (arith, send_to-Same)

  pub handle_group_message-Same :
      (h : ℕ) (json : Str) (w : Server) → Same w (handle_group_message q h json w)
  unfolding handle_group_message
  handle_group_message-Same h json w = grind (arith, broadcast_to_group-Same)

  pub handle_create_group-Same :
      (h : ℕ) (json : Str) (w : Server) → Same w (handle_create_group q h json w)
  unfolding handle_create_group Groups.create_group
  handle_create_group-Same h json w =
      grind (arith, send_packet-Same, users-create_group, messages-create_group)

  pub handle_join_group-Same :
      (h : ℕ) (json : Str) (w : Server) → Same w (handle_join_group q h json w)
  unfolding handle_join_group add_member
  handle_join_group-Same h json w =
      grind (arith, send_packet-Same, users-add_member, messages-add_member)

  pub handle_p2p_offer-Same :
      (h : ℕ) (json : Str) (w : Server) → Same w (handle_p2p_offer q h json w)
  unfolding handle_p2p_offer
  handle_p2p_offer-Same h json w = grind (arith, send_to-Same)

  pub handle_p2p_answer-Same :
      (h : ℕ) (json : Str) (w : Server) → Same w (handle_p2p_answer q h json w)
  unfolding handle_p2p_answer
  handle_p2p_answer-Same h json w = grind (arith, send_to-Same)

  pub handle_p2p_ice_candidate-Same :
      (h : ℕ) (json : Str) (w : Server) → Same w (handle_p2p_ice_candidate q h json w)
  unfolding handle_p2p_ice_candidate
  handle_p2p_ice_candidate-Same h json w = grind (arith, send_to-Same)
