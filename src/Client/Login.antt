-- ===== src/Client/Login.antt =====
-- `connectAndLogin` when the server answers in one piece.
use nullchat.Base.{
  All, ◌≡◌, ◌<◌, ◌^◌, refl, sym, ◌∙◌, Str, true, false, some, List, [], ◌∷◌, ◌++◌, map, length,
  append-nil, arith,
}
use nullchat.Qt.{Qt, IsQt}
use nullchat.Protocol.{
  MessageType, Packet, auth_login, auth_response, to_byte, make_packet, serialize,
}
use nullchat.Protocol.Bytes.{Fits}
use nullchat.Protocol.Framing.{drain, next_frame, read_loop}
use nullchat.Protocol.Framing.Delivery.{stream, handle_all, drain-stream}
use nullchat.Server.Groups.{GroupInfo}
use nullchat.Server.Handlers.{login_response}
use nullchat.Client.{Client, auth_success, emit, send_packet, credentials, send_login_or_register}
use nullchat.Client.Receive.{on_connected, handle_packet, on_ready_read, on_disconnected}
use nullchat.Client.Answers.{handle_packet-login_response}
use nullchat.Client.Connect.{Network, abort, read_answer, connect_and_send, connect_and_login}

module _ (q : Qt) (lawful : IsQt q) where
  -- When the bytes that arrive complete a stream of packets with bodies of less than 2 ^ 32 bytes,
  -- the client handles these packets one by one and in order, and then its buffer is empty; it does
  -- not close the connection.
  pub on_ready_read-stream :
      (ps : List Packet) (bytes : Str) (c : Client)
      → All Fits ps
      → c.read_buffer ++ bytes ≡ stream q ps
      → on_ready_read q bytes c ≡ record (handle_all (handle_packet q) ps c) { read_buffer = [] }
  unfolding on_ready_read drain read_loop
  on_ready_read-stream ps bytes c fit complete =
      let read = drain-stream q lawful (handle_packet q) ps [] c fit in
      rw (complete) (rw⁻¹ (append-nil (stream q ps)) (rw read refl))

  -- The connection and the credentials that go out leave the buffer alone.
  pub read_buffer-send_packet :
      (type : MessageType) (body : Str) (c : Client)
      → (send_packet q type body (on_connected q (abort c))).read_buffer ≡ c.read_buffer
  unfolding send_packet on_connected send_login_or_register on_disconnected
  read_buffer-send_packet type body c = ground arith

  -- With nothing in the buffer and nothing more to come, the answer has been handled before.
  pub read_answer_idle :
      (net : Network) (c : Client)
      → net.last ≡ []
      → c.read_buffer ≡ []
      → read_answer q net c ≡ (c.authenticated, c)
  unfolding read_answer on_ready_read drain read_loop next_frame
  read_answer_idle net c last empty = ground arith

  -- The client that the answer to a login leaves behind.
  abbrev pub logged_in : Str → Str → List GroupInfo → Client → Client
  logged_in id name groups c = emit (auth_success id name) (record c {
    user_id = id;
    username = name;
    is_null = false;
    authenticated = true;
    initial_groups = map (λ g. record { id = g.id; name = g.name }) groups;
    pending_username = [];
    pending_password = [];
    read_buffer = [];
  })

  answer_read :
      (net : Network) (id name : Str) (groups : List GroupInfo) (c : Client)
      → let body = q.print (login_response q id name groups) in
        let read = on_ready_read q (serialize q (make_packet auth_response body)) c in
        net.later ≡ []
        → net.last ≡ []
        → length body < 2 ^ 32
        → c.read_buffer ≡ []
        → read_answer q net (record read { read_buffer = read.read_buffer ++ net.later })
          ≡ (true, logged_in id name groups c)
  unfolding to_byte make_packet read_answer
  answer_read net id name groups c later last fits empty =
      let body = q.print (login_response q id name groups) in
      let pkt = make_packet auth_response body in
      let arrives : c.read_buffer ++ serialize q pkt ≡ stream q (pkt ∷ []) =
        rw empty (sym (append-nil (serialize q pkt))) in
      let read = on_ready_read-stream (pkt ∷ []) (serialize q pkt) c (fits, tt) arrives in
      let taken = handle_packet-login_response q lawful id name groups c in
      rw (read, later, taken) (read_answer_idle net (logged_in id name groups c) last refl)

  -- The call as a whole, with the client that has sent the credentials.
  abbrev pub asking : Str → Str → Str → Client → Client
  asking username password public_key c =
      send_packet q auth_login (q.print (credentials q username password public_key))
        (on_connected q (abort c))

  pub connect_and_login_accepted :
      (net : Network) (username password public_key id name : Str) (groups : List GroupInfo)
      (c : Client)
      → let body = q.print (login_response q id name groups) in
        net.connects ≡ true
        → net.answer ≡ some (serialize q (make_packet auth_response body))
        → net.later ≡ []
        → net.last ≡ []
        → length body < 2 ^ 32
        → c.read_buffer ≡ []
        → connect_and_login q net username password public_key c
          ≡ (true, logged_in id name groups (asking username password public_key c))
  unfolding connect_and_login connect_and_send read_answer
  connect_and_login_accepted net username password public_key id name groups c up answer later last
        fits empty =
      let obj = q.print (credentials q username password public_key) in
      let clear = read_buffer-send_packet auth_login obj c ∙ empty in
      let sent = asking username password public_key c in
      rw (up, answer, answer_read net id name groups sent later last fits clear) refl

  -- If the connection comes up, the buffer is empty, and the server's answer to the login arrives
  -- in one piece, with a body of less than 2 ^ 32 bytes and nothing behind it, then
  -- `connectAndLogin` returns true, and the client has the id, the name and the groups of the
  -- answer, is authenticated, and its buffer is empty.
  pub connect_and_login-login_response :
      (net : Network) (username password public_key id name : Str) (groups : List GroupInfo)
      (c : Client)
      → let body = q.print (login_response q id name groups) in
        let (done, c') = connect_and_login q net username password public_key c in
        net.connects ≡ true
        → net.answer ≡ some (serialize q (make_packet auth_response body))
        → net.later ≡ []
        → net.last ≡ []
        → length body < 2 ^ 32
        → c.read_buffer ≡ []
        → (done ≡ true)
          × (c'.authenticated ≡ true)
          × (c'.user_id ≡ id)
          × (c'.username ≡ name)
          × (c'.initial_groups ≡ map (λ g. record { id = g.id; name = g.name }) groups)
          × (c'.read_buffer ≡ [])
  connect_and_login-login_response net username password public_key id name groups c up answer later
        last fits empty =
      let done =
        connect_and_login_accepted net username password public_key id name groups c up answer later
          last fits empty in
      rw done (refl, refl, refl, refl, refl, refl)
