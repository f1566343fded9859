-- ===== src/Client/Register.antt =====
-- `connectAndRegister` when the server answers in one piece that it has made the account.
use nullchat.Base.{
  ◌≡◌, ◌<◌, ◌^◌, refl, sym, ap, ◌∙◌, Str, text, is_empty, true, false, some, [], ◌∷◌, ◌++◌, length,
  append-nil, if◌then◌else◌,
}
use nullchat.Qt.{Qt, IsQt}
use nullchat.Qt.Json.{string_at, put_string}
use nullchat.Protocol.{auth_register, auth_response, to_byte, make_packet, serialize}
use nullchat.Protocol.Framing.Delivery.{stream}
use nullchat.Client.{Client, auth_success, emit, send_packet, credentials}
use nullchat.Client.Receive.{on_connected, handle_packet, on_ready_read}
use nullchat.Client.Answers.{accepted_lem}
use nullchat.Client.Connect.{Network, abort, read_answer, connect_and_send, connect_and_register}
use nullchat.Client.Login.{on_ready_read-stream, read_answer_idle, read_buffer-send_packet}

module _ (q : Qt) (lawful : IsQt q) where
  -- The text of the answer.
  abbrev pub register_response : Str
  register_response = q.print (put_string q q.empty "status" (text "ok"))

  -- The client that such an answer leaves behind.
  abbrev pub registered : Client → Client
  registered c = emit (auth_success [] []) (record c {
    user_id = [];
    username = [];
    is_null = false;
    authenticated = true;
    initial_groups = [];
    pending_username = [];
    pending_password = [];
    read_buffer = [];
  })

  handle_packet-register_response :
      (c : Client)
      → handle_packet q 2 register_response c
        ≡ emit (auth_success [] []) (record c {
          user_id = [];
          username = [];
          is_null = false;
          authenticated = true;
          initial_groups = [];
          pending_username = [];
          pending_password = [];
        })
  handle_packet-register_response c =
      let resp = put_string q q.empty "status" (text "ok") in
      let status : string_at q (q.parse register_response) "status" ≡ text "ok" =
        rw lawful.parse-print
          (ap q.to_string (simp lawful.at-insert) ∙ lawful.to_string-string (text "ok")) in
      let user : string_at q (q.parse register_response) "user_id" ≡ [] =
        rw lawful.parse-print
          (ap q.to_string (simp lawful.at-insert) ∙ lawful.to_string-empty "user_id") in
      let name : string_at q (q.parse register_response) "username" ≡ [] =
        rw lawful.parse-print
          (ap q.to_string (simp lawful.at-insert) ∙ lawful.to_string-empty "username") in
      let null : q.to_bool (q.at (q.parse register_response) "is_null") ≡ false =
        rw lawful.parse-print
          (ap q.to_bool (simp lawful.at-insert) ∙ lawful.to_bool-empty "is_null") in
      let none' : q.to_array (q.at (q.parse register_response) "groups") ≡ [] =
        rw lawful.parse-print
          (ap q.to_array (simp lawful.at-insert) ∙ lawful.to_array-empty "groups") in
      accepted_lem q lawful register_response c status ∙ rw (user, name, null, none') refl

  answer_read :
      (net : Network) (c : Client)
      → let read = on_ready_read q (serialize q (make_packet auth_response register_response)) c in
        net.later ≡ []
        → net.last ≡ []
        → length register_response < 2 ^ 32
        → c.read_buffer ≡ []
        → read_answer q net (record read { read_buffer = read.read_buffer ++ net.later })
          ≡ (true, registered c)
  unfolding to_byte make_packet read_answer
  answer_read net c later last fits empty =
      let pkt = make_packet auth_response register_response in
      let arrives : c.read_buffer ++ serialize q pkt ≡ stream q (pkt ∷ []) =
        rw empty (sym (append-nil (serialize q pkt))) in
      let read = on_ready_read-stream q lawful (pkt ∷ []) (serialize q pkt) c (fits, tt) arrives in
      rw (read, later, handle_packet-register_response c)
        (read_answer_idle q lawful net (registered c) last refl)

  -- The client that has sent the credentials.
  abbrev pub enrolling : Str → Str → Str → Str → Client → Client
  enrolling username password public_key invite_password c =
      let obj = credentials q username password public_key in
      let invited =
        if is_empty invite_password
        then obj
        else put_string q obj "invite_password" invite_password in
      send_packet q auth_register (q.print invited) (on_connected q (abort c))

  pub connect_and_register_accepted :
      (net : Network) (username password public_key invite_password : Str) (c : Client)
      → net.connects ≡ true
      → net.answer ≡ some (serialize q (make_packet auth_response register_response))
      → net.later ≡ []
      → net.last ≡ []
      → length register_response < 2 ^ 32
      → c.read_buffer ≡ []
      → connect_and_register q net username password public_key invite_password c
        ≡ (true, registered (enrolling username password public_key invite_password c))
  unfolding connect_and_register connect_and_send read_answer
  connect_and_register_accepted net username password public_key invite_password c up answer later
        last fits empty =
      let obj = credentials q username password public_key in
      let invited =
        if is_empty invite_password
        then obj
        else put_string q obj "invite_password" invite_password in
      let clear = read_buffer-send_packet q lawful auth_register (q.print invited) c ∙ empty in
      let sent = enrolling username password public_key invite_password c in
      rw (up, answer, answer_read net sent later last fits clear) refl
