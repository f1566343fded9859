-- ===== src/Client/Connect.antt =====
-- src/client/network/ClientNetwork.cpp: `connectAndLogin` and `connectAndRegister`, which block
-- until the server has answered.
use nullchat.Base.{Str, text, is_empty, Bool, false, Option, none, some, ◌++◌, if◌then◌else◌}
use nullchat.Qt.{Qt}
use nullchat.Qt.Json.{put_string}
use nullchat.Protocol.{MessageType, auth_login, auth_register}
use nullchat.Protocol.Framing.{waiting, mismatch, packet, next_frame}
use nullchat.Client.{Client, auth_error, emit, send_packet, credentials}
use nullchat.Client.Receive.{on_error, on_disconnected, on_connected, take_answer, on_ready_read}

-- What the network does during the call: whether `waitForConnected` succeeds and the socket's error
-- text if not, the bytes for which `waitForReadyRead` emits `readyRead` before it returns (none if
-- it times out), and what the two later calls of `readAll` return.
pub record Network : Type 0 where
  pub connects : Bool
  pub error_string : Str
  pub answer : Option Str
  pub later : Str
  pub last : Str

-- A connected socket that is aborted emits `disconnected`.
abbrev pub abort : Client → Client
abort c = if c.online then on_disconnected c else c

-- `connectToHost` comes back at once; `connected` or an error follows as an event of its own.
unfoldable pub connect_to_server : Client → Client
connect_to_server c = abort c

module _ (q : Qt) (net : Network) where
  -- The part behind `readAll` in the two functions. The packet's type is not looked at.
  unfoldable pub read_answer : Client → Bool × Client
  unfolding take_answer on_ready_read
  read_answer c = elim (next_frame q.from_big_endian c.read_buffer) [
    | packet type body rest ↦ take_answer q (q.parse body) (record c { read_buffer = rest })
    | waiting ↦ let done = on_ready_read q net.last c in (done.authenticated, done)
    | mismatch ↦ let done = on_ready_read q net.last c in (done.authenticated, done)
  ]

  -- The part that the two functions share: connect, send the credentials, wait for the answer.
  unfoldable pub connect_and_send : MessageType → Str → Client → Bool × Client
  unfolding read_answer on_error on_connected send_packet on_ready_read
  connect_and_send type body c =
      let up = send_packet q type body (on_connected q (abort c)) in
      if net.connects
      then elim net.answer [
        | none ↦ (false, emit (auth_error (text "No response from server")) up)
        | some bytes ↦
            let read = on_ready_read q bytes up in
            read_answer (record read { read_buffer = read.read_buffer ++ net.later })
      ]
      else (
        false,
        emit (auth_error (text "Connection failed: " ++ net.error_string))
            (on_error net.error_string (abort c)),
      )

  unfoldable pub connect_and_login : Str → Str → Str → Client → Bool × Client
  unfolding connect_and_send credentials
  connect_and_login username password public_key c =
      connect_and_send auth_login (q.print (credentials q username password public_key)) c

  unfoldable pub connect_and_register : Str → Str → Str → Str → Client → Bool × Client
  unfolding connect_and_send credentials
  connect_and_register username password public_key invite_password c =
      let obj = credentials q username password public_key in
      let invited =
        if is_empty invite_password
        then obj
        else put_string q obj "invite_password" invite_password in
      connect_and_send auth_register (q.print invited) c
