-- ===== src/Server/Events.antt =====
-- What the sockets of the server do to it: `Server::onNewConnection`, `Session::onReadyRead` and
-- `Session::onDisconnected`, and sequences of such events.
use nullchat.Base.{ℕ, suc, Str, is_empty, Bool, false, List, [], ◌∷◌, ◌++◌, if◌then◌else◌}
use nullchat.Base.Map.{erase}
use nullchat.Qt.{Qt}
use nullchat.Crypto.{OpenSsl}
use nullchat.Protocol.{user_offline, make_packet}
use nullchat.Protocol.Framing.{drain}
use nullchat.Server.State.{Server, new_session, set_session}
use nullchat.Server.Groups.{broadcast_to_group}
use nullchat.Server.Handlers.{presence, handle_packet}

-- The loop over `nextPendingConnection()`; a connection is given by whether its socket is a
-- `QSslSocket`. Another socket is dropped.
unfoldable pub on_new_connection : List Bool → Server → Server
unfolding set_session
on_new_connection [] w = w
on_new_connection (ssl_socket ∷ pending) w = on_new_connection pending (
    if ssl_socket
    then record (set_session w.created new_session w) { created = suc w.created }
    else w)

-- `Server::onSessionDisconnected`
unfoldable pub on_session_disconnected : Str → Server → Server
on_session_disconnected user_id w = record w { registry = erase user_id w.registry }

module _ (q : Qt) where
  unfoldable pub on_disconnected : ℕ → Server → Server
  unfolding on_session_disconnected set_session presence
  on_disconnected h w =
      let s = w.objects h in
      let pkt = make_packet user_offline (q.print (presence q s.user_id s.username false)) in
      let told = if is_empty s.user_id then w else broadcast_to_group q [] s.user_id pkt w in
      let erased = on_session_disconnected s.user_id told in
      set_session h (record (erased.objects h) { socket = false }) erased

module _ (q : Qt) (ssl : OpenSsl) where
  -- `chunk` is what `readAll` gives. The header's length is taken as it lies in memory.
  unfoldable pub on_ready_read : ℕ → Str → Server → Server
  unfolding set_session
  on_ready_read h chunk w =
      let buffer = (w.objects h).read_buffer ++ chunk in
      let r = drain (λ n. n) (handle_packet q ssl h) buffer w in
      let kept = set_session h (record (r.state.objects h) { read_buffer = r.buffer }) r.state in
      if r.closed then record kept { closing = h ∷ kept.closing } else kept

pub data Event : Type 0 where
  connects : List Bool → Event
  receives : ℕ → Str → Event
  handles : ℕ → ℕ → Str → Event
  disconnects : ℕ → Event

module _ (q : Qt) (ssl : OpenSsl) where
  -- `handles` is one packet of a session by itself, `receives` are bytes on its socket.
  unfoldable pub step : Server → Event → Server
  step w (connects pending) = on_new_connection pending w
  step w (receives h chunk) = on_ready_read q ssl h chunk w
  step w (handles h type body) = handle_packet q ssl h type body w
  step w (disconnects h) = on_disconnected q h w

  unfoldable pub run : Server → List Event → Server
  unfolding step
  run w [] = w
  run w (e ∷ es) = run (step w e) es
