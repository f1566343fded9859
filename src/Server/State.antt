-- ===== src/Server/State.antt =====
-- The state of src/server/Server.h and src/server/Session.h, `Server::findSession`, and writes to
-- sockets.
use nullchat.Base.{ℕ, Str, Bool, true, false, Option, List, [], ◌∷◌, ◌++◌, eqb, if◌then◌else◌}
use nullchat.Base.Map.{Map, find}
use nullchat.Qt.{Qt}
use nullchat.Protocol.{MessageType, make_packet, serialize}
use nullchat.Database.{Database}

-- `socket` is false once `onDisconnected` has set the pointer to null.
pub record Session : Type 0 where
  pub user_id : Str
  pub username : Str
  pub authenticated : Bool
  pub read_buffer : Str
  pub socket : Bool

-- Session objects are numbered in the order of their creation; `registry` is `sessions_`. `sent`
-- is what has been written to each session's socket, oldest first, `closing` the sessions whose
-- socket has been told to disconnect. `crashed` says that a null socket has been written to.
pub record Server : Type 0 where
  pub db : Database
  pub registry : Map ℕ
  pub objects : ℕ → Session
  pub created : ℕ
  pub sent : List (ℕ × Str)
  pub closing : List ℕ
  pub crashed : Bool

-- A session as its constructor leaves it.
abbrev pub new_session : Session
new_session = record {
  user_id = [];
  username = [];
  authenticated = false;
  read_buffer = [];
  socket = true;
}

abbrev pub initial : Database → Server
initial db = record {
  db = db;
  registry = [];
  objects = λ h. new_session;
  created = 0;
  sent = [];
  closing = [];
  crashed = false;
}

unfoldable pub set_session : ℕ → Session → Server → Server
set_session h s w = record w { objects = λ i. if eqb i h then s else w.objects i }

unfoldable pub find_session : Server → Str → Option ℕ
find_session w user_id = find user_id w.registry

unfoldable pub send_raw : ℕ → Str → Server → Server
send_raw h bytes w =
    if (w.objects h).socket
    then record w { sent = w.sent ++ (h, bytes) ∷ [] }
    else record w { crashed = true }

module _ (q : Qt) where
  unfoldable pub send_packet : ℕ → MessageType → Str → Server → Server
  unfolding send_raw
  send_packet h type body w = send_raw h (serialize q (make_packet type body)) w
