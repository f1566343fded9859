-- ===== src/Server/Examples.antt =====
-- A server with a few sessions.
use nullchat.Base.{
  ◌==◌, ℕ, ◌≡◌, refl, Str, Str-discrete, true, false, none, some, List, [], ◌∷◌, ◌++◌, any, eqb,
  inl, inr, arith, if◌then◌else◌,
}
use nullchat.Base.Map.{find, insert}
use nullchat.Qt.Sample.{sample as qt}
use nullchat.Qt.Json.{string_at, put_string}
use nullchat.Crypto.{sha256}
use nullchat.Crypto.Sample.{sample as ssl}
use nullchat.Protocol.{
  Packet, text_message, auth_response, of_byte, make_packet, serialize, read_header,
}
use nullchat.Database.{Database, login_user, get_group_members, join_groups}
use nullchat.Database
use nullchat.Server.State.{Session, Server, new_session, initial, find_session, send_packet}
use nullchat.Server.Lifecycle.{Life, default_configuration, stop, sessions_of, stop_lem}
use nullchat.Server.Groups.{GroupInfo, broadcast_to_group, get_user_groups}
use nullchat.Server.Handlers.{
  handle_packet, dispatch, accept_login, handle_text_message, handle_join_group, handle_auth_login,
  login_response,
}
use nullchat.Server.Events.{
  on_ready_read, on_new_connection, on_disconnected, connects, handles, step,
}
use nullchat.Server.Identity.{Genuine}
use nullchat.Server.Reachable.{here, next, Reach-Genuine}
use nullchat.Server.Isolation.{IsOpenType, passes, waits, on_ready_read_unauthenticated}
use nullchat.Protocol.Framing.{next_frame, packet, waiting}
use nullchat.Server.Delivery.{AllLive}
use nullchat.Server.Login.{handle_auth_login_accepts}
use nullchat.Server.Sockets.{on_disconnected_lem, on_disconnected_stale}
use nullchat.Server.Unstored.{handle_text_message-Reach}
use nullchat.Server.Presence.{received, handle_join_group_presence}

abbrev alice : Str
alice = b'a' ∷ []

abbrev bob : Str
bob = b'b' ∷ []

-- The stored hash of the password 5.
abbrev hash : Str
hash = sha256 ssl (5 ∷ [])

abbrev db : Database
db = record {
  users = record { id = alice; username = alice; password_hash = hash; public_key = none } ∷ [];
  groups = record { id = 3 ∷ []; name = 4 ∷ []; owner_id = alice } ∷ [];
  members =
      record { user_id = alice; group_id = 3 ∷ []; encrypted_symmetric_key = [] }
      ∷ record { user_id = bob; group_id = 3 ∷ []; encrypted_symmetric_key = [] }
      ∷ [];
  messages = [];
  uuids = 0;
  faults = [];
}

abbrev session_of : Str → Session
session_of id = record new_session { user_id = id; username = id; authenticated = true }

-- Alice has session 0, Bob session 1; session 2 has not logged in.
abbrev busy : Server
busy = record (initial db) {
  registry = (alice, 0) ∷ (bob, 1) ∷ [];
  objects =
      λ i. if eqb i 0 then session_of alice else if eqb i 1 then session_of bob else new_session;
  created = 3;
}

abbrev credentials : Str
credentials = qt.print (put_string qt (put_string qt qt.empty "username" alice) "password" (5 ∷ []))

abbrev to_user : Str → Str
to_user id = qt.print (put_string qt qt.empty "recipient_id" id)

abbrev news : Packet
news = make_packet text_message (1 ∷ [])

-- Two connections, and a login on the second.
Reach-Genuine_example : Genuine (
    step qt ssl
      (step qt ssl (step qt ssl (initial db) (connects (true ∷ []))) (connects (false ∷ true ∷ [])))
      (handles 1 0 credentials))
unfolding step on_new_connection
Reach-Genuine_example = Reach-Genuine qt ssl db (
    next (next (next here (connects (true ∷ [])) tt) (connects (false ∷ true ∷ [])) tt)
      (handles 1 0 credentials) (omega arith))

text_message_closed : ¬ IsOpenType (of_byte 3)
unfolding of_byte
text_message_closed (inl e) = cc
text_message_closed (inr (inl e)) = cc
text_message_closed (inr (inr e)) = cc

-- A text message with the body "{}" and then the start of a header.
abbrev knock : Str
knock = 2 ∷ 0 ∷ 0 ∷ 0 ∷ 3 ∷ 1 ∷ b'{' ∷ b'}' ∷ 1 ∷ []

first : next_frame (λ n. n) knock ≡ packet 3 (b'{' ∷ b'}' ∷ []) (1 ∷ [])
unfolding next_frame read_header
first = refl

last : next_frame (λ n. n) (1 ∷ []) ≡ waiting
unfolding next_frame read_header
last = refl

on_ready_read_unauthenticated_example :
    let w' = on_ready_read qt ssl 2 knock busy in
    (w'.sent ≡ busy.sent)
    × (w'.db ≡ busy.db)
    × (w'.registry ≡ busy.registry)
    × (w'.crashed ≡ busy.crashed)
    × ((i : ℕ)
        → w'.objects i ≡ (
            if eqb i 2
            then record (busy.objects 2) { read_buffer = (w'.objects 2).read_buffer }
            else busy.objects i))
on_ready_read_unauthenticated_example =
    on_ready_read_unauthenticated qt ssl 2 knock busy refl
      (passes 3 (b'{' ∷ b'}' ∷ []) (1 ∷ []) first text_message_closed (waits last))

busy-AllLive : AllLive busy
busy-AllLive id h e = ground arith

accepted :
    login_user ssl busy.db
      (string_at qt (qt.parse credentials) "username")
      (string_at qt (qt.parse credentials) "password")
    ≡ (true, alice, db)
unfolding login_user qt
accepted = ground arith

handle_auth_login_accepts_example :
    let name = string_at qt (qt.parse credentials) "username" in
    let w' = handle_auth_login qt ssl 2 credentials busy in
    (find_session w' alice ≡ some 2)
    × ((w'.objects 2).authenticated ≡ true)
    × ((w'.objects 2).user_id ≡ alice)
    × ((w'.objects 2).username ≡ name)
    × ((groups : List GroupInfo) × (earlier : List (ℕ × Str)) × (w'.sent
          ≡ earlier
            ++ (
              2,
              serialize qt
                  (make_packet auth_response (qt.print (login_response qt alice name groups))),
            )
              ∷ []))
handle_auth_login_accepts_example =
    handle_auth_login_accepts qt ssl 2 credentials busy alice db accepted refl

-- Alice again, on session 2.
abbrev twice : Server
twice = record busy {
  registry = (alice, 2) ∷ (bob, 1) ∷ [];
  objects = λ i. if eqb i 1 then session_of bob else session_of alice;
}

found_second : find_session twice alice ≡ some 2
unfolding find_session find Str-discrete
found_second = refl

read_recipient : string_at qt (qt.parse (to_user alice)) "recipient_id" ≡ alice
unfolding qt Str-discrete
read_recipient = refl

-- Session 0 was Alice before it became Carol.
abbrev renamed : Server
renamed = record busy { objects = λ i. if eqb i 1 then session_of bob else session_of (b'c' ∷ []) }

found_first : find_session renamed alice ≡ some 0
unfolding find_session find Str-discrete
found_first = refl

on_disconnected_stale_example :
    (handle_text_message qt 1 (to_user alice) (on_disconnected qt 0 renamed)).crashed ≡ true
on_disconnected_stale_example =
    on_disconnected_stale qt 0 1 alice (to_user alice) renamed found_first (ground arith)
      (omega arith) refl read_recipient

no_group : string_at qt (qt.parse (qt.print qt.empty)) "group_id" ≡ []
unfolding qt
no_group = refl

found_alice : find_session busy alice ≡ some 0
unfolding find_session find Str-discrete
found_alice = refl

handle_join_group_presence_example :
    received 0
      (serialize qt news)
      (broadcast_to_group qt [] bob news (handle_join_group qt 0 (qt.print qt.empty) busy))
    ≡ true
handle_join_group_presence_example =
    handle_join_group_presence qt 0 (qt.print qt.empty) bob news busy refl refl no_group refl
      found_alice (ground arith)

-- A server of which session 0 has logged in under two ids.
abbrev stopping : Life
stopping = record {
  server = record (initial db) { registry = (alice, 0) ∷ (bob, 0) ∷ []; created = 1 };
  database_open = true;
  listening = true;
  tls = default_configuration;
  signals = [];
  deleted = [];
  undefined = false;
}

stop_lem_example :
    ((stop stopping).server.registry ≡ [])
    × ((stop stopping).listening ≡ false)
    × ((stop stopping).database_open ≡ false)
    × ((h : ℕ)
        → any (eqb h) (stop stopping).deleted ≡ any (eqb h) (sessions_of stopping.server.registry))
    × ((stop stopping).undefined ≡ true)
stop_lem_example = stop_lem stopping refl refl

-- Alice logs in on the second of two connections; Bob has an account, but is not there.
abbrev alice_there : Server
alice_there =
    step qt ssl (step qt ssl (initial db) (connects (true ∷ true ∷ []))) (handles 1 0 credentials)

bob_absent : find_session alice_there (string_at qt (qt.parse (to_user bob)) "recipient_id") ≡ none
unfolding step on_new_connection handle_packet dispatch of_byte handle_auth_login accept_login
    login_user qt find_session find Str-discrete sha256 ssl send_packet broadcast_to_group
    get_group_members get_user_groups Database.get_user_groups join_groups insert
bob_absent = refl

handle_text_message-Reach_example :
    (alice_there.db.messages ≡ [])
    × (handle_text_message qt 1 (to_user bob) alice_there ≡ alice_there)
unfolding step on_new_connection
handle_text_message-Reach_example =
    handle_text_message-Reach qt ssl 1 (to_user bob)
      (next (next here (connects (true ∷ true ∷ [])) tt) (handles 1 0 credentials) (omega arith))
      bob_absent

on_disconnected_lem_example :
    let w' = on_disconnected qt 0 busy in
    ((id : Str) → find_session w' id ≡ (if id == alice then none else find_session busy id))
    × ((i : ℕ)
        → w'.objects i
          ≡ (if eqb i 0 then record (session_of alice) { socket = false } else busy.objects i))
on_disconnected_lem_example = on_disconnected_lem qt 0 busy
