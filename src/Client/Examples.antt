-- ===== src/Client/Examples.antt =====
-- A client at a small server.
use nullchat.Base.{
  ◌≡◌, refl, Str, text, Str-discrete, true, some, List, [], ◌∷◌, ◌++◌, eqb, length, ◌<◌, ◌^◌, arith,
  if◌then◌else◌,
}
use nullchat.Base.Int.{pos}
use nullchat.Base.Map.{find}
use nullchat.Qt.Sample.{sample as qt, sample-IsQt as qt-IsQt}
use nullchat.Qt.Json.{string_at, put_string}
use nullchat.Crypto.Sample.{sample as ssl}
use nullchat.Message.{ChatMessage}
use nullchat.Protocol.{text_message, auth_response, make_packet, serialize}
use nullchat.Database.{Database, register_user}
use nullchat.Server.State.{Session, Server, new_session, initial, find_session}
use nullchat.Server.Groups.{GroupInfo}
use nullchat.Server.Handlers.{handle_text_message, login_response}
use nullchat.Server.Delivery.{AllLive}
use nullchat.Client.{message_received, new_client, emit, direct_message_body}
use nullchat.Client.Receive.{handle_packet}
use nullchat.Client.Connect.{Network}
use nullchat.Client.EndToEnd.{handle_packet-direct_message}

abbrev alice : Str
alice = b'a' ∷ []

abbrev bob : Str
bob = b'b' ∷ []

abbrev db : Database
db = record {
  users = [];
  groups = [];
  members =
      record { user_id = alice; group_id = 3 ∷ []; encrypted_symmetric_key = [] }
      ∷ record { user_id = bob; group_id = 3 ∷ []; encrypted_symmetric_key = [] }
      ∷ [];
  messages = [];
  uuids = 0;
  faults = [];
}

abbrev session_of : Str → Session
session_of id = record new_session { user_id = id; username = id; authenticated = true }

-- Alice has session 0, Bob session 1.
abbrev busy : Server
busy = record (initial db) {
  registry = (alice, 0) ∷ (bob, 1) ∷ [];
  objects = λ i. if eqb i 0 then session_of alice else session_of bob;
  created = 2;
}

abbrev msg : ChatMessage
msg = record {
  id = 1 ∷ [];
  sender_id = bob;
  sender_name = bob;
  content = 6 ∷ 7 ∷ [];
  group_id = 3 ∷ [];
  recipient_id = bob;
  encrypted = true;
  timestamp = pos 9;
}

-- As it arrives from Alice: without its id, under her name, with this group.
abbrev arrived : Str → ChatMessage
arrived group_id = record msg {
  id = [];
  sender_id = alice;
  sender_name = alice;
  group_id = group_id;
  recipient_id = [];
}

found_bob : find_session busy bob ≡ some 1
unfolding find_session find Str-discrete
found_bob = refl

handle_packet-direct_message_example :
    (body : Str) × (handle_text_message qt 0 (direct_message_body qt msg) busy
      ≡ record busy { sent = busy.sent ++ (1, serialize qt (make_packet text_message body)) ∷ [] })
    × (handle_packet qt 3 body new_client ≡ emit (message_received (arrived [])) new_client)
handle_packet-direct_message_example =
    handle_packet-direct_message qt qt-IsQt 0 1 msg busy new_client refl found_bob refl

busy-AllLive : AllLive busy
busy-AllLive id h e = ground arith

abbrev group : GroupInfo
group = record { id = 3 ∷ []; name = 4 ∷ []; member_ids = alice ∷ []; encrypted_symmetric_key = [] }

abbrev groups : List GroupInfo
groups = group ∷ []

abbrev answer : Str
answer = qt.print (login_response qt alice alice groups)

abbrev names : Str
names = qt.print (put_string qt qt.empty "username" alice)

registers :
    register_user qt ssl db
      (string_at qt (qt.parse names) "username")
      (string_at qt (qt.parse names) "password")
    ≡ (
      true,
      qt.uuid 0,
      (register_user qt ssl db
          (string_at qt (qt.parse names) "username")
          (string_at qt (qt.parse names) "password")).2,
    )
unfolding register_user
registers = refl

abbrev net : Network
net = record {
  connects = true;
  error_string = [];
  answer = some (serialize qt (make_packet auth_response answer));
  later = [];
  last = [];
}

short : length answer < 2 ^ 32
unfolding login_response qt text
short = omega arith
