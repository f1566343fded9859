-- ===== src/Client/Vouched/Examples.antt =====
-- Two users log in, and one writes to the other.
use nullchat.Base.{
  Str, text, Str-discrete, true, none, List, [], ◌∷◌, take, drop, All, ◌<◌, ◌^◌, length, arith,
}
use nullchat.Base.Map.{find, insert}
use nullchat.Qt.Sample.{sample as qt, sample-IsQt as qt-IsQt}
use nullchat.Qt.Json.{put_string}
use nullchat.Crypto.{sha256}
use nullchat.Crypto.Sample.{sample as ssl}
use nullchat.Database.{
  Database, UserRecord, login_user, get_group_members, get_user_groups, join_groups,
}
use nullchat.Protocol.{of_byte, to_byte, make_packet, serialize}
use nullchat.Server.State.{Server, initial, send_packet, find_session}
use nullchat.Server.Groups.{broadcast_to_group}
use nullchat.Server.Groups
use nullchat.Server.Handlers.{handle_packet, handle_auth_login, handle_text_message}
use nullchat.Server.Events.{on_new_connection, connects, handles, step}
use nullchat.Server.Reachable.{Reach, here, next}
use nullchat.Server.Vouched.Packets.{bytes_to}
use nullchat.Server.Vouched.Typed.{IsOnePacket, deserialize-Reach}

abbrev user : Str → UserRecord
user name = record {
  id = name;
  username = name;
  password_hash = sha256 ssl (5 ∷ []);
  public_key = none;
}

abbrev db : Database
db = record {
  users = user (b'a' ∷ []) ∷ user (b'b' ∷ []) ∷ [];
  groups = [];
  members = [];
  messages = [];
  uuids = 0;
  faults = [];
}

abbrev credentials : Str → Str
credentials name =
    qt.print (put_string qt (put_string qt qt.empty "username" name) "password" (5 ∷ []))

abbrev to_bob : Str
to_bob =
    qt.print (put_string qt (put_string qt qt.empty "recipient_id" (b'b' ∷ [])) "content" (7 ∷ []))

abbrev two : Server
two = step qt ssl (initial db) (connects (true ∷ true ∷ []))

abbrev both : Server
both =
    step qt ssl (step qt ssl two (handles 0 0 (credentials (b'a' ∷ []))))
      (handles 1 0 (credentials (b'b' ∷ [])))

abbrev server : Server
server = step qt ssl both (handles 0 3 to_bob)

reached : Reach qt ssl (initial db) server
unfolding step on_new_connection handle_packet of_byte handle_auth_login login_user Str-discrete qt
    sha256 ssl send_packet broadcast_to_group get_group_members Groups.get_user_groups
    get_user_groups join_groups handle_text_message make_packet serialize to_byte find_session find
    insert text
reached =
    next
      (next
        (next (next here (connects (true ∷ true ∷ [])) tt) (handles 0 0 (credentials (b'a' ∷ [])))
          (omega arith))
        (handles 1 0 (credentials (b'b' ∷ []))) (omega arith))
      (handles 0 3 to_bob) (omega arith)

small : All (λ e. length e.1 < 2 ^ 32) server.sent
unfolding step on_new_connection handle_packet of_byte handle_auth_login login_user Str-discrete qt
    sha256 ssl send_packet broadcast_to_group get_group_members Groups.get_user_groups
    get_user_groups join_groups handle_text_message make_packet serialize to_byte find_session find
    insert text
small = (omega arith, (omega arith, (omega arith, tt)))

-- The first seven bytes, some more, and a rest that has not come yet.
abbrev stream : Str
stream = bytes_to 1 server.sent

abbrev chunks : List Str
chunks = take 7 stream ∷ take 50 (drop 7 stream) ∷ []

deserialize-Reach_example : All (λ e. IsOnePacket qt server.db.users e.1) server.sent
deserialize-Reach_example = deserialize-Reach qt qt-IsQt ssl db reached small
