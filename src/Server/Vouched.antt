-- ===== src/Server/Vouched.antt =====
-- What the server's packets say about users: the statements that its user table bears out.
pub mod Handlers
pub mod Packets
pub mod Reach
pub mod Typed
use nullchat.Base.{
  ℕ, ◌≡◌, refl, Str, ◌==◌, is_empty, Bool, true, false, ◌&&◌, ◌||◌, List, [], ◌∷◌, ◌++◌, any,
  any-append, All, arith, if◌then◌else◌, Bool-cases, Option-cases, All-append_one, inl, inr,
}
use nullchat.Qt.{Qt}
use nullchat.Qt.Json.{string_at}
use nullchat.Protocol.{
  MessageType, auth_response, text_message, group_message, p2p_offer, p2p_answer, p2p_ice_candidate,
  user_online, user_offline, pub_key_response, mention, error, Packet, serialize, make_packet,
}
use nullchat.Protocol.Bytes.{IsNamed}
use nullchat.Database.{UserRecord, get_group_members}
use nullchat.Database.Users.{has_account}
use nullchat.Server.State.{Server, send_raw, send_packet, find_session}
use nullchat.Server.Groups.{send_members, broadcast_to_group}
use nullchat.Server.Handlers.{send_to}

abbrev pub has_id : List UserRecord → Str → Bool
has_id us id = any (λ u. u.id == id) us

module _ (q : Qt) where
  -- A message and an offer name an account as their sender, the other signals for a peer an id, and a
  -- notice that a user has come or gone an account; an answer to credentials names an account or
  -- nobody. No notice has a public key, and nothing answers a request for a key, mentions a user or
  -- reports an error. The other types say nothing of users.
  unfoldable pub vouches : List UserRecord → MessageType → q.Object → Bool
  vouches us auth_response o =
      is_empty (string_at q o "user_id")
      || has_account us (string_at q o "user_id") (string_at q o "username")
  vouches us text_message o =
      has_account us (string_at q o "sender_id") (string_at q o "sender_name")
  vouches us group_message o =
      has_account us (string_at q o "sender_id") (string_at q o "sender_name")
  vouches us p2p_offer o = has_account us (string_at q o "from_id") (string_at q o "from_username")
  vouches us p2p_answer o = has_id us (string_at q o "from_id")
  vouches us p2p_ice_candidate o = has_id us (string_at q o "from_id")
  vouches us user_online o =
      has_account us (string_at q o "user_id") (string_at q o "username")
      && is_empty (string_at q o "public_key")
  vouches us user_offline o =
      has_account us (string_at q o "user_id") (string_at q o "username")
      && is_empty (string_at q o "public_key")
  vouches us pub_key_response o = false
  vouches us mention o = false
  vouches us error o = false
  vouches us _ o = true

  -- The bytes are a packet that says such a thing.
  pub record Honest (us : List UserRecord) (bytes : Str) : Type 0 where
    pub pkt : Packet
    pub written : bytes ≡ serialize q pkt
    pub typed : IsNamed pkt.type
    pub vouched : vouches us pkt.type (q.parse pkt.body) ≡ true

  -- All that the server has written is of this kind.
  abbrev pub Told : List UserRecord → List (ℕ × Str) → Type 0
  Told us sent = All (λ e. Honest us e.1) sent

  has_account-append :
      (us more : List UserRecord) (id name : Str)
      → has_account us id name ≡ true
      → has_account (us ++ more) id name ≡ true
  has_account-append us more id name h =
      ground (arith, any-append (λ u. u.id == id && u.username == name) us more)

  has_id-append :
      (us more : List UserRecord) (id : Str) → has_id us id ≡ true → has_id (us ++ more) id ≡ true
  has_id-append us more id h = ground (arith, any-append (λ u. u.id == id) us more)

  vouches-append :
      (us more : List UserRecord) (t : MessageType) (o : q.Object)
      → vouches us t o ≡ true
      → vouches (us ++ more) t o ≡ true
  unfolding vouches
  vouches-append us more auth_response o h =
      ground
        (arith, has_account-append us more (string_at q o "user_id") (string_at q o "username"))
  vouches-append us more text_message o h =
      has_account-append us more (string_at q o "sender_id") (string_at q o "sender_name") h
  vouches-append us more group_message o h =
      has_account-append us more (string_at q o "sender_id") (string_at q o "sender_name") h
  vouches-append us more p2p_offer o h =
      has_account-append us more (string_at q o "from_id") (string_at q o "from_username") h
  vouches-append us more p2p_answer o h = has_id-append us more (string_at q o "from_id") h
  vouches-append us more p2p_ice_candidate o h = has_id-append us more (string_at q o "from_id") h
  vouches-append us more user_online o h =
      ground
        (arith, has_account-append us more (string_at q o "user_id") (string_at q o "username"))
  vouches-append us more user_offline o h =
      ground
        (arith, has_account-append us more (string_at q o "user_id") (string_at q o "username"))
  vouches-append us more _ o h = h

  -- What has been said stays true when the table grows.
  pub Told-append :
      (us more : List UserRecord) (sent : List (ℕ × Str)) → Told us sent → Told (us ++ more) sent
  Told-append us more [] t = tt
  Told-append us more (e ∷ sent) t = (
    record {
      pkt = t.0.pkt;
      written = t.0.written;
      typed = t.0.typed;
      vouched = vouches-append us more t.0.pkt.type (q.parse t.0.pkt.body) t.0.vouched;
    },
    Told-append us more sent t.1,
  )

  pub Told-send_raw :
      (us : List UserRecord) (h : ℕ) (bytes : Str) (w : Server)
      → Honest us bytes
      → Told us w.sent
      → Told us (send_raw h bytes w).sent
  unfolding send_raw
  Told-send_raw us h bytes w said t = elim (Bool-cases (w.objects h).socket) [
    | inl live ↦ rw live (All-append_one (λ e. Honest us e.1) w.sent (h, bytes) t said)
    | inr dead ↦ rw dead t
  ]

  pub Told-send_packet :
      (us : List UserRecord) (h : ℕ) (t : MessageType) (body : Str) (w : Server)
      → IsNamed t
      → vouches us t (q.parse body) ≡ true
      → Told us w.sent
      → Told us (send_packet q h t body w).sent
  unfolding send_packet make_packet
  Told-send_packet us h t body w typed said =
      let pkt = make_packet t body in
      Told-send_raw us h (serialize q pkt) w
        (record { pkt = pkt; written = refl; typed = typed; vouched = said })

  pub Told-send_to :
      (us : List UserRecord) (target_id : Str) (t : MessageType) (o : q.Object) (w : Server)
      → IsNamed t
      → vouches us t (q.parse (q.print o)) ≡ true
      → Told us w.sent
      → Told us (send_to q target_id t o w).sent
  unfolding send_to
  Told-send_to us target_id t o w typed said told = elim (Option-cases (find_session w target_id)) [
    | inl absent ↦ rw (absent, send_to) told
    | inr (r, found) ↦ rw (found, send_to) (Told-send_packet us r t (q.print o) w typed said told)
  ]

  Told-send_members :
      (us : List UserRecord) (bytes sender_id : Str) (ms : List Str) (w : Server)
      → Honest us bytes
      → Told us w.sent
      → Told us (send_members bytes sender_id ms w).sent
  unfolding send_members
  Told-send_members us bytes sender_id [] w said t = t
  Told-send_members us bytes sender_id (m ∷ ms) w said t = elim (Bool-cases (m == sender_id)) [
    | inl own ↦ rw (own, send_members) (Told-send_members us bytes sender_id ms w said t)
    | inr other ↦ elim (Option-cases (find_session w m)) [
      | inl absent ↦
          rw (other, absent, send_members) (Told-send_members us bytes sender_id ms w said t)
      | inr (h, present) ↦
          rw (other, present, send_members)
            (Told-send_members us bytes sender_id ms (send_raw h bytes w) said
              (Told-send_raw us h bytes w said t))
    ]
  ]

  pub Told-broadcast_to_group :
      (us : List UserRecord) (group_id sender_id : Str) (pkt : Packet) (w : Server)
      → IsNamed pkt.type
      → vouches us pkt.type (q.parse pkt.body) ≡ true
      → Told us w.sent
      → Told us (broadcast_to_group q group_id sender_id pkt w).sent
  unfolding broadcast_to_group
  Told-broadcast_to_group us group_id sender_id pkt w typed said =
      let (members, db) = get_group_members w.db group_id in
      Told-send_members us (serialize q pkt) sender_id members (record w { db = db })
        (record { pkt = pkt; written = refl; typed = typed; vouched = said })
