-- ===== src/Client/Stream.antt =====
-- src/client/network/ClientNetwork.cpp: `onReadyRead` on bytes that arrive in any pieces.
use nullchat.Base.{
  ◌≡◌, refl, sym, ap, ◌∙◌, subst, Str, List, [], ◌∷◌, ◌++◌, append_assoc, append-nil, arith, All,
  All-split,
}
use nullchat.Qt.{Qt, IsQt}
use nullchat.Protocol.{MessageType, auth_response, Packet, to_byte, of_byte}
use nullchat.Protocol.Bytes.{Fits}
use nullchat.Protocol.Framing.{waiting, next_frame, drain}
use nullchat.Protocol.Framing.Delivery.{stream, handle_all, next_frame-serialize}
use nullchat.Protocol.Framing.Stream.{next_frame-nil}
use nullchat.Protocol.Framing.Prefix.{Reads, drain_prefix}
use nullchat.Client.{Client}
use nullchat.Client.Receive.{handle_packet, dispatch, on_ready_read, take_answer, remember_key}

abbrev pub concat : List Str → Str
concat [] = []
concat (s ∷ ss) = s ++ concat ss

-- Bytes that arrive in parts.
unfoldable pub receive_all : Qt → List Str → Client → Client
receive_all q [] c = c
receive_all q (chunk ∷ chunks) c = receive_all q chunks (on_ready_read q chunk c)

-- The client has handled the first of the packets and no other, and holds what has come of the next.
pub record Received (q : Qt) (ps : List Packet) (later : Str) (c c' : Client) : Type 0 where
  pub handled : List Packet
  pub left : List Packet
  pub all_of : ps ≡ handled ++ left
  pub state : c' ≡ record (handle_all (handle_packet q) handled c) { read_buffer = c'.read_buffer }
  pub buffer : c'.read_buffer ++ later ≡ stream q left
  pub incomplete : next_frame q.from_big_endian c'.read_buffer ≡ waiting

module _ (q : Qt) where
  -- No packet touches the buffer.
  dispatch-read_buffer :
      (t : MessageType) (o : q.Object) (b : Str) (c : Client)
      → dispatch q t o (record c { read_buffer = b })
        ≡ record (dispatch q t o c) { read_buffer = b }
  unfolding dispatch take_answer remember_key
  dispatch-read_buffer auth_response o b c = ground arith
  dispatch-read_buffer _ o b c = ground arith

  handle_all-read_buffer :
      (ps : List Packet) (b : Str) (c : Client)
      → handle_all (handle_packet q) ps (record c { read_buffer = b })
        ≡ record (handle_all (handle_packet q) ps c) { read_buffer = b }
  unfolding handle_packet
  handle_all-read_buffer [] b c = refl
  handle_all-read_buffer (p ∷ ps) b c =
      ap (handle_all (handle_packet q) ps)
        (dispatch-read_buffer (of_byte (to_byte p.type)) (q.parse p.body) b c)
      ∙ handle_all-read_buffer ps b (handle_packet q (to_byte p.type) p.body c)

  handle_all-append :
      (ps qs : List Packet) (c : Client)
      → handle_all (handle_packet q) (ps ++ qs) c
        ≡ handle_all (handle_packet q) qs (handle_all (handle_packet q) ps c)
  handle_all-append [] qs c = refl
  handle_all-append (p ∷ ps) qs c =
      handle_all-append ps qs (handle_packet q (to_byte p.type) p.body c)

module _ (q : Qt) (lawful : IsQt q) where
  read_lem :
      (ps : List Packet) (bytes later : Str) (c : Client)
      → (r : Reads q
          (handle_packet q)
          ps
          later
          c
          (drain q.from_big_endian (handle_packet q) (c.read_buffer ++ bytes) c))
      → on_ready_read q bytes c ≡ record (handle_all (handle_packet q) r.handled c) {
        read_buffer = (drain q.from_big_endian (handle_packet q) (c.read_buffer ++ bytes) c).buffer;
      }
  unfolding on_ready_read
  read_lem ps bytes later c r = rw (r.closed, ← r.state) refl

  -- Packets handled in front of what a client has received.
  Received-handle_all :
      (ps left done : List Packet) (later b : Str) (c c' : Client)
      → ps ≡ done ++ left
      → Received q left later (record (handle_all (handle_packet q) done c) { read_buffer = b }) c'
      → Received q ps later c c'
  Received-handle_all ps left done later b c c' split r = record {
    handled = done ++ r.handled;
    left = r.left;
    all_of = split ∙ ap (λ qs. done ++ qs) r.all_of ∙ sym (append_assoc done r.handled r.left);
    state =
        r.state
        ∙ ap (λ (x : Client). record x { read_buffer = c'.read_buffer })
            (handle_all-read_buffer q r.handled b (handle_all (handle_packet q) done c))
        ∙ ap (λ (x : Client). record x { read_buffer = c'.read_buffer })
            (sym (handle_all-append q done r.handled c));
    buffer = r.buffer;
    incomplete = r.incomplete;
  }

  pub receive_all_lem :
      (chunks : List Str) (later : Str) (ps : List Packet) (c : Client)
      → All Fits ps
      → next_frame q.from_big_endian c.read_buffer ≡ waiting
      → c.read_buffer ++ (concat chunks ++ later) ≡ stream q ps
      → Received q ps later c (receive_all q chunks c)
  unfolding receive_all
  receive_all_lem [] later ps c fit idle part = record {
    handled = [];
    left = ps;
    all_of = refl;
    state = refl;
    buffer = part;
    incomplete = idle;
  }
  receive_all_lem (chunk ∷ chunks) later ps c fit idle part =
      let before = c.read_buffer in
      let regrouped : (before ++ chunk) ++ (concat chunks ++ later) ≡ stream q ps =
        append_assoc before chunk (concat chunks ++ later)
        ∙ ap (λ s. before ++ s) (sym (append_assoc chunk (concat chunks) later))
        ∙ part in
      let read =
        drain_prefix q lawful (handle_packet q) ps (before ++ chunk) (concat chunks ++ later) c fit
          regrouped in
      let fits = All-split Fits read.handled read.left (subst (All Fits) read.all_of fit) in
      let b = (drain q.from_big_endian (handle_packet q) (before ++ chunk) c).buffer in
      let c1 = record (handle_all (handle_packet q) read.handled c) { read_buffer = b } in
      let rest = receive_all_lem chunks later read.left c1 fits.1 read.incomplete read.buffer in
      rw (read_lem ps chunk (concat chunks ++ later) c read) (
        Received-handle_all ps read.left read.handled later b c (receive_all q chunks c1)
          read.all_of rest)

  -- With nothing more to come, what is left is no packet.
  settled :
      (left : List Packet) (b : Str)
      → All Fits left
      → b ++ [] ≡ stream q left
      → next_frame q.from_big_endian b ≡ waiting
      → (left ≡ []) × (b ≡ [])
  settled [] b fit whole idle = (refl, sym (append-nil b) ∙ whole)
  settled (p ∷ left) b fit whole idle =
      let found = next_frame-serialize q lawful p (stream q left) fit.0 in
      cc (found, ap (next_frame q.from_big_endian) (sym (append-nil b) ∙ whole))

  -- A stream of packets with bodies of less than 2 ^ 32 bytes that has arrived as a whole, in any
  -- pieces, at a client with an empty buffer: it has handled the packets one by one and in order, and
  -- nothing is left in its buffer.
  pub receive_all-stream :
      (chunks : List Str) (ps : List Packet) (c : Client)
      → All Fits ps
      → c.read_buffer ≡ []
      → concat chunks ≡ stream q ps
      → receive_all q chunks c ≡ record (handle_all (handle_packet q) ps c) { read_buffer = [] }
  receive_all-stream chunks ps c fit empty whole =
      let idle = ap (next_frame q.from_big_endian) empty ∙ next_frame-nil q.from_big_endian in
      let arrived : c.read_buffer ++ (concat chunks ++ []) ≡ stream q ps =
        rw (empty, append-nil) whole in
      let r = receive_all_lem chunks [] ps c fit idle arrived in
      let fits = All-split Fits r.handled r.left (subst (All Fits) r.all_of fit) in
      let (none_left, emptied) =
        settled r.left (receive_all q chunks c).read_buffer fits.1 r.buffer r.incomplete in
      let all = r.all_of ∙ ap (λ qs. r.handled ++ qs) none_left ∙ append-nil r.handled in
      r.state
      ∙ ap
          (λ qs. record (handle_all (handle_packet q) qs c) {
            read_buffer = (receive_all q chunks c).read_buffer;
          })
          (sym all)
      ∙ ap (λ (b : Str). record (handle_all (handle_packet q) ps c) { read_buffer = b }) emptied
