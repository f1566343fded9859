-- ===== src/Protocol/RoundTrip.antt =====
-- `deserialize` against `serialize`, and `deserialize` on bytes that are no packet.
use nullchat.Base.{
  ℕ, ◌+◌, ◌≤◌, ◌<◌, ◌≡◌, ◌≢◌, Str, ◌∷◌, ◌++◌, length, length-append, length-take, length-drop,
  get_or, take, drop, arith, suc, ok, err, take-append_self,
}
use nullchat.Qt.{Qt, IsQt}
use nullchat.Protocol.{
  of_byte, to_byte, Packet, load, serialize, packet_too_small, version_mismatch, out_of_bounds,
  deserialize,
}
use nullchat.Protocol.Bytes.{Fits, IsType, of_byte-to_byte, from_big_endian-load, serialize_bytes}

module _ (q : Qt) where
  -- What `deserialize` accepts, it understands: there is a header of version 1, all the bytes that
  -- the header announces are there, and the body has as many bytes as announced.
  pub deserialize-ok :
      (s : Str) (p : Packet)
      → deserialize q s ≡ ok p
      → (get_or s 5 0 ≡ 1)
        × (6 + length p.body ≤ length s)
        × (length p.body ≡ q.from_big_endian (load s))
        × (p.type ≡ of_byte (get_or s 4 0))
  unfolding deserialize
  deserialize-ok s p h =
      let n = q.from_big_endian (load s) in
      ground (arith, length-take n (drop 6 s), length-drop 6 s)

  -- Short input and a foreign version are refused with the two exceptions.
  pub deserialize_refused :
      (s : Str)
      → (length s < 6 → deserialize q s ≡ err packet_too_small)
        × (6 ≤ length s → get_or s 5 0 ≢ 1 → deserialize q s ≡ err version_mismatch)
  unfolding deserialize
  deserialize_refused s = (λ h. ground arith, λ h v. ground arith)

module _ (q : Qt) (lawful : IsQt q) where
  -- A packet that is serialized and deserialized comes back, whatever bytes follow it: for each
  -- body of less than 2 ^ 32 bytes, and for each type that is an enumerator or no enumerator's byte.
  pub deserialize-serialize :
      (p : Packet) (more : Str)
      → Fits p
      → IsType p.type
      → deserialize q (serialize q p ++ more) ≡ ok p
  unfolding deserialize load
  deserialize-serialize p more h t =
      let n = length p.body in
      let tail = to_byte p.type ∷ 1 ∷ p.body ++ more in
      let size = from_big_endian-load q lawful n tail h in
      let cut = take-append_self p.body more in
      let known = of_byte-to_byte p.type t in
      rw (serialize_bytes q lawful p h)
        (ground (arith, size, cut, known, length-append p.body more))

  -- A packet that lost its end passes both checks of `deserialize`, which then reads behind the end
  -- of its input: any cut behind the header and before the end of the body does it.
  pub deserialize_cut :
      (p : Packet) (k : ℕ)
      → Fits p
      → k < length p.body
      → deserialize q (take (6 + k) (serialize q p)) ≡ err out_of_bounds
  unfolding deserialize
  deserialize_cut p k h cut =
      let n = length p.body in
      let tail = to_byte p.type ∷ 1 ∷ take k p.body in
      let size = from_big_endian-load q lawful n tail h in
      let e : 6 + k ≡ suc (suc (suc (suc (suc (suc k))))) = omega arith in
      rw (serialize_bytes q lawful p h, e) (ground (arith, size, length-take k p.body))
