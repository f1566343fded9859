-- ===== src/Crypto/Buffer.antt =====
-- Output buffers of `std::vector<uint8_t>`: writes at an offset, and `resize`.
use nullchat.Base.{
  ℕ, zero, suc, ◌+◌, ◌-◌, ◌≤◌, ◌≡◌, ap, ◌∙◌, Str, [], ◌∷◌, ◌++◌, append_assoc, append-nil, length,
  length-append, length-take, length-replicate, take, drop, replicate, take-append_self, arith,
}

-- A call writes `bytes` from the offset on; the bytes before and behind stay.
unfoldable pub write : ℕ → Str → Str → Str
write i bytes buf = take i buf ++ (bytes ++ drop (i + length bytes) buf)

-- `v.resize(n)` cuts, or adds zeros.
unfoldable pub resize : ℕ → Str → Str
resize n buf = take n buf ++ replicate (n - length buf) 0

take-append_ge :
    (n : ℕ) (xs ys : Str) → length xs ≤ n → take n (xs ++ ys) ≡ xs ++ take (n - length xs) ys
take-append_ge n [] ys h = ap (λ m. take m ys) (omega arith)
take-append_ge zero (x ∷ xs) ys h = absurd (omega arith)
take-append_ge (suc n) (x ∷ xs) ys h =
    ap (◌∷◌ x) (take-append_ge n xs ys (omega arith) ∙ ap (λ m. xs ++ take m ys) (omega arith))

-- A write at the start, and a write right behind a known front.
pub write_start : (bytes buf : Str) → write 0 bytes buf ≡ bytes ++ drop (length bytes) buf
unfolding write
write_start bytes buf = ap (λ n. bytes ++ drop n buf) (omega arith)

pub write_behind :
    (front bytes buf : Str)
    → write (length front) bytes (front ++ buf)
      ≡ front ++ (bytes ++ drop (length front + length bytes) (front ++ buf))
unfolding write
write_behind front bytes buf =
    ap (λ s. s ++ (bytes ++ drop (length front + length bytes) (front ++ buf)))
      (take-append_self front buf)

pub length-resize : (n : ℕ) (buf : Str) → length (resize n buf) ≡ n
unfolding resize
length-resize n buf = omega (
  arith,
  length-append {A = ℕ} (take n buf) (replicate (n - length buf) 0),
  length-take n buf,
  length-replicate {A = ℕ} (n - length buf) 0,
)

-- A front that fits survives a `resize`, and one that fits exactly is all that is left.
pub resize_front :
    (n : ℕ) (front buf : Str)
    → length front ≤ n
    → resize n (front ++ buf) ≡ front ++ resize (n - length front) buf
unfolding resize
resize_front n front buf h =
    let e : n - length (front ++ buf) ≡ n - length front - length buf =
      omega (arith, length-append front buf) in
    rw (e, take-append_ge n front buf h)
      (append_assoc front (take (n - length front) buf)
        (replicate (n - length front - length buf) 0))

pub resize_exact : (front buf : Str) → resize (length front) (front ++ buf) ≡ front
unfolding resize
resize_exact front buf =
    let e : length front - length (front ++ buf) ≡ 0 = omega (arith, length-append front buf) in
    rw (e, take-append_self front buf) (append-nil front)
