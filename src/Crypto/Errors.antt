-- ===== src/Crypto/Errors.antt =====
-- src/common/Crypto.cpp: the text of an exception, from OpenSSL's queue of errors.
use nullchat.Base.{
  ℕ, Str, text, ◌≡◌, refl, Bool, false, List, [], ◌∷◌, ◌++◌, if◌then◌else◌, append_assoc, Result,
  ok, err,
}

-- OpenSSL keeps a queue of error codes, none of them 0: `ERR_get_error` takes the oldest, and gives 0 when
-- there is none. `error_string` is `ERR_error_string`.
module _ (error_string : ℕ → Str) where
  unfoldable pub openssl_error : List ℕ → Str × List ℕ
  openssl_error [] = ([], [])
  openssl_error (code ∷ queue) =
      let (later, left) = openssl_error queue in (error_string code ++ text "; " ++ later, left)

  -- What `check` throws, and the queue behind it.
  unfoldable pub checked : Bool → Str → List ℕ → Result Str (Unit {0}) × List ℕ
  unfolding openssl_error
  checked succeeds msg queue =
      let (errors, left) = openssl_error queue in
      if succeeds then (ok tt, queue) else (err (msg ++ text ": " ++ errors), left)

  openssl_error-append :
      (queue more : List ℕ)
      → openssl_error (queue ++ more)
        ≡ ((openssl_error queue).0 ++ (openssl_error more).0, (openssl_error more).1)
  unfolding openssl_error
  openssl_error-append [] more = refl
  openssl_error-append (code ∷ queue) more = simp (openssl_error-append queue more, append_assoc)

  openssl_error_drained : (queue : List ℕ) → (openssl_error queue).1 ≡ []
  unfolding openssl_error
  openssl_error_drained [] = refl
  openssl_error_drained (code ∷ queue) = openssl_error_drained queue

  -- A call that fails empties the queue: the text of its exception holds the errors that calls before it
  -- have left there and those of its own, and the exception of the next call that fails holds its own alone.
  checked_twice :
      (msg msg' : Str) (stale own next : List ℕ)
      → let (thrown, left) = checked false msg (stale ++ own) in
        (thrown ≡ err (msg ++ text ": " ++ (openssl_error stale).0 ++ (openssl_error own).0))
        × ((checked false msg' (left ++ next)).0
            ≡ err (msg' ++ text ": " ++ (openssl_error next).0))
  unfolding checked
  checked_twice msg msg' stale own next = (
    simp (openssl_error-append stale own, append_assoc),
    simp (openssl_error-append stale own, openssl_error_drained own, append_assoc),
  )
