-- ===== src/Store/Contents.antt =====
-- What saving, clearing and the settings do to what is read afterwards.
use nullchat.Base.{
  ◌≡◌, refl, zero, suc, inl, inr, Bool-cases, none, some, Str, ◌==◌, true, not, List, [], ◌∷◌, ◌++◌,
  filter, find?, arith, if◌then◌else◌,
}
use nullchat.Base.Int.{ℤ, pos}
use nullchat.Message.{ChatMessage}
use nullchat.Store.{
  Setting, MessageStore, order_by_time, limited, load_messages, clear_group, save_blob, load_blob,
}

filter_other :
    (g k : Str) (ms : List ChatMessage)
    → filter (λ m. m.group_id == g) (filter (λ m. not (m.group_id == k)) ms)
      ≡ (if g == k then [] else filter (λ m. m.group_id == g) ms)
filter_other g k [] = ground arith
filter_other g k (m ∷ ms) = ground (arith, filter_other g k ms)

limited-nil : (z : ℤ) → limited z [] ≡ []
unfolding limited
limited-nil (pos zero) = refl
limited-nil (pos (suc n)) = refl
limited-nil _ = refl

-- After `clearGroup`, the group has no messages, and every other group has those it had.
pub load_messages-clear_group :
    (g k : Str) (limit : ℤ) (s : MessageStore)
    → load_messages g limit (clear_group k s) ≡ (if g == k then [] else load_messages g limit s)
unfolding clear_group load_messages order_by_time
load_messages-clear_group g k limit s = elim (Bool-cases s.opened) [
  | inl on ↦ elim (Bool-cases (g == k)) [
    | inl same ↦ simp (on, filter_other g k s.messages, same) (limited-nil limit)
    | inr apart ↦ simp (on, filter_other g k s.messages, apart)
  ]
  | inr off ↦ ground arith
]

find?-other :
    (j k : Str) (rs : List Setting)
    → find? (λ r. r.key == j) (filter (λ r. not (r.key == k)) rs)
      ≡ (if j == k then none else find? (λ r. r.key == j) rs)
find?-other j k [] = ground arith
find?-other j k (r ∷ rs) = ground (arith, find?-other j k rs)

find?-append :
    (j : Str) (rs : List Setting) (k value : Str)
    → find? (λ r. r.key == j) (rs ++ record { key = k; value = value } ∷ [])
      ≡ elim (find? (λ r. r.key == j) rs) [
        | none ↦ if k == j then some (record { key = k; value = value }) else none
        | some r ↦ some r
      ]
find?-append j [] k value = refl
find?-append j (r ∷ rs) k value = ground (arith, find?-append j rs k value)

-- In an opened store, `loadBlob` after `saveBlob` returns the value that was saved, and under every
-- other key what it returned before.
pub load_blob-save_blob :
    (j k value : Str) (s : MessageStore)
    → s.opened ≡ true
    → load_blob j (save_blob k value s) ≡ (if j == k then value else load_blob j s)
unfolding load_blob save_blob
load_blob-save_blob j k value s open' =
    let kept = filter (λ r. not (r.key == k)) s.settings in
    ground (arith, find?-other j k s.settings, find?-append j kept k value)
