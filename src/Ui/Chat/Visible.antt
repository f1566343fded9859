-- ===== src/Ui/Chat/Visible.antt =====
-- What the browser of the chat shows of a line.
use nullchat.Base.{
  ◌≡◌, refl, ap, Str, text, Bool, true, false, [], ◌∷◌, ◌++◌, eqb, any, if◌then◌else◌, arith,
  Bool-cases, inl, inr,
}
use nullchat.Base.Int.{ℤ}
use nullchat.Message.{ChatMessage}
use nullchat.Ui.Chat.{message, span_open, span_close, highlight, html_of}

-- The text of an HTML line outside its tags; `inside` says that a tag has been opened.
unfoldable pub visible : Bool → Str → Str
visible inside [] = []
visible true (c ∷ s) = if eqb c b'>' then visible false s else visible true s
visible false (c ∷ s) = if eqb c b'<' then visible true s else c ∷ visible false s

abbrev pub has_markup : Str → Bool
has_markup s = any (λ c. eqb c b'<') s

visible-span_open : (s : Str) → visible false (span_open ++ s) ≡ visible false s
unfolding visible span_open text
visible-span_open s = refl

visible-span_close : (s : Str) → visible false (span_close ++ s) ≡ visible false s
unfolding visible span_close text
visible-span_close s = refl

closed : visible false span_close ≡ []
unfolding visible span_close text
closed = refl

visible-append : (s t : Str) → has_markup s ≡ false → visible false (s ++ t) ≡ s ++ visible false t
unfolding visible
visible-append [] t clean = refl
visible-append (c ∷ s) t clean = ground (arith, visible-append s t)

-- Highlighting adds tags only.
visible-highlight :
    (inside : Bool) (s : Str) → has_markup s ≡ false → visible false (highlight inside s) ≡ s
unfolding visible highlight
visible-highlight true [] clean = closed
visible-highlight false [] clean = refl
visible-highlight true (c ∷ s) clean = ground (
  arith,
  visible-highlight true s,
  visible-highlight false s,
  visible-span_open (b'@' ∷ highlight true s),
  visible-span_close (span_open ++ b'@' ∷ highlight true s),
  visible-span_close (c ∷ highlight false s),
)
visible-highlight false (c ∷ s) clean = ground (
  arith,
  visible-highlight true s,
  visible-highlight false s,
  visible-span_open (b'@' ∷ highlight true s),
)

module _ (time_text : ℤ → Str) (to_html_escaped : Str → Str)
    (time_clean : (t : ℤ) → has_markup (time_text t) ≡ false)
    (escaped_clean : (s : Str) → has_markup (to_html_escaped s) ≡ false) where
  bracket : (s : Str) → visible false (text "[" ++ s) ≡ text "[" ++ visible false s
  unfolding visible text
  bracket s = refl

  less : (s : Str) → visible false (text "] &lt;" ++ s) ≡ text "] &lt;" ++ visible false s
  unfolding visible text
  less s = refl

  -- The part of a message's line that both kinds have.
  front :
      (t : ℤ) (name rest : Str)
      → let time = time_text t in
        let sender = to_html_escaped name in
        visible false (text "[" ++ (time ++ (text "] &lt;" ++ (sender ++ rest))))
        ≡ text "[" ++ (time ++ (text "] &lt;" ++ (sender ++ visible false rest)))
  front t name rest =
      let sender = visible-append (to_html_escaped name) rest (escaped_clean name) in
      let time =
        visible-append (time_text t) (text "] &lt;" ++ (to_html_escaped name ++ rest))
          (time_clean t) in
      rw (bracket (time_text t ++ (text "] &lt;" ++ (to_html_escaped name ++ rest))), time)
        (rw (less (to_html_escaped name ++ rest), sender) refl)

  remark : visible false (text "&gt; <i>[encrypted]</i>") ≡ text "&gt; [encrypted]"
  unfolding visible text
  remark = refl

  highlighted :
      (content : Str)
      → visible false (text "&gt; " ++ highlight false (to_html_escaped content))
        ≡ text "&gt; " ++ to_html_escaped content
  unfolding visible text
  highlighted content =
      ap (λ s. text "&gt; " ++ s)
        (visible-highlight false (to_html_escaped content) (escaped_clean content))

  -- Neither the name nor the content of a message brings markup into the chat: where Qt's escaping
  -- and its times have no `<`, the text outside the tags of a message's line is the time, the escaped
  -- name and the whole escaped content, or a fixed remark if the message is encrypted.
  pub visible-html_of :
      (msg : ChatMessage)
      → visible false (html_of time_text to_html_escaped (message msg))
        ≡ text "["
          ++ (time_text msg.timestamp
              ++ (text "] &lt;"
                  ++ (to_html_escaped msg.sender_name
                      ++ (if msg.encrypted
                          then text "&gt; [encrypted]"
                          else text "&gt; " ++ to_html_escaped msg.content))))
  unfolding html_of
  visible-html_of msg = elim (Bool-cases msg.encrypted) [
    | inl sealed ↦
        rw (sealed, front msg.timestamp msg.sender_name (text "&gt; <i>[encrypted]</i>"), remark)
          refl
    | inr plain ↦
        let rest = text "&gt; " ++ highlight false (to_html_escaped msg.content) in
        rw (plain, front msg.timestamp msg.sender_name rest, highlighted msg.content) refl
  ]
