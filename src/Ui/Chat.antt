-- ===== src/Ui/Chat.antt =====
-- src/client/ui/ChatWidget.cpp: the lines of the chat and their HTML. `toHtmlEscaped` and the
-- formatting of the time are Qt's, so they are parameters.
pub mod Visible
use nullchat.Base.{
  ℕ, Str, text, Bool, true, false, ◌&&◌, ◌||◌, [], ◌∷◌, ◌++◌, leb, eqb, if◌then◌else◌,
}
use nullchat.Base.Int.{ℤ}
use nullchat.Message.{ChatMessage}

-- What `addMessage` and `addSystemMessage` append.
pub data Line : Type 0 where
  message : ChatMessage → Line
  system_message : Str → Line

-- `\w` of a regular expression without Unicode properties.
unfoldable pub is_word : ℕ → Bool
is_word c =
    leb b'a' c && leb c b'z' || leb b'A' c && leb c b'Z' || leb b'0' c && leb c b'9' || eqb c b'_'

unfoldable pub starts_with_word : Str → Bool
unfolding is_word
starts_with_word [] = false
starts_with_word (c ∷ s) = is_word c

unfoldable pub span_open : Str
span_open = text "<span style=\"color:#46ff7b;font-weight:bold\">"

unfoldable pub span_close : Str
span_close = text "</span>"

-- `content.replace(QRegularExpression("@(\\w+)"), ...)`. `inside` says that the text so far ends in a
-- mention, which takes all the word characters that follow.
unfoldable pub highlight : Bool → Str → Str
unfolding is_word starts_with_word span_open span_close
highlight true [] = span_close
highlight false [] = []
highlight inside (c ∷ s) =
    let within = highlight true s in
    let beyond = highlight false s in
    let outside =
      if eqb c b'@' && starts_with_word s then span_open ++ b'@' ∷ within else c ∷ beyond in
    if inside then (if is_word c then c ∷ within else span_close ++ outside) else outside

module _ (time_text : ℤ → Str) (to_html_escaped : Str → Str) where
  unfoldable pub html_of : Line → Str
  unfolding highlight
  html_of (message msg) =
      let time = time_text msg.timestamp in
      let sender = to_html_escaped msg.sender_name in
      let content = highlight false (to_html_escaped msg.content) in
      let rest =
        if msg.encrypted then text "&gt; <i>[encrypted]</i>" else text "&gt; " ++ content in
      text "[" ++ (time ++ (text "] &lt;" ++ (sender ++ rest)))
  html_of (system_message s) =
      text "<span style=\"color:#888888;\">[system] " ++ s ++ text "</span>"
