-- ===== src/Message.antt =====
-- src/common/Message.h: the message that the client sends, receives, stores and shows.
use nullchat.Base.{Str, Bool}
use nullchat.Base.Int.{ℤ}

pub record ChatMessage : Type 0 where
  pub id : Str
  pub sender_id : Str
  pub sender_name : Str
  pub content : Str
  pub group_id : Str
  pub recipient_id : Str
  pub encrypted : Bool
  pub timestamp : ℤ
