-- ===== src/Qt/Json.antt =====
-- How client and server read and write the texts in a JSON object.
use nullchat.Base.{String, Str}
use nullchat.Qt.{Qt}

module _ (q : Qt) where
  open q use {Object, at, to_string}

  -- `obj[key].toString()`, and `obj[key] = text`.
  abbrev pub string_at : Object → String → Str
  string_at obj key = to_string (at obj key)

  abbrev pub put_string : Object → String → Str → Object
  put_string obj key s = q.insert obj key (q.string s)
