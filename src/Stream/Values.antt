-- ===== src/Stream/Values.antt =====
-- The values that the stream adapter handles (lewis/adapters/stream.py): text is a list of code
-- points, bytes are numbers, and any other object is an element of the parameter `O`.
use lewis.Common.{
  ℕ, ◌+◌, ◌/◌, ◌%◌, List, [], ◌∷◌, ◌++◌, ◌&&◌, not, ltb, Result, ok, err, value_error, type_error,
  attribute_error, and_then, if◌then◌else◌,
}

abbrev pub Text : Type 0
Text = List ℕ

abbrev pub Bytes : Type 0
Bytes = List ℕ

pub data Value (O : Type 0) : Type 0 where
  none_value : Value O
  text : Text → Value O
  bytes : Bytes → Value O
  object : O → Value O

-- One character of `str.encode()`, which is UTF-8: a surrogate raises UnicodeEncodeError.
abbrev pub encode_char : ℕ → Result Bytes
encode_char c =
    if ltb c 128
    then ok (c ∷ [])
    else if ltb c 2048
    then ok ((192 + c / 64) ∷ (128 + c % 64) ∷ [])
    else if not (ltb c 55296) && ltb c 57344
    then err value_error
    else if ltb c 65536
    then ok ((224 + c / 4096) ∷ (128 + c / 64 % 64) ∷ (128 + c % 64) ∷ [])
    else ok ((240 + c / 262144) ∷ (128 + c / 4096 % 64) ∷ (128 + c / 64 % 64) ∷ (128 + c % 64) ∷ [])

abbrev pub encode : Text → Result Bytes
encode [] = ok []
encode (c ∷ cs) = and_then (encode_char c) (λ b. and_then (encode cs) (λ bs. ok (b ++ bs)))

-- `in_terminator` and `out_terminator` are text by default; an interface may define them as bytes.
pub data Terminator : Type 0 where
  text_terminator : Text → Terminator
  bytes_terminator : Bytes → Terminator

-- `target.in_terminator.encode()`
abbrev pub encode_terminator : Terminator → Result Bytes
encode_terminator (text_terminator t) = encode t
encode_terminator (bytes_terminator b) = err attribute_error

-- What `_push` builds from a reply: text and bytes do not add up, nor does any other object with them.
unfoldable pub reply_message : {O : Type 0} → Value O → Terminator → Result Bytes
reply_message (text s) (text_terminator t) = encode (s ++ t)
reply_message (text s) (bytes_terminator b) = err type_error
reply_message (bytes b) (text_terminator t) = err type_error
reply_message (bytes b) (bytes_terminator t) = ok (b ++ t)
reply_message none_value t = err type_error
reply_message (object o) t = err type_error
