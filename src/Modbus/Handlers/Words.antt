-- ===== src/Modbus/Handlers/Words.antt =====
-- Registers as bytes, two to a register, the high one first.
use lewis.Common.{
  ℕ, zero, suc, ◌+◌, ◌*◌, ◌/◌, ◌%◌, ◌<◌, ◌≡◌, refl, ap, List, [], ◌∷◌, map, Result, ok, and_then,
  arith, length, All, lt→ltb,
}
use lewis.Common.Int.{ℤ, pos, negsuc}
use lewis.Modbus.Frame.{pack_h, be16}
use lewis.Modbus.Frame.Parse.{IsByte}
use lewis.Modbus.Handlers.{low_word, pack_words, unpack_words}

abbrev pub IsWord : ℕ → Type 0
IsWord w = w < 65536

abbrev pub word_bytes : List ℕ → List ℕ
word_bytes [] = []
word_bytes (w ∷ ws) = w / 256 ∷ w % 256 ∷ word_bytes ws

pub low_word-lt : (value : ℤ) → low_word value < 65536
unfolding low_word
low_word-lt (pos n) = omega arith
low_word-lt (negsuc n) = omega arith

pub All-low_word : (values : List ℤ) → All IsWord (map low_word values)
All-low_word [] = tt
All-low_word (v ∷ vs) = (low_word-lt v, All-low_word vs)

pub pack_words_lem : (words : List ℕ) → All IsWord words → pack_words words ≡ ok (word_bytes words)
unfolding pack_words pack_h
pack_words_lem [] h = refl
pack_words_lem (w ∷ ws) h = rw (lt→ltb w 65536 h.0, pack_words_lem ws h.1)

pub length-word_bytes : (words : List ℕ) → length (word_bytes words) ≡ 2 * length words
length-word_bytes [] = refl
length-word_bytes (w ∷ ws) = omega (arith, length-word_bytes ws)

-- Registers taken from `bytes`, which are the bytes of those registers.
pub record Words (n : ℕ) (bytes : List ℕ) (r : Result (List ℤ)) : Type 0 where
  pub words : List ℤ
  pub count : length words ≡ n
  pub same_bytes : word_bytes (map low_word words) ≡ bytes
  pub unpacked : r ≡ ok words

Words-cons :
    (n hi lo : ℕ) (bytes : List ℕ) (r : Result (List ℤ))
    → IsByte hi
    → IsByte lo
    → Words n bytes r
    → Words (suc n) (hi ∷ lo ∷ bytes) (and_then r (λ ws. ok (pos (be16 hi lo) ∷ ws)))
unfolding low_word
Words-cons n hi lo bytes r h l rest =
    let a : (hi * 256 + lo) % 65536 / 256 ≡ hi = omega arith in
    let b : (hi * 256 + lo) % 65536 % 256 ≡ lo = omega arith in
    record {
      words = pos (be16 hi lo) ∷ rest.words;
      count = ap suc rest.count;
      same_bytes = rw (a, b, rest.same_bytes);
      unpacked = rw rest.unpacked;
    }

-- Twice as many bytes as registers are taken apart into those registers.
pub unpack_words-Words :
    (n : ℕ) (bytes : List ℕ)
    → All IsByte bytes
    → length bytes ≡ n * 2
    → Words n bytes (unpack_words n bytes)
unfolding unpack_words
unpack_words-Words zero [] h size = record {
  words = [];
  count = refl;
  same_bytes = refl;
  unpacked = refl;
}
unpack_words-Words zero (b ∷ bytes) h size = absurd (omega arith)
unpack_words-Words (suc n) [] h size = absurd (omega arith)
unpack_words-Words (suc n) (b ∷ []) h size = absurd (omega arith)
unpack_words-Words (suc n) (hi ∷ lo ∷ bytes) h size =
    Words-cons n hi lo bytes (unpack_words n bytes) h.0 h.1.0
      (unpack_words-Words n bytes h.1.1 (omega arith))
