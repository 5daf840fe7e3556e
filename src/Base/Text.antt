-- ===== src/Base/Text.antt =====
-- Rust's `str` and `char`, as far as the program uses them. A `String` is a list of characters.
use Prim.Native.Nat.{ℕ, zero, suc, ◌+◌, ◌/◌, ◌%◌, Ordering}
use Prim.Native.Char.{Char, code}
use Prim.Native.String.{String, [], ◌∷◌, compare}
use mathlib.Core.Bool.{Bool, true, false, ◌&&◌, ◌||◌}
use mathlib.Core.List.{List}
use nod.Base.Tests.{if◌then◌else◌, leb, eqb, ltb}

-- `char::len_utf8`, and the bytes of a character.
abbrev pub utf8_width : ℕ → ℕ
utf8_width c = if ltb c 128 then 1 else if ltb c 2048 then 2 else if ltb c 65536 then 3 else 4

abbrev pub utf8 : ℕ → List ℕ → List ℕ
utf8 c rest =
    if ltb c 128
    then List.◌∷◌ c rest
    else if ltb c 2048
    then List.◌∷◌ (192 + c / 64) (List.◌∷◌ (128 + c % 64) rest)
    else if ltb c 65536
    then List.◌∷◌ (224 + c / 4096) (List.◌∷◌ (128 + c / 64 % 64) (List.◌∷◌ (128 + c % 64) rest))
    else List.◌∷◌ (240 + c / 262144) (
        List.◌∷◌ (128 + c / 4096 % 64)
          (List.◌∷◌ (128 + c / 64 % 64) (List.◌∷◌ (128 + c % 64) rest)))

-- `str::as_bytes` and `str::len`.
abbrev pub bytes : String → List ℕ
bytes [] = List.[]
bytes (c ∷ s) = utf8 (code c) (bytes s)

abbrev pub byte_len : String → ℕ
byte_len [] = 0
byte_len (c ∷ s) = utf8_width (code c) + byte_len s

-- `chars().count()`.
abbrev pub char_count : String → ℕ
char_count [] = 0
char_count (c ∷ s) = suc (char_count s)

-- `char::is_whitespace`: the White_Space property.
pub is_whitespace : ℕ → Bool
is_whitespace c =
    leb 9 c && leb c 13
    || eqb c 32
    || eqb c 133
    || eqb c 160
    || eqb c 5760
    || leb 8192 c && leb c 8202
    || eqb c 8232
    || eqb c 8233
    || eqb c 8239
    || eqb c 8287
    || eqb c 12288

-- `char::is_control`: general category Cc.
unfoldable pub is_control : ℕ → Bool
is_control c = ltb c 32 || leb 127 c && leb c 159

unfoldable pub is_ascii_digit : ℕ → Bool
is_ascii_digit c = leb b'0' c && leb c b'9'

unfoldable pub is_ascii_alphanumeric : ℕ → Bool
unfolding is_ascii_digit
is_ascii_alphanumeric c = is_ascii_digit c || leb b'a' c && leb c b'z' || leb b'A' c && leb c b'Z'

abbrev pub is_blank : String → Bool
is_blank [] = true
is_blank (c ∷ s) = false

abbrev pub every_char : (ℕ → Bool) → String → Bool
every_char p [] = true
every_char p (c ∷ s) = p (code c) && every_char p s

abbrev pub some_char : (ℕ → Bool) → String → Bool
some_char p [] = false
some_char p (c ∷ s) = p (code c) || some_char p s

pub trim_start : String → String
trim_start [] = []
trim_start (c ∷ s) = if is_whitespace (code c) then trim_start s else c ∷ s

-- A character stays if it is no white space or if one behind it stays.
trim_cons : Char → String → String
trim_cons c [] = if is_whitespace (code c) then [] else c ∷ []
trim_cons c (d ∷ s) = c ∷ d ∷ s

pub trim_end : String → String
unfolding trim_cons
trim_end [] = []
trim_end (c ∷ s) = trim_cons c (trim_end s)

-- `str::trim`.
unfoldable pub trim : String → String
unfolding trim_start trim_end is_whitespace
trim s = trim_end (trim_start s)

-- `chars().take(n).collect()`.
unfoldable pub take_chars : ℕ → String → String
take_chars zero s = []
take_chars (suc n) [] = []
take_chars (suc n) (c ∷ s) = c ∷ take_chars n s

line_cons : Char → String × Bool → String × Bool
line_cons c (l, found) =
    if eqb (code c) 10
    then ([], true)
    else if eqb (code c) 13 && is_blank l && found
    then ([], true)
    else (c ∷ l, found)

line_from : String → String × Bool
unfolding line_cons
line_from [] = ([], false)
line_from (c ∷ s) = line_cons c (line_from s)

-- `lines().next().unwrap_or("")`: up to the first line feed, less one carriage return before it.
unfoldable pub first_line : String → String
unfolding line_from
first_line s = (line_from s).0

abbrev pub starts_with_char : ℕ → String → Bool
starts_with_char k [] = false
starts_with_char k (c ∷ s) = eqb (code c) k

abbrev pub ends_with_char : ℕ → String → Bool
ends_with_char k [] = false
ends_with_char k (c ∷ []) = eqb (code c) k
ends_with_char k (c ∷ d ∷ s) = ends_with_char k (d ∷ s)

-- `strip_prefix(k).unwrap_or(s)`.
abbrev pub strip_char : ℕ → String → String
strip_char k [] = []
strip_char k (c ∷ s) = if eqb (code c) k then s else c ∷ s

split_cons : ℕ → Char → List String → List String
split_cons k c List.[] = List.[]
split_cons k c (List.◌∷◌ part rest) =
    if eqb (code c) k then List.◌∷◌ [] (List.◌∷◌ part rest) else List.◌∷◌ (c ∷ part) rest

-- `split(k)`: the parts between the separators, at least one.
unfoldable pub split : ℕ → String → List String
unfolding split_cons
split k [] = List.◌∷◌ [] List.[]
split k (c ∷ s) = split_cons k c (split k s)

-- `str::cmp` and SQLite's binary collation.
abbrev pub text_lt : String → String → Bool
text_lt a b = elim (compare a b) [ Ordering.lt ↦ true | _ ↦ false ]
