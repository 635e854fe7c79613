-- ===== src/Base/Texts.antt =====
-- The standard library's operations on texts. A text is the list of its UTF-8 bytes.
use Prim.Native.Nat.{ℕ, zero, suc, ◌+◌, ◌/◌, ◌%◌}
use mathlib.Core.Bool.{Bool, true, false, ◌&&◌, ◌||◌}
use mathlib.Core.Option.{Option, none, some}
use mathlib.Core.List.{List, [], ◌∷◌, ◌++◌, reverse}
use not_an_oak_fork.Base.Lists.{length, drop}
use not_an_oak_fork.Base.Tests.{ltb, leb, ◌==◌, if◌then◌else◌}

abbrev between : ℕ → ℕ → ℕ → Bool
between lo hi b = leb lo b && leb b hi

-- a byte that continues a character
abbrev follows : ℕ → Bool
follows b = between 0x80 0xbf b

-- the first byte of a character, and the range that it leaves the second
abbrev second_fits : ℕ → ℕ → Bool
second_fits a b =
    if a == 0xe0
    then between 0xa0 0xbf b
    else if a == 0xed
    then between 0x80 0x9f b
    else if a == 0xf0
    then between 0x90 0xbf b
    else if a == 0xf4
    then between 0x80 0x8f b
    else follows b

-- `core::str::from_utf8` accepts the bytes. Each character takes one unit of fuel.
pub utf8_within : ℕ → List ℕ → Bool
utf8_within fuel [] = true
utf8_within zero (a ∷ r) = false
utf8_within (suc fuel) (a ∷ []) = leb a 0x7f
utf8_within (suc fuel) (a ∷ b ∷ []) =
    (leb a 0x7f && utf8_within fuel (b ∷ [])) || (between 0xc2 0xdf a && follows b)
utf8_within (suc fuel) (a ∷ b ∷ c ∷ []) =
    (leb a 0x7f && utf8_within fuel (b ∷ c ∷ []))
    || (between 0xc2 0xdf a && follows b && utf8_within fuel (c ∷ []))
    || (between 0xe0 0xef a && second_fits a b && follows c)
utf8_within (suc fuel) (a ∷ b ∷ c ∷ d ∷ r) =
    (leb a 0x7f && utf8_within fuel (b ∷ c ∷ d ∷ r))
    || (between 0xc2 0xdf a && follows b && utf8_within fuel (c ∷ d ∷ r))
    || (between 0xe0 0xef a && second_fits a b && follows c && utf8_within fuel (d ∷ r))
    || (between 0xf0 0xf4 a && second_fits a b && follows c && follows d && utf8_within fuel r)

unfoldable pub is_utf8 : List ℕ → Bool
unfolding utf8_within
is_utf8 bytes = utf8_within (length bytes) bytes

unfoldable pub from_utf8 : List ℕ → Option (List ℕ)
unfolding is_utf8
from_utf8 bytes = if is_utf8 bytes then some bytes else none

-- `strip_prefix`, and `strip_suffix` by the reversed text
unfoldable pub strip_prefix : List ℕ → List ℕ → Option (List ℕ)
strip_prefix [] t = some t
strip_prefix (p ∷ ps) [] = none
strip_prefix (p ∷ ps) (b ∷ bs) = if p == b then strip_prefix ps bs else none

abbrev reversed : Option (List ℕ) → Option (List ℕ)
reversed none = none
reversed (some t) = some (reverse t)

unfoldable pub strip_suffix : List ℕ → List ℕ → Option (List ℕ)
unfolding strip_prefix
strip_suffix p t = reversed (strip_prefix (reverse p) (reverse t))

-- `replace` of one ASCII character by nothing
unfoldable pub remove_char : ℕ → List ℕ → List ℕ
remove_char c [] = []
remove_char c (b ∷ bs) = if b == c then remove_char c bs else b ∷ remove_char c bs

unfoldable pub contains_char : ℕ → List ℕ → Bool
contains_char c [] = false
contains_char c (b ∷ bs) = (b == c) || contains_char c bs

-- White space in UTF-8: the number of bytes of a white character at the front, or 0; `white_end`
-- reads the bytes from the end.
abbrev white_byte : ℕ → Bool
white_byte b = between 0x09 0x0d b || (b == 0x20)

abbrev white_three : ℕ → ℕ → ℕ → Bool
white_three a b c =
    ((a == 0xe1) && (b == 0x9a) && (c == 0x80))
    || ((a == 0xe2)
        && (b == 0x80)
        && (between 0x80 0x8a c || (c == 0xa8) || (c == 0xa9) || (c == 0xaf)))
    || ((a == 0xe2) && (b == 0x81) && (c == 0x9f))
    || ((a == 0xe3) && (b == 0x80) && (c == 0x80))

abbrev white_two : ℕ → ℕ → Bool
white_two a b = (a == 0xc2) && ((b == 0x85) || (b == 0xa0))

abbrev white_start : List ℕ → ℕ
white_start [] = 0
white_start (a ∷ []) = if white_byte a then 1 else 0
white_start (a ∷ b ∷ []) = if white_byte a then 1 else if white_two a b then 2 else 0
white_start (a ∷ b ∷ c ∷ r) =
    if white_byte a then 1 else if white_two a b then 2 else if white_three a b c then 3 else 0

abbrev white_end : List ℕ → ℕ
white_end [] = 0
white_end (a ∷ []) = if white_byte a then 1 else 0
white_end (a ∷ b ∷ []) = if white_byte a then 1 else if white_two b a then 2 else 0
white_end (a ∷ b ∷ c ∷ r) =
    if white_byte a then 1 else if white_two b a then 2 else if white_three c b a then 3 else 0

pub trim_front : (List ℕ → ℕ) → ℕ → List ℕ → List ℕ
trim_front white zero t = t
trim_front white (suc fuel) t =
    let n = white t in let rest = trim_front white fuel (drop n t) in if n == 0 then t else rest

-- `str::trim`
unfoldable pub trim : List ℕ → List ℕ
unfolding trim_front
trim t =
    let front = trim_front white_start (length t) t in
    reverse (trim_front white_end (length front) (reverse front))

-- The decimal digits of a number; each digit takes one unit of fuel.
pub decimal_within : ℕ → ℕ → List ℕ
decimal_within zero n = []
decimal_within (suc fuel) n =
    if ltb n 10 then (b'0' + n) ∷ [] else decimal_within fuel (n / 10) ++ ((b'0' + n % 10) ∷ [])

unfoldable pub decimal : ℕ → List ℕ
unfolding decimal_within
decimal n = decimal_within (suc n) n
