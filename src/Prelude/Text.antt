-- ===== src/Prelude/Text.antt =====
-- Text as the native `String`: its UTF-8 bytes, and the decimal print and parse of `u64`.
use Prim.Native.Nat.{ℕ, zero, suc, ◌+◌, ◌-◌, ◌*◌, ◌/◌, ◌%◌, ◌^◌}
use Prim.Native.Char.{Char, code}
use Prim.Native.String.{String, char_at}
use mathlib.Core.Bool.{Bool, true, false, ◌&&◌}
use mathlib.Core.Path.{◌≡◌, refl}
use mathlib.Core.List.{List, ◌++◌}
use mathlib.Core.Option
use mathlib.Core.Option.{Option, none, some}
use kademlia_blockchain_auct.Prelude.Tests.{ltb, leb, ◌==◌, if◌then◌else◌}
pub use text.Mathlib.Text.{◌==◌ as str_eq}
pub use text.Mathlib.TextEquality.{eq_iff as str_eq_iff}
pub use text.Mathlib.TextPositions.{eq_refl as str_eq_refl}

infixr 65 ◌<>◌
-- Two texts after one another, as `format!("{}{}", a, b)` writes them.
abbrev pub ◌<>◌ : String → String → String
a <> b = Prim.Native.String.◌++◌ a b

-- The bytes of one code point.
utf8_char : ℕ → List ℕ
utf8_char c =
    if ltb c 0x80
    then List.◌∷◌ c List.[]
    else if ltb c 0x800
    then List.◌∷◌ (0xc0 + c / 64) (List.◌∷◌ (0x80 + c % 64) List.[])
    else if ltb c 0x10000
    then List.◌∷◌ (0xe0 + c / 4096)
        (List.◌∷◌ (0x80 + c / 64 % 64) (List.◌∷◌ (0x80 + c % 64) List.[]))
    else List.◌∷◌ (0xf0 + c / 262144) (
        List.◌∷◌ (0x80 + c / 4096 % 64)
          (List.◌∷◌ (0x80 + c / 64 % 64) (List.◌∷◌ (0x80 + c % 64) List.[])))

-- `as_ref::<[u8]>()` of a text.
unfoldable pub as_bytes : String → List ℕ
unfolding utf8_char
as_bytes String.[] = List.[]
as_bytes (String.◌∷◌ c s) = utf8_char (code c) ++ as_bytes s

abbrev pub u64_mod : ℕ
u64_mod = 2 ^ 64

show_digits : ℕ → ℕ → String → String
show_digits zero n out = out
show_digits (suc f) n out =
    let out' = String.◌∷◌ (char_at "0123456789" (n % 10)) out in
    let rest = show_digits f (n / 10) out' in if n / 10 == 0 then out' else rest

-- `Display` of a `u64`: at most twenty digits.
unfoldable pub show_u64 : ℕ → String
unfolding show_digits
show_u64 n = show_digits 20 n String.[]

-- The digits of a number below `bound` behind the number read so far; one that does not fit is an
-- error.
parse_digits : ℕ → ℕ → String → Option ℕ
parse_digits bound n String.[] = some n
parse_digits bound n (String.◌∷◌ c s) =
    let m = n * 10 + (code c - b'0') in
    let rest = parse_digits bound m s in
    if leb b'0' (code c) && leb (code c) b'9' && ltb m bound then rest else none

-- At least one digit.
parse_number : ℕ → String → Option ℕ
unfolding parse_digits
parse_number bound String.[] = none
parse_number bound (String.◌∷◌ c s) = parse_digits bound 0 (String.◌∷◌ c s)

-- `str::parse` of an unsigned integer: a leading `+` is accepted.
unfoldable pub parse_uint : ℕ → String → Option ℕ
unfolding parse_number
parse_uint bound String.[] = none
parse_uint bound (String.◌∷◌ c s) =
    if code c == b'+' then parse_number bound s else parse_number bound (String.◌∷◌ c s)

-- `str::parse::<u64>`
abbrev pub parse_u64 : String → Option ℕ
parse_u64 s = parse_uint u64_mod s

-- `str::parse::<i64>`: the sign, and the number without it.
unfoldable pub parse_signed : String → Option (Bool × ℕ)
unfolding parse_number
parse_signed String.[] = none
parse_signed (String.◌∷◌ c s) =
    if code c == b'-'
    then Option.map (λ n. (true, n)) (parse_number (2 ^ 63 + 1) s)
    else if code c == b'+'
    then Option.map (λ n. (false, n)) (parse_number (2 ^ 63) s)
    else Option.map (λ n. (false, n)) (parse_number (2 ^ 63) (String.◌∷◌ c s))

-- `lines`: a line ends at a line feed, or at a carriage return before one.
prepend : Char → List String → List String
prepend c List.[] = List.◌∷◌ (String.◌∷◌ c String.[]) List.[]
prepend c (List.◌∷◌ l ls) = List.◌∷◌ (String.◌∷◌ c l) ls

starts_with_newline : String → Bool
starts_with_newline String.[] = false
starts_with_newline (String.◌∷◌ c s) = code c == b'\n'

unfoldable pub lines : String → List String
unfolding prepend starts_with_newline
lines String.[] = List.[]
lines (String.◌∷◌ c s) =
    if code c == b'\n'
    then List.◌∷◌ String.[] (lines s)
    else if code c == b'\r' && starts_with_newline s
    then lines s
    else prepend c (lines s)

-- `starts_with`
unfoldable pub starts_with : String → String → Bool
starts_with String.[] s = true
starts_with (String.◌∷◌ c p) String.[] = false
starts_with (String.◌∷◌ c p) (String.◌∷◌ d s) = code c == code d && starts_with p s

two_lines : lines "a\r\nb\n" ≡ List.◌∷◌ "a" (List.◌∷◌ "b" List.[])
unfolding lines
two_lines = refl

show_max : show_u64 18446744073709551615 ≡ "18446744073709551615"
unfolding show_u64
show_max = refl

parse_max : parse_u64 "18446744073709551615" ≡ some 18446744073709551615
unfolding parse_uint
parse_max = refl

parse_overflow : parse_u64 "18446744073709551616" ≡ none
unfolding parse_uint
parse_overflow = refl
