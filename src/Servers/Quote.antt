-- ===== src/Servers/Quote.antt =====
-- `urllib.parse.quote(text, safe="/")` of the standard library: the UTF-8 bytes of the text, those
-- outside letters, digits and `_.-~/` as a percent sign and two hexadecimal digits.
use syno_plex_change_monitor.Base.{
  ℕ, ◌+◌, ◌-◌, Bool, ◌&&◌, ◌||◌, List, [], ◌∷◌, ◌++◌, if◌then◌else◌, leb, ltb, ◌==◌, nat_eq,
}
use Prim.Native.Nat.{◌/◌, ◌%◌}
use syno_plex_change_monitor.Base.Text.{Text}

unfoldable pub utf8 : ℕ → List ℕ
utf8 c =
    if ltb c 128
    then c ∷ []
    else if ltb c 2048
    then (192 + c / 64) ∷ (128 + c % 64) ∷ []
    else if ltb c 65536
    then (224 + c / 4096) ∷ (128 + c / 64 % 64) ∷ (128 + c % 64) ∷ []
    else (240 + c / 262144) ∷ (128 + c / 4096 % 64) ∷ (128 + c / 64 % 64) ∷ (128 + c % 64) ∷ []

abbrev pub is_unquoted : ℕ → Bool
is_unquoted b =
    (leb b'a' b && leb b b'z')
    || (leb b'A' b && leb b b'Z')
    || (leb b'0' b && leb b b'9')
    || b == b'_'
    || b == b'.'
    || b == b'-'
    || b == b'~'
    || b == b'/'

unfoldable pub hex_digit : ℕ → ℕ
hex_digit n = if ltb n 10 then b'0' + n else b'A' + (n - 10)

unfoldable pub quote_byte : ℕ → Text
unfolding hex_digit nat_eq
quote_byte b = if is_unquoted b then b ∷ [] else b'%' ∷ hex_digit (b / 16) ∷ hex_digit (b % 16) ∷ []

unfoldable pub quote_bytes : List ℕ → Text
unfolding quote_byte
quote_bytes [] = []
quote_bytes (b ∷ bytes) = quote_byte b ++ quote_bytes bytes

unfoldable pub quote : Text → Text
unfolding utf8 quote_bytes
quote [] = []
quote (c ∷ s) = quote_bytes (utf8 c) ++ quote s
