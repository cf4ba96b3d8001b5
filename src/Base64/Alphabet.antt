-- ===== src/Base64/Alphabet.antt =====
-- The base64url alphabet, and that its two tables are inverse to one another.
use lacme.Prelude.{
  ℕ, ◌+◌, ◌-◌, ◌<◌, ◌≡◌, refl, Bool, true, false, ◌&&◌, ◌||◌, leb, ltb, ◌==◌, if◌then◌else◌, arith,
  all_below, all_below_sound, ==_iff,
}

-- `A-Z a-z 0-9 - _` for 0 to 63
unfoldable pub symbol : ℕ → ℕ
symbol n =
    if ltb n 26
    then b'A' + n
    else if ltb n 52
    then b'a' + (n - 26)
    else if ltb n 62
    then b'0' + (n - 52)
    else if n == 62
    then b'-'
    else b'_'

-- the character class `[A-Za-z0-9_-]`
unfoldable pub is_symbol : ℕ → Bool
is_symbol c =
    (leb b'A' c && leb c b'Z')
    || (leb b'a' c && leb c b'z')
    || (leb b'0' c && leb c b'9')
    || c == b'_'
    || c == b'-'

unfoldable pub digit : ℕ → ℕ
digit c =
    if leb b'A' c && leb c b'Z'
    then c - b'A'
    else if leb b'a' c && leb c b'z'
    then c - b'a' + 26
    else if leb b'0' c && leb c b'9'
    then c - b'0' + 52
    else if c == b'-'
    then 62
    else 63

digit_table : all_below 64 (λ n. digit (symbol n) == n) ≡ true
unfolding all_below digit symbol
digit_table = refl

symbol_table : all_below 64 (λ n. is_symbol (symbol n)) ≡ true
unfolding all_below is_symbol symbol
symbol_table = refl

pub digit-symbol : (n : ℕ) → n < 64 → digit (symbol n) ≡ n
digit-symbol n h = (==_iff _ n).0 (all_below_sound 64 _ n digit_table h)

pub symbol-IsSymbol : (n : ℕ) → n < 64 → is_symbol (symbol n) ≡ true
symbol-IsSymbol n h = all_below_sound 64 _ n symbol_table h

pub digit_bound : (c : ℕ) → digit c < 64
unfolding digit
digit_bound c = ground arith

-- `=` is none of the symbols.
pub symbol-ne-pad : (n : ℕ) → symbol n == b'=' ≡ false
unfolding symbol
symbol-ne-pad n = ground arith
