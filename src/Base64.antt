-- ===== src/Base64.antt =====
-- lacme/crypto.py `b64url_encode` and lacme/_jose.py `b64url_decode_strict`, with what they use of
-- Python's `base64`: bytes and characters are numbers.
mod Alphabet
pub mod RoundTrip
unfoldable pub use Alphabet.{symbol, digit, is_symbol}
pub use Alphabet.{digit-symbol, symbol-IsSymbol, digit_bound, symbol-ne-pad}
use lacme.Prelude.{
  ℕ, zero, suc, ◌+◌, ◌*◌, ◌/◌, ◌%◌, ◌<◌, Bool, true, false, not, ◌&&◌, ◌||◌, List, [], ◌∷◌, ◌++◌,
  ◌==◌, if◌then◌else◌, Str, str_eq, length, all, Result, ok, raise, value_error, ◌>>=◌, ◌>>◌, guard,
  All,
}
use lacme.Prelude.Text.{rstrip}

abbrev pub IsBytes : Str → Type 0
IsBytes = All (λ b. b < 256)

-- `base64.urlsafe_b64encode`: three bytes to four symbols, with `=` for what is missing at the end.
unfoldable pub urlsafe_b64encode : Str → Str
urlsafe_b64encode [] = []
urlsafe_b64encode (a ∷ []) = symbol (a / 4) ∷ symbol (a % 4 * 16) ∷ b'=' ∷ b'=' ∷ []
urlsafe_b64encode (a ∷ b ∷ []) =
    symbol (a / 4) ∷ symbol (a % 4 * 16 + b / 16) ∷ symbol (b % 16 * 4) ∷ b'=' ∷ []
urlsafe_b64encode (a ∷ b ∷ c ∷ r) =
    symbol (a / 4)
    ∷ symbol (a % 4 * 16 + b / 16)
    ∷ symbol (b % 16 * 4 + c / 64)
    ∷ symbol (c % 64)
    ∷ urlsafe_b64encode r

unfoldable pub b64url_encode : Str → Str
unfolding urlsafe_b64encode
b64url_encode data' = rstrip b'=' (urlsafe_b64encode data')

-- One group of four symbols. `last` says that no group follows, and `rest` is what follows decodes to.
unfoldable pub decode_group : ℕ → ℕ → ℕ → ℕ → Bool → Result Str → Result Str
decode_group w x y z last rest =
    let a = digit w * 4 + digit x / 16 in
    let b = digit x % 16 * 16 + digit y / 4 in
    let c = digit y % 4 * 64 + digit z in
    if not (is_symbol w && is_symbol x)
    then raise value_error
    else if y == b'=' && z == b'=' && last
    then ok (a ∷ [])
    else if not (is_symbol y)
    then raise value_error
    else if z == b'=' && last
    then ok (a ∷ b ∷ [])
    else if not (is_symbol z)
    then raise value_error
    else (do tail ← rest; ok (a ∷ b ∷ c ∷ tail))

-- `base64.b64decode(padded, altchars=b"-_", validate=True)` on a text of whole groups of four.
-- The bits below the last byte are dropped, as Python does.
unfoldable pub b64decode : Str → Result Str
unfolding decode_group
b64decode [] = ok []
b64decode (w ∷ x ∷ y ∷ z ∷ r) = decode_group w x y z (str_eq r []) (b64decode r)
b64decode _ = raise value_error

-- `"=" * (-n % 4)`
unfoldable pub padding : ℕ → Str
padding n =
    if n % 4 == 0
    then []
    else if n % 4 == 1
    then b'=' ∷ b'=' ∷ b'=' ∷ []
    else if n % 4 == 2
    then b'=' ∷ b'=' ∷ []
    else b'=' ∷ []

-- `value` is a string here; `Jose.decode_field` has the test for that.
unfoldable pub b64url_decode_strict : Str → Result Str
b64url_decode_strict value = do
  guard (all is_symbol value && not (length value % 4 == 1)) value_error
  decoded ← b64decode (value ++ padding (length value))
  guard (str_eq (b64url_encode decoded) value) value_error
  ok decoded
