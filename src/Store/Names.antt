-- ===== src/Store/Names.antt =====
-- The directory of a certificate key: `FileStore._validate_domain_key`,
-- `_is_portable_domain_component` and `_domain_component` of store.py.
pub mod Safe
use lacme.Prelude.{
  ℕ, ◌+◌, ◌-◌, ◌≡◌, Bool, true, false, not, ◌&&◌, ◌||◌, List, [], ◌∷◌, ◌++◌, map, any, all, length,
  ltb, leb, ◌==◌, if◌then◌else◌, String, Str, str_eq, Result, ok, guard, ◌>>◌, value_error,
}
use lacme.Prelude.Text.{codes, is_empty, contains, starts_with}

unfoldable pub is_hex_digit : ℕ → Bool
is_hex_digit c = (leb b'0' c && leb c b'9') || (leb b'a' c && leb c b'f')

-- `hashlib.sha256(text.encode("utf-8")).hexdigest()`
pub record Sha256 : Type 0 where
  pub hexdigest : Str → Str
  pub hexdigest-hex : (s : Str) → all is_hex_digit (hexdigest s) ≡ true
  pub length-hexdigest : (s : Str) → length (hexdigest s) ≡ 64

abbrev pub cert_dir_prefix : Str
cert_dir_prefix = codes "lacme-v2-"

abbrev pub windows_invalid_chars : Str
windows_invalid_chars = codes "<>:\"/\\|?*"

abbrev pub numbered : String → List Str
numbered s =
    map (λ i. codes s ++ i ∷ []) (b'1' ∷ b'2' ∷ b'3' ∷ b'4' ∷ b'5' ∷ b'6' ∷ b'7' ∷ b'8' ∷ b'9' ∷ [])

abbrev pub windows_reserved_names : List Str
windows_reserved_names =
    codes "CON" ∷ codes "PRN" ∷ codes "AUX" ∷ codes "NUL" ∷ numbered "COM" ++ numbered "LPT"

-- `len(char.encode("utf-8"))`, and `len(char.encode("utf-16-le")) // 2`
abbrev pub utf8_size : ℕ → ℕ
utf8_size c = if ltb c 128 then 1 else if ltb c 2048 then 2 else if ltb c 65536 then 3 else 4

abbrev pub utf16_size : ℕ → ℕ
utf16_size c = if ltb c 65536 then 1 else 2

unfoldable pub size_of : (ℕ → ℕ) → Str → ℕ
size_of size [] = 0
size_of size (c ∷ s) = size c + size_of size s

-- `encode` raises a UnicodeEncodeError, which is a ValueError, on a surrogate.
unfoldable pub is_encodable : Str → Bool
is_encodable s = all (λ c. not (leb 55296 c && leb c 57343)) s

-- `s.split(".", 1)[0]`
unfoldable pub before_dot : Str → Str
before_dot [] = []
before_dot (c ∷ s) = let rest = before_dot s in if c == b'.' then [] else c ∷ rest

abbrev pub is_space_or_dot : ℕ → Bool
is_space_or_dot c = (c == b' ') || (c == b'.')

-- `s.rstrip(" .")`
unfoldable pub rstrip_space_dot : Str → Str
rstrip_space_dot [] = []
rstrip_space_dot (c ∷ s) =
    let rest = rstrip_space_dot s in if is_space_or_dot c && is_empty rest then [] else c ∷ rest

-- `s.endswith((" ", "."))`
unfoldable pub ends_space_dot : Str → Bool
ends_space_dot [] = false
ends_space_dot (c ∷ s) = if is_empty s then is_space_or_dot c else ends_space_dot s

-- `s.upper()` on ASCII. No other character has an upper case with a letter of a reserved name.
unfoldable pub upper : Str → Str
upper = map (λ c. if leb b'a' c && leb c b'z' then c - 32 else c)

abbrev pub is_dot_name : Str → Bool
is_dot_name s = str_eq s (codes ".") || str_eq s (codes "..")

abbrev pub is_invalid_char : ℕ → Bool
is_invalid_char c = ltb c 32 || contains windows_invalid_chars c

-- `_validate_domain_key`
unfoldable pub validate_domain_key : Str → Result (Unit {0})
validate_domain_key domain = do
  guard (not (is_empty domain)) value_error
  guard (not (is_dot_name domain)) value_error
  guard (not (contains domain b'/' || contains domain b'\\')) value_error

-- `_is_portable_domain_component`, on a text that can be encoded
unfoldable pub is_portable_domain_component : Str → Bool
unfolding before_dot rstrip_space_dot ends_space_dot upper size_of
is_portable_domain_component domain =
    not (is_dot_name domain)
    && not (any is_invalid_char domain)
    && not (ends_space_dot domain)
    && not (any (str_eq (upper (rstrip_space_dot (before_dot domain)))) windows_reserved_names)
    && leb (size_of utf16_size domain) 255

unfoldable pub is_portable : Str → Bool
unfolding is_portable_domain_component size_of starts_with
is_portable domain =
    not (starts_with domain cert_dir_prefix)
    && is_portable_domain_component domain
    && leb (size_of utf8_size domain) 200

unfoldable pub component_of : Sha256 → Str → Str
unfolding is_portable
component_of sha256 domain =
    if is_portable domain then domain else cert_dir_prefix ++ sha256.hexdigest domain

-- `_domain_component`
unfoldable pub domain_component : Sha256 → Str → Result Str
unfolding validate_domain_key is_encodable component_of
domain_component sha256 domain = do
  validate_domain_key domain
  guard (is_encodable domain) value_error
  ok (component_of sha256 domain)
