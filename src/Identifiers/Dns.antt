-- ===== src/Identifiers/Dns.antt =====
-- `validate_dns_identifier` and `_DNS_LABEL_RE`.
mod Labels
mod Split
pub mod Accepts
use lacme.Prelude.{
  ℕ, zero, suc, Bool, true, false, not, ◌||◌, ◌&&◌, Option, none, some, List, [], ◌∷◌, Str, str_eq,
  leb, ◌==◌, if◌then◌else◌, length, any, Result, ok, raise, value_error, ◌>>=◌, ◌>>◌, guard,
}
use lacme.Prelude.Text.{
  codes, is_empty, is_ascii, contains, strip_prefix, starts_with, lower, split,
}
use lacme.Identifiers.Platform.{Platform}

-- `[A-Za-z0-9]`
unfoldable pub is_alnum : ℕ → Bool
is_alnum c = (leb b'A' c && leb c b'Z') || (leb b'a' c && leb c b'z') || (leb b'0' c && leb c b'9')

-- `[A-Za-z0-9-]*[A-Za-z0-9]`
unfoldable pub ends_alnum : Str → Bool
ends_alnum [] = false
ends_alnum (c ∷ []) = is_alnum c
ends_alnum (c ∷ d ∷ s) = (is_alnum c || c == b'-') && ends_alnum (d ∷ s)

-- `_DNS_LABEL_RE.fullmatch(label)`: one character, or up to 61 between two
unfoldable pub label_re : Str → Bool
label_re [] = false
label_re (c ∷ []) = is_alnum c
label_re (c ∷ d ∷ s) = is_alnum c && ends_alnum (d ∷ s) && leb (length s) 61

module _ (py : Platform) where
  -- the A-label test
  unfoldable pub is_canonical : Str → Bool
  is_canonical label = elim (py.recode label) [
    | none ↦ false
    | some encoded ↦ str_eq (lower encoded) (lower label)
  ]

  unfoldable pub check_label : Str → Result (Unit {0})
  unfolding label_re is_canonical
  check_label label = do
    guard (leb (length label) 63 && label_re label) value_error
    guard (not (starts_with (lower label) (codes "xn--")) || is_canonical label) value_error

  unfoldable pub check_labels : List Str → Result (Unit {0})
  check_labels [] = ok tt
  check_labels (label ∷ labels) = let rest = check_labels labels in check_label label >> rest

  -- the name under a leading `*.`
  unfoldable pub strip_wildcard : Str → Bool → Result Str
  strip_wildcard value allow_wildcard = elim (strip_prefix (codes "*.") value) [
    | none ↦ ok value
    | some name ↦ if allow_wildcard then ok name else raise value_error
  ]

  unfoldable pub validate_dns_identifier : Str → Bool → Result Str
  validate_dns_identifier value allow_wildcard = do
    guard (not (is_empty value)) value_error
    guard (is_ascii value) value_error
    name ← strip_wildcard value allow_wildcard
    guard (not (contains name b'*')) value_error
    guard (leb (length value) 253) value_error
    guard (not (any is_empty (split b'.' name))) value_error
    check_labels (split b'.' name)
    ok value
