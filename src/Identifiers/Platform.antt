-- ===== src/Identifiers/Platform.antt =====
-- What lacme/_identifiers.py uses of `ipaddress` and of the package `idna`.
use lacme.Prelude.Text.{is_ascii, lower}
use lacme.Prelude.{true, Bool, ◌≡◌, Option, none, some, [], Str}

pub record Platform : Type 1 where
  -- `IPv4Address` and `IPv6Address`
  pub Address : Type 0
  -- `str(a)`
  pub address_text : Address → Str
  -- `ipaddress.ip_address(s)`
  pub ip_address : Str → Option Address
  -- `a.scope_id is not None`, for an IPv6 address
  pub is_scoped : Address → Bool
  -- `idna.encode(idna.decode(label), uts46=False, std3_rules=True)`; `none` for an IDNAError
  pub recode : Str → Option Str
  -- `s.lower()` on any text
  pub lower_text : Str → Str
  -- `ip_address(str(a)) == a`
  pub ip_address-text : (a : Address) → ip_address (address_text a) ≡ some a
  -- `ip_address("")` is a ValueError
  pub ip_address-nil : ip_address [] ≡ none
  -- On ASCII, the letters alone change.
  pub lower_text-ascii : (s : Str) → is_ascii s ≡ true → lower_text s ≡ lower s
