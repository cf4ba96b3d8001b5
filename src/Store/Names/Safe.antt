-- ===== src/Store/Names/Safe.antt =====
-- What a directory name is, whatever key it is made from.
use lacme.Prelude.{
  ℕ, ◌≡◌, ◌≤◌, refl, Bool, true, false, not, ◌&&◌, [], ◌∷◌, ◌++◌, any, all, length, leb, ◌==◌, Str,
  str_eq, ok, guard, ◌>>◌, value_error, arith, Bool-cases, ◌⊎◌, inl, inr, subst, sym, ap, ◌∙◌,
  &&-eq-true, leb→le, guard-eq-ok, ok-injective, >>=-eq-ok,
}
use lacme.Prelude.Text.{starts_with, strip_prefix}
use lacme.Store.Names.{
  is_hex_digit, Sha256, cert_dir_prefix, windows_reserved_names, utf8_size, utf16_size, size_of,
  is_encodable, before_dot, is_space_or_dot, rstrip_space_dot, ends_space_dot, upper, is_dot_name,
  is_invalid_char, validate_domain_key, is_portable_domain_component, is_portable, component_of,
  domain_component,
}

-- a hash, seen character by character
hex-valid : (c : ℕ) → is_hex_digit c ≡ true → is_invalid_char c ≡ false
unfolding is_hex_digit
hex-valid c h = ground arith

hex-no_slash : (c : ℕ) → is_hex_digit c ≡ true → (c == b'/' ≡ false) × (c == b'\\' ≡ false)
unfolding is_hex_digit
hex-no_slash c h = ground arith

hex-no_dot : (c : ℕ) → is_hex_digit c ≡ true → (c == b'.' ≡ false) × (is_space_or_dot c ≡ false)
unfolding is_hex_digit
hex-no_dot c h = ground arith

hex-ascii : (c : ℕ) → is_hex_digit c ≡ true → (utf8_size c ≡ 1) × (utf16_size c ≡ 1)
unfolding is_hex_digit
hex-ascii c h = ground arith

any_none :
    (p q : ℕ → Bool)
    → ((c : ℕ) → p c ≡ true → q c ≡ false)
    → (s : Str) → all p s ≡ true
    → any q s ≡ false
any_none p q f [] h = refl
any_none p q f (c ∷ s) h = ground (arith, f c, any_none p q f s)

before_dot-hex : (s : Str) → all is_hex_digit s ≡ true → before_dot s ≡ s
unfolding before_dot
before_dot-hex [] h = refl
before_dot-hex (c ∷ s) h = ground (arith, hex-no_dot c, before_dot-hex s)

rstrip-hex : (s : Str) → all is_hex_digit s ≡ true → rstrip_space_dot s ≡ s
unfolding rstrip_space_dot
rstrip-hex [] h = refl
rstrip-hex (c ∷ s) h = ground (arith, hex-no_dot c, rstrip-hex s)

ends-hex : (s : Str) → all is_hex_digit s ≡ true → ends_space_dot s ≡ false
unfolding ends_space_dot
ends-hex [] h = refl
ends-hex (c ∷ []) h = ground (arith, hex-no_dot c)
ends-hex (c ∷ d ∷ s) h = ground (arith, ends-hex (d ∷ s))

size-hex :
    (s : Str)
    → all is_hex_digit s ≡ true
    → (size_of utf8_size s ≡ length s) × (size_of utf16_size s ≡ length s)
unfolding size_of
size-hex [] h = (refl, refl)
size-hex (c ∷ s) h = ground (arith, hex-ascii c, size-hex s)

five_tests :
    (a b c d e : Bool)
    → a ≡ false
    → b ≡ false
    → c ≡ false
    → d ≡ false
    → e ≡ true
    → (not a && not b && not c && not d && e) ≡ true
five_tests a b c d e pa pb pc pd pe = rw (pa, pb, pc, pd, pe) refl

-- the hash of a key, as a directory name
module _ (s : Str) (hex : all is_hex_digit s ≡ true) (len : length s ≡ 64) where
  hashed-first : before_dot (cert_dir_prefix ++ s) ≡ cert_dir_prefix ++ s
  unfolding before_dot
  hashed-first = rw (before_dot-hex s hex) refl

  hashed-rstrip : rstrip_space_dot (cert_dir_prefix ++ s) ≡ cert_dir_prefix ++ s
  unfolding rstrip_space_dot
  hashed-rstrip = rw (rstrip-hex s hex) refl

  hashed-chars : any is_invalid_char (cert_dir_prefix ++ s) ≡ false
  hashed-chars = any_none _ _ hex-valid s hex

  hashed-end : ends_space_dot (cert_dir_prefix ++ s) ≡ false
  unfolding ends_space_dot
  hashed-end = ground (arith, ends-hex s hex)

  hashed-reserved : any (str_eq (upper (cert_dir_prefix ++ s))) windows_reserved_names ≡ false
  unfolding upper str_eq
  hashed-reserved = refl

  hashed-device :
      any
        (str_eq (upper (rstrip_space_dot (before_dot (cert_dir_prefix ++ s)))))
        windows_reserved_names
      ≡ false
  hashed-device =
      subst (λ t. any (str_eq (upper t)) windows_reserved_names ≡ false)
        (sym (ap rstrip_space_dot hashed-first ∙ hashed-rstrip)) hashed-reserved

  hashed-units : leb (size_of utf16_size (cert_dir_prefix ++ s)) 255 ≡ true
  unfolding size_of
  hashed-units = ground (arith, (size-hex s hex).1)

  hashed-no_dots : is_dot_name (cert_dir_prefix ++ s) ≡ false
  unfolding str_eq
  hashed-no_dots = refl

  hashed-portable : is_portable_domain_component (cert_dir_prefix ++ s) ≡ true
  unfolding is_portable_domain_component
  hashed-portable =
      five_tests _ _ _ _ _ hashed-no_dots hashed-chars hashed-end hashed-device hashed-units

  hashed-size : size_of utf8_size (cert_dir_prefix ++ s) ≤ 200
  unfolding size_of
  hashed-size = omega (arith, (size-hex s hex).0)

  hashed-valid : validate_domain_key (cert_dir_prefix ++ s) ≡ ok tt
  unfolding validate_domain_key str_eq
  hashed-valid =
      rw
        (
          any_none _ _ (λ c h. (hex-no_slash c h).0) s hex,
          any_none _ _ (λ c h. (hex-no_slash c h).1) s hex,
        )
        refl

not-eq-true : (b : Bool) → not b ≡ true → b ≡ false
not-eq-true true h = sym h
not-eq-true false h = refl

is_portable-parts :
    (domain : Str)
    → is_portable domain ≡ true
    → (starts_with domain cert_dir_prefix ≡ false)
      × (is_portable_domain_component domain ≡ true)
      × (size_of utf8_size domain ≤ 200)
unfolding is_portable
is_portable-parts domain h =
    let (p, fits) = &&-eq-true _ _ h in
    let (fresh, portable) = &&-eq-true _ _ p in (not-eq-true _ fresh, portable, leb→le _ _ fits)

abbrev IsSafe : Str → Type 0
IsSafe c =
    (validate_domain_key c ≡ ok tt)
    × (is_portable_domain_component c ≡ true)
    × (size_of utf8_size c ≤ 200)

component_of-IsSafe :
    (sha256 : Sha256) (domain : Str)
    → validate_domain_key domain ≡ ok tt
    → IsSafe (component_of sha256 domain)
unfolding component_of
component_of-IsSafe sha256 domain valid = elim (Bool-cases (is_portable domain)) [
  | inl plain ↦
      rw plain (valid, (is_portable-parts domain plain).1, (is_portable-parts domain plain).2)
  | inr hashed ↦
      let hex = sha256.hexdigest-hex domain in
      let len = sha256.length-hexdigest domain in
      rw hashed (hashed-valid _ hex len, hashed-portable _ hex len, hashed-size _ hex len)
]

-- What a key that gets a directory name has passed.
pub domain_component-eq-ok :
    (sha256 : Sha256) (domain c : Str)
    → domain_component sha256 domain ≡ ok c
    → (validate_domain_key domain ≡ ok tt) × (component_of sha256 domain ≡ c)
unfolding domain_component
domain_component-eq-ok sha256 domain c h =
    let (u, valid, rest) =
      >>=-eq-ok (validate_domain_key domain)
        (λ _. guard (is_encodable domain) value_error >> ok (component_of sha256 domain)) h in
    (valid, ok-injective (guard-eq-ok (is_encodable domain) value_error _ rest).1)

pub domain_component-IsPortable :
    (sha256 : Sha256) (domain c : Str)
    → domain_component sha256 domain ≡ ok c
    → (validate_domain_key c ≡ ok tt)
      × (is_portable_domain_component c ≡ true)
      × (size_of utf8_size c ≤ 200)
domain_component-IsPortable sha256 domain c h =
    let (valid, made) = domain_component-eq-ok sha256 domain c h in
    rw (← made) (component_of-IsSafe sha256 domain valid)

-- A portable name is no hash.
component_of-cases :
    (sha256 : Sha256) (d : Str)
    → ((component_of sha256 d ≡ d) × (starts_with d cert_dir_prefix ≡ false))
      ⊎ (component_of sha256 d ≡ cert_dir_prefix ++ sha256.hexdigest d)
unfolding component_of
component_of-cases sha256 d = elim (Bool-cases (is_portable d)) [
  | inl plain ↦ inl (rw plain refl, (is_portable-parts d plain).0)
  | inr hashed ↦ inr (rw hashed refl)
]

starts_with_prefix : (s : Str) → starts_with (cert_dir_prefix ++ s) cert_dir_prefix ≡ true
unfolding starts_with strip_prefix
starts_with_prefix s = refl

cancel_prefix : (s t : Str) → cert_dir_prefix ++ s ≡ cert_dir_prefix ++ t → s ≡ t
cancel_prefix s t h = cc h

-- Two keys of one directory name are the same key, unless the two have one hash.
pub component_of-injective :
    (sha256 : Sha256) (d e : Str)
    → (sha256.hexdigest d ≡ sha256.hexdigest e → d ≡ e)
    → component_of sha256 d ≡ component_of sha256 e
    → d ≡ e
component_of-injective sha256 d e no_collision same = elim (component_of-cases sha256 d) [
  | inl (plain, fresh) ↦ elim (component_of-cases sha256 e) [
    | inl (plain', fresh') ↦ cc (plain, plain', same)
    | inr hashed ↦ cc (starts_with_prefix (sha256.hexdigest e), hashed, plain, same, fresh)
  ]
  | inr hashed ↦ elim (component_of-cases sha256 e) [
    | inl (plain, fresh) ↦ cc (starts_with_prefix (sha256.hexdigest d), hashed, plain, same, fresh)
    | inr hashed' ↦ no_collision (cancel_prefix _ _ (cc (hashed, hashed', same)))
  ]
]
