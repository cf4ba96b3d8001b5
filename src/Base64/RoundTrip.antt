-- ===== src/Base64/RoundTrip.antt =====
-- The strict decoder accepts exactly what the encoder writes.
use lacme.Prelude.{
  ℕ, suc, ◌+◌, ◌*◌, ◌/◌, ◌%◌, ◌<◌, ◌≡◌, ◌↔◌, ◌⊎◌, subst, refl, sym, ap, ◌∙◌, Bool, true, false, not,
  ◌&&◌, [], ◌∷◌, ◌++◌, ◌==◌, arith, Str, str_eq, str_eq_iff, str_eq_refl, length, all, Result, ok,
  raise, value_error, >>=-eq-ok, guard-eq-ok, ok-injective, inl, inr,
}
use lacme.Prelude.Text.{rstrip}
use lacme.Base64.{
  IsBytes, urlsafe_b64encode, b64url_encode, decode_group, b64decode, padding, b64url_decode_strict,
  symbol, digit, is_symbol, digit-symbol, symbol-IsSymbol, digit_bound, symbol-ne-pad,
}

-- The encoder's text with no padding.
plain : Str → Str
plain [] = []
plain (a ∷ []) = symbol (a / 4) ∷ symbol (a % 4 * 16) ∷ []
plain (a ∷ b ∷ []) = symbol (a / 4) ∷ symbol (a % 4 * 16 + b / 16) ∷ symbol (b % 16 * 4) ∷ []
plain (a ∷ b ∷ c ∷ r) =
    symbol (a / 4)
    ∷ symbol (a % 4 * 16 + b / 16)
    ∷ symbol (b % 16 * 4 + c / 64)
    ∷ symbol (c % 64)
    ∷ plain r

rstrip-symbol : (n : ℕ) (s : Str) → rstrip b'=' (symbol n ∷ s) ≡ symbol n ∷ rstrip b'=' s
unfolding rstrip
rstrip-symbol n s = rw symbol-ne-pad

b64url_encode-plain : (d : Str) → b64url_encode d ≡ plain d
unfolding b64url_encode plain
b64url_encode-plain [] = unfold rstrip in refl
b64url_encode-plain (a ∷ []) = simp rstrip-symbol (unfold rstrip in refl)
b64url_encode-plain (a ∷ b ∷ []) = simp rstrip-symbol (unfold rstrip in refl)
b64url_encode-plain (a ∷ b ∷ c ∷ r) = simp (rstrip-symbol, b64url_encode-plain r)

plain_symbols : (d : Str) → IsBytes d → all is_symbol (plain d) ≡ true
unfolding plain
plain_symbols [] h = refl
plain_symbols (a ∷ []) h = ground (arith, symbol-IsSymbol (a / 4), symbol-IsSymbol (a % 4 * 16))
plain_symbols (a ∷ b ∷ []) h = ground (
  arith,
  symbol-IsSymbol (a / 4),
  symbol-IsSymbol (a % 4 * 16 + b / 16),
  symbol-IsSymbol (b % 16 * 4),
)
plain_symbols (a ∷ b ∷ c ∷ r) h = ground (
  arith,
  symbol-IsSymbol (a / 4),
  symbol-IsSymbol (a % 4 * 16 + b / 16),
  symbol-IsSymbol (b % 16 * 4 + c / 64),
  symbol-IsSymbol (c % 64),
  plain_symbols r h.1.1.1,
)

padding_period : (n : ℕ) → padding (suc (suc (suc (suc n)))) ≡ padding n
unfolding padding
padding_period n = let e : suc (suc (suc (suc n))) % 4 ≡ n % 4 = omega arith in rw e

plain_padded : (d : Str) → plain d ++ padding (length (plain d)) ≡ urlsafe_b64encode d
unfolding plain urlsafe_b64encode
plain_padded [] = unfold padding in refl
plain_padded (a ∷ []) = unfold padding in refl
plain_padded (a ∷ b ∷ []) = unfold padding in refl
plain_padded (a ∷ b ∷ c ∷ r) = simp (padding_period, plain_padded r)

length-plain : (d : Str) → length (plain d) % 4 == 1 ≡ false
unfolding plain
length-plain [] = refl
length-plain (a ∷ []) = refl
length-plain (a ∷ b ∷ []) = refl
length-plain (a ∷ b ∷ c ∷ r) = ground (arith, length-plain r)

-- What each shape of the last group decodes to.
module _ (a b c : ℕ) (ha : a < 256) where
  decode_group_one :
      (rest : Result Str)
      → decode_group (symbol (a / 4)) (symbol (a % 4 * 16)) b'=' b'=' true rest ≡ ok (a ∷ [])
  unfolding decode_group
  decode_group_one rest = ground (
    arith,
    symbol-IsSymbol (a / 4),
    symbol-IsSymbol (a % 4 * 16),
    digit-symbol (a / 4),
    digit-symbol (a % 4 * 16),
  )

  module _ (hb : b < 256) where
    decode_group_two :
        (rest : Result Str)
        → decode_group
            (symbol (a / 4))
            (symbol (a % 4 * 16 + b / 16))
            (symbol (b % 16 * 4))
            b'='
            true
            rest
          ≡ ok (a ∷ b ∷ [])
    unfolding decode_group
    decode_group_two rest = ground (
      arith,
      symbol-IsSymbol (a / 4),
      symbol-IsSymbol (a % 4 * 16 + b / 16),
      symbol-IsSymbol (b % 16 * 4),
      symbol-ne-pad (b % 16 * 4),
      digit-symbol (a / 4),
      digit-symbol (a % 4 * 16 + b / 16),
      digit-symbol (b % 16 * 4),
    )

    decode_group_three :
        c < 256
        → (last : Bool) (tail : Str)
        → decode_group
            (symbol (a / 4))
            (symbol (a % 4 * 16 + b / 16))
            (symbol (b % 16 * 4 + c / 64))
            (symbol (c % 64))
            last
            (ok tail)
          ≡ ok (a ∷ b ∷ c ∷ tail)
    unfolding decode_group
    decode_group_three hc last tail = ground (
      arith,
      symbol-IsSymbol (a / 4),
      symbol-IsSymbol (a % 4 * 16 + b / 16),
      symbol-IsSymbol (b % 16 * 4 + c / 64),
      symbol-IsSymbol (c % 64),
      symbol-ne-pad (b % 16 * 4 + c / 64),
      symbol-ne-pad (c % 64),
      digit-symbol (a / 4),
      digit-symbol (a % 4 * 16 + b / 16),
      digit-symbol (b % 16 * 4 + c / 64),
      digit-symbol (c % 64),
    )

b64decode-encode : (d : Str) → IsBytes d → b64decode (urlsafe_b64encode d) ≡ ok d
unfolding urlsafe_b64encode b64decode str_eq
b64decode-encode [] h = refl
b64decode-encode (a ∷ []) h = decode_group_one a 0 0 h.0 (ok [])
b64decode-encode (a ∷ b ∷ []) h = decode_group_two a b 0 h.0 h.1.0 (ok [])
b64decode-encode (a ∷ b ∷ c ∷ r) h =
    rw (b64decode-encode r h.1.1.1) (decode_group_three a b c h.0 h.1.0 h.1.1.0 _ r)

decode_group_cases :
    (w x y z : ℕ) (last : Bool) (rest : Result Str) (d : Str)
    → decode_group w x y z last rest ≡ ok d
    → let a = digit w * 4 + digit x / 16 in
      let b = digit x % 16 * 16 + digit y / 4 in
      let c = digit y % 4 * 64 + digit z in
      (d ≡ a ∷ []) ⊎ (d ≡ a ∷ b ∷ []) ⊎ ((tail : Str) × (rest ≡ ok tail) × (d ≡ a ∷ b ∷ c ∷ tail))
unfolding decode_group
decode_group_cases w x y z last (raise e) d h = ground arith
decode_group_cases w x y z last (ok tail) d h = ground arith

b64decode-IsBytes : (s d : Str) → b64decode s ≡ ok d → IsBytes d
unfolding b64decode
b64decode-IsBytes [] d h = subst IsBytes (ok-injective h) tt
b64decode-IsBytes (w ∷ x ∷ y ∷ z ∷ r) d h =
    elim (decode_group_cases w x y z (str_eq r []) (b64decode r) d h) [
      | inl e ↦ rw e (omega (arith, digit_bound w, digit_bound x))
      | inr (inl e) ↦ rw e (omega (arith, digit_bound w, digit_bound x, digit_bound y))
      | inr (inr (tail, found, e)) ↦ rw e (
        omega (arith, digit_bound w, digit_bound x),
        (
          omega (arith, digit_bound x, digit_bound y),
          (omega (arith, digit_bound y, digit_bound z), b64decode-IsBytes r tail found),
        ),
      )
    ]
b64decode-IsBytes (w ∷ x ∷ y ∷ []) d h = cc
b64decode-IsBytes (w ∷ x ∷ []) d h = cc
b64decode-IsBytes (w ∷ []) d h = cc

decode-encode : (d : Str) → IsBytes d → b64url_decode_strict (b64url_encode d) ≡ ok d
unfolding b64url_decode_strict
decode-encode d h = rw b64url_encode-plain (
    rw (plain_symbols d h, length-plain, plain_padded, b64decode-encode d h)
      (rw b64url_encode-plain (rw str_eq_refl)))

encode-decode : (s d : Str) → b64url_decode_strict s ≡ ok d → IsBytes d × (b64url_encode d ≡ s)
unfolding b64url_decode_strict
encode-decode s d h =
    let (_, h₁) = guard-eq-ok (all is_symbol s && not (length s % 4 == 1)) value_error _ h in
    let (found, decoded, h₂) = >>=-eq-ok (b64decode (s ++ padding (length s))) _ h₁ in
    let (same, h₃) = guard-eq-ok (str_eq (b64url_encode found) s) value_error (ok found) h₂ in
    let e : found ≡ d = ok-injective h₃ in
    (
      rw e at (b64decode-IsBytes (s ++ padding (length s)) found decoded),
      rw e at ((str_eq_iff (b64url_encode found) s).0 same),
    )

-- The strict decoder returns `d` exactly when `d` is a byte string and the text is its encoding: it
-- inverts the encoder, and it refuses every other spelling of the same bytes.
pub b64url_decode_strict-ok_iff :
    (s d : Str) → (b64url_decode_strict s ≡ ok d) ↔ (IsBytes d × (b64url_encode d ≡ s))
b64url_decode_strict-ok_iff s d =
    (encode-decode s d, λ (bytes, e). rw (← e) (decode-encode d bytes))

pub b64url_encode-injective :
    (c d : Str) → IsBytes c → IsBytes d → b64url_encode c ≡ b64url_encode d → c ≡ d
b64url_encode-injective c d hc hd e =
    ok-injective (sym (decode-encode c hc) ∙ ap b64url_decode_strict e ∙ decode-encode d hd)
