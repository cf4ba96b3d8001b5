-- ===== src/Responder/Numbered.antt =====
-- The URLs and nonces that carry a counter tell the counters apart, whatever the base URL.
use mathlib.Core.List.{foldl, foldl-append, append_assoc, append-nil}
use lacme.Prelude.{
  ℕ, ◌≡◌, ap, sym, ◌∙◌, false, [], ◌∷◌, ◌++◌, ◌==◌, if◌then◌else◌, Str, All, All-map, arith, drop,
}
use lacme.Prelude.Text.{codes}
use lacme.Prelude.Decimal.{decimal, decimal-injective, decimal_digits, IsDigit}
use lacme.Base64.{IsBytes}
use lacme.Base64.RoundTrip.{b64url_encode-injective}
use lacme.Responder.Request.{nonce_text, numbered}

-- what stands behind the last slash
after_slash_step : Str → ℕ → Str
after_slash_step acc c = if c == b'/' then [] else acc ++ c ∷ []

after_slash : Str → Str
after_slash = foldl after_slash_step []

digit-ne-slash : (c : ℕ) → IsDigit c → c == b'/' ≡ false
digit-ne-slash c h = ground arith

after_slash-digits : (acc d : Str) → All IsDigit d → foldl after_slash_step acc d ≡ acc ++ d
unfolding after_slash_step
after_slash-digits acc [] h = sym (append-nil acc)
after_slash-digits acc (c ∷ d) h =
    let e : c == b'/' ≡ false = digit-ne-slash c h.0 in
    rw e (after_slash-digits (acc ++ c ∷ []) d h.1 ∙ append_assoc acc (c ∷ []) d)

after_slash-append : (p d : Str) → after_slash (p ++ b'/' ∷ d) ≡ after_slash d
unfolding after_slash after_slash_step
after_slash-append p d = rw foldl-append

after_slash-numbered : (base kind : Str) (n : ℕ) → after_slash (numbered base kind n) ≡ decimal n
unfolding after_slash
after_slash-numbered base kind n =
    after_slash-append base (kind ++ b'/' ∷ decimal n)
    ∙ after_slash-append kind (decimal n)
    ∙ after_slash-digits [] (decimal n) (decimal_digits n)

pub numbered-injective :
    (base base' kind kind' : Str) (m n : ℕ) → numbered base kind m ≡ numbered base' kind' n → m ≡ n
numbered-injective base base' kind kind' m n e =
    decimal-injective m n (
      sym (after_slash-numbered base kind m)
      ∙ ap after_slash e
      ∙ after_slash-numbered base' kind' n)

nonce-IsBytes : (n : ℕ) → IsBytes (codes "nonce-" ++ decimal n)
nonce-IsBytes n = (
  omega arith,
  (
    omega arith,
    (
      omega arith,
      (
        omega arith,
        (omega arith, (omega arith, All-map (decimal n) (λ c h. omega arith) (decimal_digits n))),
      ),
    ),
  ),
)

-- Nonces of different numbers differ.
pub nonce_text-injective : (m n : ℕ) → nonce_text m ≡ nonce_text n → m ≡ n
unfolding nonce_text drop
nonce_text-injective m n e =
    decimal-injective m n
      (ap (drop 6) (b64url_encode-injective _ _ (nonce-IsBytes m) (nonce-IsBytes n) e))
