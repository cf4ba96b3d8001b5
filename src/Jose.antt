-- ===== src/Jose.antt =====
-- lacme/_jose.py: the structural check of a flattened JWS. UTF-8 decoding and `json.loads` are
-- arguments: `utf8 b` is `b.decode("utf-8")`, and `loads s` is `json.loads(s, parse_constant=...)`
-- with the hook that refuses NaN and the infinities; `none` stands for the exception.
pub mod Accepts
use lacme.Prelude.{
  ℕ, Bool, true, false, not, ◌||◌, ◌&&◌, Option, none, some, List, [], ◌∷◌, Str, Result, ok, raise,
  value_error, ◌>>=◌, ◌>>◌, guard,
}
use lacme.Prelude.Text.{codes, starts_with, is_empty}
use lacme.Base64.{b64url_decode_strict}
use lacme.Json.{Json, Fields, text, obj, find, has, end}

pub data PayloadMode : Type 0 where
  object empty : PayloadMode

-- What the module uses of Python's own decoders.
pub record Decoders : Type 0 where
  pub utf8 : Str → Option Str
  pub loads : Str → Option Json

abbrev pub bom : ℕ
bom = 0xfeff

abbrev pub or_value_error {ℓ} : {A : Type ℓ} → Option A → Result A
or_value_error none = raise value_error
or_value_error (some a) = ok a

-- `isinstance(v, dict)`, or ValueError
unfoldable pub as_object : Json → Result Fields
as_object (obj d) = ok d
as_object _ = raise value_error

-- `d[k]` for a key that was found before
unfoldable pub require : Fields → Str → Result Json
require d k = or_value_error (find d k)

-- `b64url_decode_strict` on an object of any type
unfoldable pub decode_field : Json → Result Str
decode_field (text s) = b64url_decode_strict s
decode_field _ = raise value_error

-- `header` and `signatures` must be absent
unfoldable pub is_flattened : Fields → Bool
is_flattened envelope =
    has envelope (codes "protected")
    && has envelope (codes "payload")
    && has envelope (codes "signature")
    && not (has envelope (codes "header"))
    && not (has envelope (codes "signatures"))

module _ (py : Decoders) where
  unfoldable pub json_loads_strict : Str → Result Json
  json_loads_strict value = do
    text' ← or_value_error (py.utf8 value)
    guard (not (starts_with text' (bom ∷ []))) value_error
    or_value_error (py.loads text')

  -- the branches on `payload_mode`
  unfoldable pub parse_payload : PayloadMode → Str → Result Fields
  unfolding as_object
  parse_payload empty payload_raw = do guard (is_empty payload_raw) value_error; ok end
  parse_payload object payload_raw = do
    guard (not (is_empty payload_raw)) value_error
    parsed ← json_loads_strict payload_raw
    as_object parsed

  unfoldable pub parse_unverified_jws : PayloadMode → Str → Result (Fields × Fields)
  parse_unverified_jws payload_mode raw = do
    body ← json_loads_strict raw
    envelope ← as_object body
    guard (is_flattened envelope) value_error
    protected_field ← require envelope (codes "protected")
    payload_field ← require envelope (codes "payload")
    signature_field ← require envelope (codes "signature")
    protected_raw ← decode_field protected_field
    payload_raw ← decode_field payload_field
    signature_raw ← decode_field signature_field
    header ← json_loads_strict protected_raw
    protected ← as_object header
    payload ← parse_payload payload_mode payload_raw
    ok (protected, payload)
