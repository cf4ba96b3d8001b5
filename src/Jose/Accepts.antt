-- ===== src/Jose/Accepts.antt =====
-- Which request bodies `parse_unverified_jws` accepts, and what it then returns.
use lacme.Prelude.{
  true, false, not, ◌&&◌, ap, Bool, ◌==◌, Bool-cases, Option-cases, inl, inr, Option, none, some,
  [], ◌∷◌, ◌≡◌, ◌≢◌, ◌↔◌, refl, arith, Str, Result, ok, value_error, >>=-eq-ok, guard-eq-ok,
}
use lacme.Prelude.Text.{codes, is_empty, starts_with, strip_prefix}
use lacme.Base64.{IsBytes, b64url_encode}
use lacme.Base64.RoundTrip.{b64url_decode_strict-ok_iff}
use lacme.Json.{Json, Fields, text, obj, arr, null, bool, num, find, has, end}
use lacme.Jose.{
  PayloadMode, object, empty, Decoders, or_value_error, as_object, require, decode_field,
  json_loads_strict, parse_payload, is_flattened, parse_unverified_jws,
}

-- The envelope's member `name` is the base64url text of `raw`.
pub record Carries (envelope : Fields) (name raw : Str) : Type 0 where
  pub bytes : IsBytes raw
  pub encoded : find envelope name ≡ some (text (b64url_encode raw))

as_object-ok : (v : Json) (d : Fields) → as_object v ≡ ok d → v ≡ obj d
unfolding as_object
as_object-ok (obj e) d h = cc
as_object-ok null d h = cc
as_object-ok (bool b) d h = cc
as_object-ok (num b s) d h = cc
as_object-ok (text s) d h = cc
as_object-ok (arr xs) d h = cc

or_value_error-ok {ℓ} : {A : Type ℓ} (o : Option A) (a : A) → or_value_error o ≡ ok a → o ≡ some a
or_value_error-ok none a h = cc
or_value_error-ok (some b) a h = cc

decode_field-Carries :
    (envelope : Fields) (name raw : Str) (v : Json)
    → require envelope name ≡ ok v
    → decode_field v ≡ ok raw
    → Carries envelope name raw
unfolding decode_field require
decode_field-Carries envelope name raw (text s) h d =
    let (bytes, e) = (b64url_decode_strict-ok_iff s raw).0 d in
    record { bytes = bytes; encoded = cc (or_value_error-ok (find envelope name) (text s) h, e) }
decode_field-Carries envelope name raw (obj e) h d = cc
decode_field-Carries envelope name raw null h d = cc
decode_field-Carries envelope name raw (bool b) h d = cc
decode_field-Carries envelope name raw (num b s) h d = cc
decode_field-Carries envelope name raw (arr xs) h d = cc

module _ (envelope : Fields) (name raw : Str) (c : Carries envelope name raw) where
  Carries-require : require envelope name ≡ ok (text (b64url_encode raw))
  unfolding require
  Carries-require = rw c.encoded

  Carries-decode : decode_field (text (b64url_encode raw)) ≡ ok raw
  unfolding decode_field
  Carries-decode = (b64url_decode_strict-ok_iff (b64url_encode raw) raw).1 (c.bytes, refl)

pair_injective :
    {p p' q q' : Fields}
    → ◌≡◌ {A = Result (Fields × Fields)} (ok (p', q')) (ok (p, q))
    → (p' ≡ p) × (q' ≡ q)
pair_injective h = ground arith

-- The envelope has no member `name`.
abbrev pub HasNo : Fields → Str → Type 0
HasNo envelope name = find envelope name ≡ none

has-some : (d : Fields) (k : Str) (v : Json) → find d k ≡ some v → has d k ≡ true
has-some d k v h = rw (h, has) refl

not-has_iff : (d : Fields) (k : Str) → (not (has d k) ≡ true) ↔ HasNo d k
not-has_iff d k = elim (Option-cases (find d k)) [
  | inl missing ↦ (λ h. missing, λ h. rw (missing, has) refl)
  | inr (v, found) ↦ (λ h. let there = has-some d k v found in cc (there, h), λ h. cc (found, h))
]

last_two : (a b c d e : Bool) → (a && b && c && d && e) ≡ true → (d ≡ true) × (e ≡ true)
last_two a b c d e h = ground arith

flattened-HasNo :
    (envelope : Fields)
    → is_flattened envelope ≡ true
    → HasNo envelope (codes "header") × HasNo envelope (codes "signatures")
unfolding is_flattened
flattened-HasNo envelope h =
    let (header, signatures) =
      last_two (has envelope (codes "protected")) (has envelope (codes "payload"))
        (has envelope (codes "signature")) (not (has envelope (codes "header")))
        (not (has envelope (codes "signatures"))) h in
    (
      (not-has_iff envelope (codes "header")).0 header,
      (not-has_iff envelope (codes "signatures")).0 signatures,
    )

is_flattened-true :
    (envelope : Fields) (p q s : Json)
    → find envelope (codes "protected") ≡ some p
    → find envelope (codes "payload") ≡ some q
    → find envelope (codes "signature") ≡ some s
    → HasNo envelope (codes "header")
    → HasNo envelope (codes "signatures")
    → is_flattened envelope ≡ true
unfolding is_flattened
is_flattened-true envelope p q s found_p found_q found_s header signatures =
    rw
      (
        has-some envelope (codes "protected") p found_p,
        has-some envelope (codes "payload") q found_q,
        has-some envelope (codes "signature") s found_s,
        (not-has_iff envelope (codes "header")).1 header,
        (not-has_iff envelope (codes "signatures")).1 signatures,
      )
      refl

marked : (s rest : Str) → s ≡ 0xfeff ∷ rest → not (starts_with s (0xfeff ∷ [])) ≡ false
unfolding starts_with strip_prefix
marked s rest e = rw e refl

unmarked : (s : Str) → ((rest : Str) → s ≢ 0xfeff ∷ rest) → not (starts_with s (0xfeff ∷ [])) ≡ true
unfolding starts_with strip_prefix
unmarked [] h = refl
unmarked (c ∷ s) h = elim (Bool-cases (0xfeff == c)) [
  | inl same ↦ let e : c ≡ 0xfeff = ground arith in absurd (h s (ap (λ x. x ∷ s) e))
  | inr other ↦ rw (other, starts_with, strip_prefix) refl
]

module _ (py : Decoders) where
  -- The bytes are UTF-8 for a text that does not start with a byte order mark and that is JSON for `v`.
  pub record Loads (raw : Str) (v : Json) : Type 0 where
    pub decoded : Str
    pub utf8 : py.utf8 raw ≡ some decoded
    pub markless : (rest : Str) → decoded ≢ 0xfeff ∷ rest
    pub json : py.loads decoded ≡ some v

  json_loads_strict-Loads : (raw : Str) (v : Json) → (json_loads_strict py raw ≡ ok v) ↔ Loads raw v
  unfolding json_loads_strict starts_with strip_prefix
  json_loads_strict-Loads raw v = (
    λ h.
        let (decoded, utf8, h₁) = >>=-eq-ok (or_value_error (py.utf8 raw)) _ h in
        let (plain, h₂) = guard-eq-ok (not (starts_with decoded (0xfeff ∷ []))) value_error _ h₁ in
        record {
          decoded = decoded;
          utf8 = or_value_error-ok (py.utf8 raw) decoded utf8;
          markless = λ rest e. cc (marked decoded rest e, plain);
          json = or_value_error-ok (py.loads decoded) v h₂;
        },
    λ l. rw (l.utf8) (rw (unmarked l.decoded l.markless) (rw (l.json) refl)),
  )

  -- The payload of a request, by mode: none at all, or a JSON object.
  abbrev pub IsPayload : PayloadMode → Str → Fields → Type 0
  IsPayload empty raw payload = (raw ≡ []) × (payload ≡ end)
  IsPayload object raw payload = (raw ≢ []) × Loads raw (obj payload)

  is_empty-nil : (s : Str) → is_empty s ≡ true → s ≡ []
  is_empty-nil s h = ground arith

  parse_payload-IsPayload :
      (mode : PayloadMode) (raw : Str) (payload : Fields)
      → (parse_payload py mode raw ≡ ok payload) ↔ IsPayload mode raw payload
  unfolding parse_payload
  parse_payload-IsPayload empty raw payload = (λ h. ground arith, λ h. ground arith)
  parse_payload-IsPayload object raw payload = (
    λ h.
        let (full, h₁) = guard-eq-ok (not (is_empty raw)) value_error _ h in
        let (v, loaded, h₂) = >>=-eq-ok (json_loads_strict py raw) _ h₁ in
        (
          λ e. ground arith,
          (json_loads_strict-Loads raw (obj payload)).0 (cc (loaded, as_object-ok v payload h₂)),
        ),
    λ (full, loads).
        let loaded = (json_loads_strict-Loads raw (obj payload)).1 loads in ground arith,
  )

  -- An accepted request: the JSON object `envelope`, its three members, and what they decode to.
  pub record IsRequest (mode : PayloadMode) (raw : Str) (protected payload : Fields) : Type 0 where
    pub envelope : Fields
    pub protected_raw : Str
    pub payload_raw : Str
    pub signature_raw : Str
    pub body : Loads raw (obj envelope)
    pub no_header : HasNo envelope (codes "header")
    pub no_signatures : HasNo envelope (codes "signatures")
    pub has_protected : Carries envelope (codes "protected") protected_raw
    pub has_payload : Carries envelope (codes "payload") payload_raw
    pub has_signature : Carries envelope (codes "signature") signature_raw
    pub header : Loads protected_raw (obj protected)
    pub content : IsPayload mode payload_raw payload

  load_object :
      (raw : Str) (v : Json) (d e : Fields)
      → json_loads_strict py raw ≡ ok v
      → as_object v ≡ ok d
      → d ≡ e
      → Loads raw (obj e)
  load_object raw v d e loaded is_object same =
      (json_loads_strict-Loads raw (obj e)).0 (cc (as_object-ok v d is_object))

  accepted-IsRequest :
      (mode : PayloadMode) (raw : Str) (protected payload : Fields)
      → parse_unverified_jws py mode raw ≡ ok (protected, payload)
      → IsRequest mode raw protected payload
  unfolding parse_unverified_jws
  accepted-IsRequest mode raw protected payload h =
      let (body, loaded, h₁) = >>=-eq-ok (json_loads_strict py raw) _ h in
      let (envelope, is_object, h₂) = >>=-eq-ok (as_object body) _ h₁ in
      let (flat, h₃) = guard-eq-ok (is_flattened envelope) value_error _ h₂ in
      let (p, found_p, h₄) = >>=-eq-ok (require envelope (codes "protected")) _ h₃ in
      let (q, found_q, h₅) = >>=-eq-ok (require envelope (codes "payload")) _ h₄ in
      let (s, found_s, h₆) = >>=-eq-ok (require envelope (codes "signature")) _ h₅ in
      let (p_raw, dec_p, h₇) = >>=-eq-ok (decode_field p) _ h₆ in
      let (q_raw, dec_q, h₈) = >>=-eq-ok (decode_field q) _ h₇ in
      let (s_raw, dec_s, h₉) = >>=-eq-ok (decode_field s) _ h₈ in
      let (header, loaded_p, g₁) = >>=-eq-ok (json_loads_strict py p_raw) _ h₉ in
      let (protected', obj_p, g₂) = >>=-eq-ok (as_object header) _ g₁ in
      let (payload', parsed, g₃) = >>=-eq-ok (parse_payload py mode q_raw) _ g₂ in
      let (same_p, same_q) = pair_injective {p' = protected'} {q' = payload'} g₃ in
      record {
        envelope = envelope;
        protected_raw = p_raw;
        payload_raw = q_raw;
        signature_raw = s_raw;
        body = load_object raw body envelope envelope loaded is_object refl;
        no_header = (flattened-HasNo envelope flat).0;
        no_signatures = (flattened-HasNo envelope flat).1;
        has_protected = decode_field-Carries envelope (codes "protected") p_raw p found_p dec_p;
        has_payload = decode_field-Carries envelope (codes "payload") q_raw q found_q dec_q;
        has_signature = decode_field-Carries envelope (codes "signature") s_raw s found_s dec_s;
        header = load_object p_raw header protected' protected loaded_p obj_p same_p;
        content = rw same_q at ((parse_payload-IsPayload mode q_raw payload').0 parsed);
      }

  IsRequest-accepted :
      (mode : PayloadMode) (raw : Str) (protected payload : Fields)
      → IsRequest mode raw protected payload
      → parse_unverified_jws py mode raw ≡ ok (protected, payload)
  unfolding parse_unverified_jws as_object
  IsRequest-accepted mode raw protected payload r =
      let flat =
        is_flattened-true r.envelope _ _ _ r.has_protected.encoded r.has_payload.encoded
          r.has_signature.encoded r.no_header r.no_signatures in
      rw ((json_loads_strict-Loads raw (obj r.envelope)).1 r.body, flat)
        (rw (Carries-require r.envelope (codes "protected") r.protected_raw r.has_protected) (
          rw (Carries-require r.envelope (codes "payload") r.payload_raw r.has_payload) (
            rw (Carries-require r.envelope (codes "signature") r.signature_raw r.has_signature) (
              rw (Carries-decode r.envelope (codes "protected") r.protected_raw r.has_protected) (
                rw (Carries-decode r.envelope (codes "payload") r.payload_raw r.has_payload) (
                  rw (Carries-decode r.envelope (codes "signature") r.signature_raw r.has_signature)
                    (rw ((json_loads_strict-Loads r.protected_raw (obj protected)).1 r.header)
                      (rw ((parse_payload-IsPayload mode r.payload_raw payload).1 r.content)))))))))

  -- `parse_unverified_jws` returns `protected` and `payload` exactly for the bodies that are a flattened
  -- JWS object whose `protected`, `payload` and `signature` are canonical base64url, with no
  -- `header` or `signatures` member, whose protected header loads to `protected`, and whose payload is
  -- empty in `empty` mode (`payload` is then the empty object) and loads to `payload` otherwise. To
  -- load is to be UTF-8, without a byte order mark, for the JSON text of an object.
  pub parse_unverified_jws-ok_iff :
      (mode : PayloadMode) (raw : Str) (protected payload : Fields)
      → (parse_unverified_jws py mode raw ≡ ok (protected, payload))
        ↔ IsRequest mode raw protected payload
  parse_unverified_jws-ok_iff mode raw protected payload =
      (accepted-IsRequest mode raw protected payload, IsRequest-accepted mode raw protected payload)
