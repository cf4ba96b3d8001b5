-- ===== src/Issuing/Calls.antt =====
-- What `issue` calls: requests of the client, challenge handlers, key generation, the store, the tracker
-- and the clock. Each changes the world as it likes, and may raise.
use lacme.Prelude.{ℕ, Bool, Option, none, some, List, [], ◌∷◌, Str, str_eq, if◌then◌else◌}
use lacme.Identifiers.Platform.{Platform}
use lacme.Identifiers.X509.{X509}
use lacme.Identifiers.Values.{IdentifierValue}
use lacme.Client.Polling.{OrderStatus}
use lacme.Issuing.Monad.{Step, done, threw, from_call}

-- What is read of lacme/models.py `Challenge`, `Authorization` and `Order`.
pub record Challenge : Type 0 where
  pub kind : Str
  pub url : Str
  pub token : Str

pub record Authorization : Type 0 where
  pub identifier_type : Str
  pub identifier_value : Str
  pub wildcard : Bool
  pub challenges : List Challenge
  pub url : Str

pub record Order : Type 0 where
  pub status : OrderStatus
  pub authorizations : List Str
  pub certificate : Option Str
  pub url : Str

-- `Authorization.find_challenge`
unfoldable pub find_challenge_in : Str → List Challenge → Option Challenge
find_challenge_in kind [] = none
find_challenge_in kind (c ∷ cs) = if str_eq c.kind kind then some c else find_challenge_in kind cs

-- the bundle that `issue` builds
pub record IssuedBundle : Type 0 where
  pub domain : Str
  pub domains : List Str
  pub cert_pem : Str
  pub fullchain_pem : Str
  pub key_pem : Str
  pub issued_at : ℕ
  pub expires_at : ℕ

-- what the world answers
pub data Reply {ℓ} (E : Type 0) (A : Type ℓ) : Type ℓ where
  value : A → Reply E A
  exception : E → Reply E A

pub record Calls (py : Platform) (x509 : X509 py) (W H E Key : Type 0) : Type 1 where
  -- `_rate_limit_tracker.check(...).allowed`, if there is a tracker
  pub rate_limit_allows : Option (List Str → W → Reply E Bool × W)
  pub ensure_account_key : W → Reply E (Unit {0}) × W
  pub has_account_url : W → Bool
  pub create_account : W → Reply E (Unit {0}) × W
  pub create_order : List (IdentifierValue py) → W → Reply E Order × W
  pub get_authorization : Str → W → Reply E Authorization × W
  -- `crypto.key_authorization` with the account key, which `none` lacks
  pub key_authorization : Str → W → Option Str
  pub provision : H → Str → Str → Str → W → Reply E (Unit {0}) × W
  pub deprovision : H → Str → Str → W → Reply E (Unit {0}) × W
  pub respond_to_challenge : Challenge → W → Reply E (Unit {0}) × W
  pub poll_authorization : Str → W → Reply E (Unit {0}) × W
  -- the event ChallengeFailed, for a dispatcher if there is one
  pub emit_challenge_failed : Str → Str → E → W → W
  pub poll_order_ready : Str → W → Reply E Order × W
  -- `generate_ec_key`, and `generate_csr` for the key and the values
  pub generate_key : W → Key × W
  pub generate_csr : Key → List (IdentifierValue py) → W → Reply E Str × W
  pub finalize_order : Order → Str → W → Reply E Order × W
  pub poll_order : Str → W → Reply E Order × W
  pub download_certificate : Str → W → Reply E Str × W
  -- the DER of a certificate's public key, and of a key's
  pub certificate_public_key : X509.Certificate x509 → Str
  pub local_public_key : Key → Str
  pub private_key_pem : Key → Str
  pub certificate_pem : X509.Certificate x509 → Str
  pub not_valid_after : X509.Certificate x509 → ℕ
  pub now : W → ℕ
  -- `_store.save_cert` and `_rate_limit_tracker.record`, if there are a store and a tracker
  pub save_cert : Option (IssuedBundle → W → Reply E IssuedBundle × W)
  pub record_issuance : Option (List Str → W → Reply E (Unit {0}) × W)
  pub emit_issued : IssuedBundle → W → W

-- A call, as a step.
abbrev pub call {ℓ} : {W H E : Type 0} {A : Type ℓ} → (W → Reply E A × W) → Step W H E A
call f s =
    let (reply, w) = f s.world in
    let s' = record s { world = w } in
    elim reply [ value a ↦ (done a, s') | exception e ↦ (threw (from_call e), s') ]

abbrev pub change : {W H E : Type 0} → (W → W) → Step W H E (Unit {0})
change f s = (done tt, record s { world = f s.world })
