-- ===== src/Errors.antt =====
-- lacme/errors.py: the classes of ACME server errors, and the class for a problem document.
use lacme.Prelude.{Option, none, some, [], ◌∷◌, Str, str_Eq}
use lacme.Prelude.Text.{codes, strip_prefix}
use lacme.Prelude.Dict.{Dict, get}
use lacme.Json.{Json, Fields, text, obj, find}

-- The subclasses of `ACMEServerError`, and `server` for the class itself.
pub data ServerErrorClass : Type 0 where
  server bad_nonce rate_limited unauthorized bad_csr caa account_does_not_exist : ServerErrorClass
  invalid_contact malformed order_not_ready rejected_identifier : ServerErrorClass
  unsupported_identifier bad_signature_algorithm bad_public_key connection dns : ServerErrorClass
  server_internal tls already_revoked bad_revocation_reason compound : ServerErrorClass
  external_account_required incorrect_response unsupported_contact : ServerErrorClass
  user_action_required : ServerErrorClass

-- An instance of `ACMEServerError`, without its response headers.
pub record ServerError : Type 0 where
  pub cls : ServerErrorClass
  pub kind : Str
  pub detail : Option Json
  pub status : Option Json
  pub subproblems : Option Json

-- `_ERROR_REGISTRY`
abbrev pub error_registry : Dict Str ServerErrorClass
error_registry =
    (codes "badNonce", bad_nonce)
    ∷ (codes "rateLimited", rate_limited)
    ∷ (codes "unauthorized", unauthorized)
    ∷ (codes "badCSR", bad_csr)
    ∷ (codes "caa", caa)
    ∷ (codes "accountDoesNotExist", account_does_not_exist)
    ∷ (codes "invalidContact", invalid_contact)
    ∷ (codes "malformed", malformed)
    ∷ (codes "orderNotReady", order_not_ready)
    ∷ (codes "rejectedIdentifier", rejected_identifier)
    ∷ (codes "unsupportedIdentifier", unsupported_identifier)
    ∷ (codes "badSignatureAlgorithm", bad_signature_algorithm)
    ∷ (codes "badPublicKey", bad_public_key)
    ∷ (codes "connection", connection)
    ∷ (codes "dns", dns)
    ∷ (codes "serverInternal", server_internal)
    ∷ (codes "tls", tls)
    ∷ (codes "alreadyRevoked", already_revoked)
    ∷ (codes "badRevocationReason", bad_revocation_reason)
    ∷ (codes "compound", compound)
    ∷ (codes "externalAccountRequired", external_account_required)
    ∷ (codes "incorrectResponse", incorrect_response)
    ∷ (codes "unsupportedContact", unsupported_contact)
    ∷ (codes "userActionRequired", user_action_required)
    ∷ []

abbrev pub error_prefix : Str
error_prefix = codes "urn:ietf:params:acme:error:"

-- `s.removeprefix(p)`
abbrev remove_prefix : Str → Option Str → Str
remove_prefix s none = s
remove_prefix s (some rest) = rest

abbrev or_server : Option ServerErrorClass → ServerErrorClass
or_server none = server
or_server (some c) = c

unfoldable pub class_of : Str → ServerErrorClass
class_of error_type =
    or_server (get error_registry (remove_prefix error_type (strip_prefix error_prefix error_type)))

-- `none` for the AttributeError of a `type` that is no text
abbrev type_of : Option Json → Option Str
type_of none = some []
type_of (some (text s)) = some s
type_of (some _) = none

abbrev server_error : Fields → Option Str → Option ServerError
server_error problem none = none
server_error problem (some s) = some (record {
  cls = class_of s;
  kind = s;
  detail = find problem (codes "detail");
  status = find problem (codes "status");
  subproblems = find problem (codes "subproblems");
})

-- On a body that is no object, `problem.get` is an AttributeError too.
unfoldable pub server_error_from_response : Json → Option ServerError
server_error_from_response (obj problem) =
    server_error problem (type_of (find problem (codes "type")))
server_error_from_response _ = none
