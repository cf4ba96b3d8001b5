-- ===== src/Tests/Requests.antt =====
-- Runs of the responder.
use lacme.Prelude.{
  ◌≡◌, refl, true, false, some, List, [], ◌∷◌, Str, ok, ◌↔◌, ◌≤◌, length, Option, str_Eq,
}
use lacme.Prelude.Text.{codes}
use lacme.Prelude.Dict.{get}
use lacme.Base64.{b64url_encode}
use lacme.Json.{Json, text, end}
use lacme.Identifiers.Values.{WireIdentifier, name, protocol_identifier_values}
use lacme.Identifiers.Csr.{decode_and_validate_csr}
use lacme.Identifiers.Csr.Binding.{Binds, decode_and_validate_csr-Binds}
use lacme.Responder.State.{State, Account, init}
use lacme.Responder.Request.{Scope, Message, max_body_size, read_body}
use lacme.Responder.Accounts.{register_account, account_body}
use lacme.Responder.Replies.{send_json}
use lacme.Responder.Serve.{serve}
use lacme.Responder.Steps.{Steps}
use lacme.Responder.Steps.Requests.{serve-Steps}
use lacme.Responder.Steps.Consistent.{IsConsistent, init-IsConsistent}
use lacme.Responder.Steps.Advances.{Advances}
use lacme.Responder.Steps.Provenance.{IssuedFor}
use lacme.Responder.Runs.{
  run, nonces, Distinct, run-IsConsistent, run-Advances, run-IssuedFor, run-nonces-Distinct,
}
use lacme.Responder.Registered.{location_of, register_account-again}
use lacme.Responder.Bodies.{joined, read_body-ok_iff}
use lacme.Tests.Program.{program}
use lacme.Tests.World.{world, platform, certificates, issued_pem}

abbrev post : Str → Str → Scope
post path body = record {
  kind = codes "http";
  path = path;
  root_path = [];
  scheme = codes "https";
  server = some (codes "ca", some 443);
  messages = record { body = body; more_body = false } ∷ [];
}

abbrev scopes : List Scope
scopes =
    post (codes "/new-account") (codes "C")
    ∷ post (codes "/new-order") (codes "O")
    ∷ post (codes "/chall/1") (codes "C")
    ∷ post (codes "/finalize/1") (codes "F")
    ∷ []

final : State
final = (run world scopes init).1

run-IsConsistent_example : IsConsistent final
unfolding final
run-IsConsistent_example = run-IsConsistent world scopes init init-IsConsistent

run-Advances_example : Advances init final
unfolding final
run-Advances_example = run-Advances world scopes init init-IsConsistent

abbrev cert_url : Str
cert_url = codes "https://ca/cert/1"

cert_stored : get (run world scopes init).1.certificates cert_url ≡ some issued_pem
unfolding program
cert_stored = refl

run-IssuedFor_example : IssuedFor world (run world scopes init).1 cert_url issued_pem
run-IssuedFor_example = run-IssuedFor world scopes cert_url issued_pem cert_stored

-- without the challenge no certificate is issued
abbrev hasty : List Scope
hasty =
    post (codes "/new-order") (codes "O")
    ∷ post (codes "/chall/7") (codes "C")
    ∷ post (codes "/finalize/1") (codes "F")
    ∷ []

hasty_refused : (run world hasty init).1.certificates ≡ []
unfolding program
hasty_refused = refl

run-nonces-Distinct_example : Distinct (nonces (run world scopes init).0)
run-nonces-Distinct_example = run-nonces-Distinct world scopes init

serve-Steps_example : Steps world init (serve world (post (codes "/new-order") (codes "O")) init).1
serve-Steps_example = serve-Steps world (post (codes "/new-order") (codes "O")) init

abbrev base : Str
base = codes "https://ca"

abbrev nonce : Str
nonce = codes "nonce"

abbrev account_url : Str
account_url = codes "https://ca/acct/1"

account_named : location_of (register_account base nonce end (codes "k") init).0 ≡ some account_url
unfolding program
account_named = refl

register_account-again_example :
    let t = (run world scopes (register_account base nonce end (codes "k") init).1).1 in
    (a : Account) × (a.url ≡ account_url)
    × (register_account base nonce end (codes "k") t
        ≡ (send_json nonce 200 (account_body a.contact) (some account_url), t))
register_account-again_example =
    register_account-again world base nonce base nonce end end (codes "k") account_url init scopes
      init-IsConsistent account_named

abbrev ordered : List WireIdentifier
ordered = record { kind = codes "dns"; value = codes "a.io" } ∷ []

abbrev chunks : List Message
chunks =
    record { body = codes "ab"; more_body = true }
    ∷ record { body = codes "c"; more_body = false }
    ∷ record { body = codes "d"; more_body = false }
    ∷ []

read_body-ok_iff_example :
    (read_body chunks ≡ ok (codes "abc"))
    ↔ ((codes "abc" ≡ joined chunks) × (length (codes "abc") ≤ max_body_size))
read_body-ok_iff_example = read_body-ok_iff chunks (codes "abc")

abbrev csr_b64 : Option Json
csr_b64 = some (text (b64url_encode (codes "0")))

csr_accepted :
    decode_and_validate_csr platform certificates csr_b64 ordered
    ≡ ok (codes "0", name (codes "a.io") ∷ [])
unfolding program
csr_accepted = refl

decode_and_validate_csr-Binds_example :
    Binds platform certificates csr_b64 ordered (codes "0")
    × (protocol_identifier_values platform ordered ≡ ok (name (codes "a.io") ∷ []))
decode_and_validate_csr-Binds_example =
    decode_and_validate_csr-Binds platform certificates csr_b64 ordered (codes "0")
      (name (codes "a.io") ∷ []) csr_accepted
