-- ===== src/Responder/Request.antt =====
-- How a request is read: its body, its JWS, the responder's own URL, and the route.
use lacme.Prelude.{
  ℕ, ◌*◌, Bool, true, not, ◌||◌, ◌&&◌, Option, none, some, List, [], ◌∷◌, ◌++◌, ltb, ◌==◌,
  if◌then◌else◌, Str, str_eq, length, drop, Result, ok, raise, value_error, ◌>>=◌,
}
use lacme.Prelude.Text.{codes, is_empty, starts_with}
use lacme.Prelude.Decimal.{decimal}
use lacme.Base64.{b64url_encode}
use lacme.Jose.{PayloadMode, parse_unverified_jws}
use lacme.Responder.State.{Config}

-- An ASGI message of the body: `body` and `more_body`.
pub record Message : Type 0 where
  pub body : Str
  pub more_body : Bool

-- An ASGI scope, with the messages that `receive` will give. After the last of them `receive` gives a
-- disconnect, which has no body and no `more_body`.
pub record Scope : Type 0 where
  pub kind : Str
  pub path : Str
  pub root_path : Str
  pub scheme : Str
  pub server : Option (Str × Option ℕ)
  pub messages : List Message

abbrev pub max_body_size : ℕ
max_body_size = 64 * 1024

-- the loop of `_read_body`
unfoldable pub read_messages : Str → List Message → Result Str
read_messages body [] = if ltb max_body_size (length body) then raise value_error else ok body
read_messages body (m ∷ ms) =
    let rest = read_messages (body ++ m.body) ms in
    if ltb max_body_size (length (body ++ m.body))
    then raise value_error
    else if not m.more_body
    then ok (body ++ m.body)
    else rest

unfoldable pub read_body : List Message → Result Str
unfolding read_messages
read_body ms = read_messages [] ms

-- `_read_valid_jws`, and what it returns
unfoldable pub read_valid_jws : Config → PayloadMode → Scope → Result Str
read_valid_jws cfg mode scope = do
  raw ← read_body scope.messages
  parsed ← parse_unverified_jws cfg.decoders mode raw
  ok raw

abbrev default_port : Str → Option ℕ → Bool
default_port scheme none = true
default_port scheme (some port) =
    (str_eq scheme (codes "https") && port == 443) || (str_eq scheme (codes "http") && port == 80)

abbrev server_base : Str → Option (Str × Option ℕ) → Str
server_base scheme none = codes "https://localhost"
server_base scheme (some (host, none)) = scheme ++ codes "://" ++ host
server_base scheme (some (host, some port)) =
    if default_port scheme (some port)
    then scheme ++ codes "://" ++ host
    else scheme ++ codes "://" ++ host ++ codes ":" ++ decimal port

unfoldable pub get_base_url : Config → Scope → Str
get_base_url cfg scope = elim cfg.external_url [
  | some url ↦ url
  | none ↦ server_base scope.scheme scope.server ++ scope.root_path
]

-- The path below the mount point.
unfoldable pub mounted_path : Scope → Str
mounted_path scope =
    if not (is_empty scope.root_path) && starts_with scope.path scope.root_path
    then drop (length scope.root_path) scope.path
    else scope.path

pub data Route : Type 0 where
  directory new_nonce new_account new_order authz chall : Route
  finalize order cert ca_cert key_change revoke not_found : Route

-- The tests of `__call__`, in their order.
unfoldable pub route : Str → Route
route path =
    if str_eq path (codes "/directory")
    then directory
    else if str_eq path (codes "/new-nonce")
    then new_nonce
    else if str_eq path (codes "/new-account")
    then new_account
    else if str_eq path (codes "/new-order")
    then new_order
    else if starts_with path (codes "/authz/")
    then authz
    else if starts_with path (codes "/chall/")
    then chall
    else if starts_with path (codes "/finalize/")
    then finalize
    else if starts_with path (codes "/order/")
    then order
    else if starts_with path (codes "/cert/")
    then cert
    else if str_eq path (codes "/ca.pem")
    then ca_cert
    else if str_eq path (codes "/key-change")
    then key_change
    else if str_eq path (codes "/revoke-cert")
    then revoke
    else not_found

-- `_next_nonce`, on the counter after its increment
unfoldable pub nonce_text : ℕ → Str
nonce_text n = b64url_encode (codes "nonce-" ++ decimal n)

-- `f"{base_url}/order/{n}"` and its kin
abbrev pub numbered : Str → Str → ℕ → Str
numbered base_url kind n = base_url ++ b'/' ∷ (kind ++ b'/' ∷ decimal n)
