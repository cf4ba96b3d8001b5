-- ===== src/Store/Bundle.antt =====
-- The dataclasses `CertBundle` and `CertMeta` of _types.py, and the JSON of the latter.
use lacme.Prelude.{
  ◌≡◌, refl, Option, none, some, List, [], ◌∷◌, map, Str, str_eq, Result, ok, raise, ◌>>=◌,
  type_error, key_error,
}
use lacme.Prelude.Text.{codes}
use lacme.Json.{Json, Items, Fields, text, arr, obj, nil, cons, end, field, find, of_list}
use lacme.Store.Platform.{StorePlatform, meta_dict}

module _ (py : StorePlatform) where
  -- Names are not checked when they are read, so they are what JSON holds.
  pub record CertBundle : Type 0 where
    pub domain : Str
    pub domains : List Json
    pub cert_pem : Str
    pub fullchain_pem : Str
    pub key_pem : Str
    pub issued_at : py.Datetime
    pub expires_at : py.Datetime
    pub cert_path : Option Str
    pub fullchain_path : Option Str
    pub key_path : Option Str

pub record CertMeta : Type 0 where
  pub domain : Json
  pub domains : List Json
  pub issued_at : Json
  pub expires_at : Json

-- `CertMeta.to_dict`
unfoldable pub meta_to_dict : CertMeta → Json
meta_to_dict meta = meta_dict meta.domain meta.domains meta.issued_at meta.expires_at

-- `data[key]`
unfoldable pub item : Json → Str → Result Json
item (obj d) key = elim (find d key) [ none ↦ raise key_error | some v ↦ ok v ]
item _ key = raise type_error

unfoldable pub items_of : Items → List Json
items_of nil = []
items_of (cons v vs) = v ∷ items_of vs

unfoldable pub keys_of : Fields → List Json
keys_of end = []
keys_of (field k v d) = text k ∷ keys_of d

-- `tuple(value)`
unfoldable pub tuple_of : Json → Result (List Json)
unfolding items_of keys_of
tuple_of (arr vs) = ok (items_of vs)
tuple_of (text s) = ok (map (λ c. text (c ∷ [])) s)
tuple_of (obj d) = ok (keys_of d)
tuple_of _ = raise type_error

-- `CertMeta.from_dict`
unfoldable pub meta_from_dict : Json → Result CertMeta
unfolding item tuple_of
meta_from_dict data_ = do
  domain ← item data_ (codes "domain")
  names ← item data_ (codes "domains")
  domains ← tuple_of names
  issued_at ← item data_ (codes "issued_at")
  expires_at ← item data_ (codes "expires_at")
  ok (record { domain = domain; domains = domains; issued_at = issued_at; expires_at = expires_at })

items_of-of_list : (vs : List Json) → items_of (of_list vs) ≡ vs
unfolding items_of of_list
items_of-of_list [] = refl
items_of-of_list (v ∷ vs) = cc (items_of-of_list vs)

-- What `to_dict` writes, `from_dict` reads.
pub meta_from_dict-to_dict : (meta : CertMeta) → meta_from_dict (meta_to_dict meta) ≡ ok meta
unfolding meta_from_dict meta_to_dict item find str_eq tuple_of
meta_from_dict-to_dict meta = rw (items_of-of_list meta.domains) refl
