-- ===== src/Store/Platform.antt =====
-- What store.py uses of pathlib, json, datetime and cryptography.
use lacme.Prelude.{◌≡◌, Bool, Option, some, List, map, Str}
use lacme.Prelude.Text.{codes}
use lacme.Json.{Json, text, arr, obj, field, end, of_list}
use lacme.Store.Names.{Sha256}

-- `json.dumps` of what `CertMeta.to_dict` returns, when all names are texts
abbrev pub meta_dict : Json → List Json → Json → Json → Json
meta_dict domain domains issued_at expires_at = obj (
    field (codes "domain") domain (
      field (codes "domains") (arr (of_list domains))
        (field (codes "issued_at") issued_at (field (codes "expires_at") expires_at end))))

-- What `load_pem_private_key` can return.
pub data LoadedKey (K : Type 0) : Type 0 where
  ec_key : K → LoadedKey K
  other_key : LoadedKey K

pub record StorePlatform : Type 1 where
  pub sha256 : Sha256
  -- `Path.resolve` and `Path.is_symlink`, on absolute paths
  pub resolve : Str → Str
  pub is_symlink : Str → Bool
  -- `json.dumps(value, indent=2).encode()`, and `json.loads` of a file's text
  pub dumps : Json → Str
  pub loads : Str → Option Json
  pub loads-dumps :
      (domain issued_at expires_at : Str) (domains : List Str)
      → let meta = meta_dict (text domain) (map text domains) (text issued_at) (text expires_at) in
        loads (dumps meta) ≡ some meta
  pub Datetime : Type 0
  pub isoformat : Datetime → Str
  pub fromisoformat : Str → Option Datetime
  pub fromisoformat-isoformat : (t : Datetime) → fromisoformat (isoformat t) ≡ some t
  pub EcKey : Type 0
  pub is_p256 : EcKey → Bool
  pub private_bytes : EcKey → Str
  pub load_pem_private_key : Str → Option (LoadedKey EcKey)
  pub load_pem_private_key-private_bytes :
      (key : EcKey) → load_pem_private_key (private_bytes key) ≡ some (ec_key key)
