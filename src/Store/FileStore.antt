-- ===== src/Store/FileStore.antt =====
-- The files of `FileStore`, and how it finds, writes and reads a directory: `_resolve_domain_dir`,
-- `_resolve_ca_dir`, `_atomic_write`, `_read_cert_meta` and `_load_cert_from_dir` of store.py.
use lacme.Prelude.{
  ℕ, Bool, true, false, not, ◌||◌, Option, none, some, List, [], ◌∷◌, ◌++◌, Str, str_eq, str_Eq,
  Result, ok, raise, guard, ◌>>=◌, ◌>>◌, value_error, type_error, store_error, os_error,
}
use lacme.Prelude.Dict.{Dict, get}
use lacme.Prelude.Text.{codes, is_empty, starts_with, contains}
use lacme.Json.{Json, text}
use lacme.Store.Names.{domain_component}
use lacme.Store.Platform.{StorePlatform}
use lacme.Store.Bundle.{CertBundle, CertMeta, meta_from_dict}

pub record File : Type 0 where
  pub content : Str
  pub mode : ℕ

-- The files a directory of a certificate or of a CA can hold.
pub data FileName : Type 0 where
  cert_pem fullchain_pem key_pem meta_json : FileName

pub record Directory : Type 0 where
  pub cert_file : Option File
  pub fullchain_file : Option File
  pub key_file : Option File
  pub meta_file : Option File

-- What is under the base directory: `account.key`, the directories of `certs/` by their names, and those
-- of CAs by their paths.
pub record Files : Type 0 where
  pub account_file : Option File
  pub certs : Dict Str Directory
  pub cas : Dict Str Directory

abbrev pub public_mode : ℕ
public_mode = 0x1a4

abbrev pub private_mode : ℕ
private_mode = 0x180

abbrev pub empty_directory : Directory
empty_directory = record {
  cert_file = none;
  fullchain_file = none;
  key_file = none;
  meta_file = none;
}

-- `_atomic_write` in a directory: the file has its old content or the new one
unfoldable pub atomic_write : FileName × File → Directory → Directory
atomic_write (cert_pem, file) dir = record dir { cert_file = some file }
atomic_write (fullchain_pem, file) dir = record dir { fullchain_file = some file }
atomic_write (key_pem, file) dir = record dir { key_file = some file }
atomic_write (meta_json, file) dir = record dir { meta_file = some file }

unfoldable pub atomic_writes : List (FileName × File) → Directory → Directory
atomic_writes [] dir = dir
atomic_writes (w ∷ ws) dir = atomic_writes ws (atomic_write w dir)

-- what `shutil.rmtree` does to the files that it has removed
unfoldable pub remove_file : FileName → Directory → Directory
remove_file cert_pem dir = record dir { cert_file = none }
remove_file fullchain_pem dir = record dir { fullchain_file = none }
remove_file key_pem dir = record dir { key_file = none }
remove_file meta_json dir = record dir { meta_file = none }

unfoldable pub remove_files : List FileName → Directory → Directory
unfolding remove_file
remove_files [] dir = dir
remove_files (f ∷ fs) dir = remove_files fs (remove_file f dir)

-- `path.read_bytes()`
abbrev pub read_bytes : Option File → Result Str
read_bytes none = raise os_error
read_bytes (some file) = ok file.content

abbrev pub is_file : Option File → Bool
is_file none = false
is_file (some _) = true

-- the directory at a name, where a missing one has no files
unfoldable pub directory_at : Dict Str Directory → Str → Directory
unfolding get
directory_at dirs name = elim (get dirs name) [ none ↦ empty_directory | some dir ↦ dir ]

-- `path / name`
abbrev pub path_in : Str → Str → Str
path_in parent name = parent ++ b'/' ∷ name

-- `path.is_relative_to(parent)`
abbrev pub is_relative_to : Str → Str → Bool
is_relative_to path parent = str_eq path parent || starts_with path (path_in parent [])

-- the JSON value against a text
abbrev pub is_text : Json → Str → Bool
is_text (text t) s = str_eq t s
is_text _ s = false

abbrev pub or_value_error {ℓ} : {A : Type ℓ} → Option A → Result A
or_value_error none = raise value_error
or_value_error (some a) = ok a

module _ (py : StorePlatform) (base : Str) where
  abbrev pub certs_dir : Str
  certs_dir = path_in base (codes "certs")

  -- `_resolve_certs_dir`
  unfoldable pub resolve_certs_dir : Result Str
  resolve_certs_dir =
      guard (not (py.is_symlink certs_dir || not (str_eq (py.resolve certs_dir) certs_dir)))
        store_error
      >> ok certs_dir

  abbrev pub is_child : Str → Str → Bool
  is_child path parent = not (
      not (str_eq (py.resolve path) path)
      || str_eq (py.resolve path) parent
      || not (is_relative_to (py.resolve path) parent))

  -- `_resolve_domain_dir`, which returns the directory's name in `certs/`
  unfoldable pub resolve_domain_dir : Str → Result Str
  unfolding domain_component resolve_certs_dir starts_with
  resolve_domain_dir domain = do
    component ← domain_component py.sha256 domain
    certs ← resolve_certs_dir
    guard (is_child (path_in certs component) certs) value_error
    ok component

  abbrev pub ca_base : Str
  ca_base = py.resolve (path_in base (codes "ca"))

  -- `_resolve_ca_dir`, where `os.sep` is a slash
  unfoldable pub resolve_ca_dir : Str → Result Str
  unfolding starts_with
  resolve_ca_dir name = do
    guard (not (is_empty name)) value_error
    guard (not (contains name b'/')) value_error
    let ca_dir = py.resolve (path_in (path_in base (codes "ca")) name)
    guard (is_relative_to ca_dir ca_base) value_error
    ok ca_dir

  -- `_read_cert_meta`
  unfoldable pub read_cert_meta : Option File → Result CertMeta
  unfolding meta_from_dict
  read_cert_meta file = do
    raw ← read_bytes file
    value ← or_value_error (py.loads raw)
    meta_from_dict value

  -- `datetime.fromisoformat(value)`
  abbrev pub datetime_of : Json → Result py.Datetime
  datetime_of (text s) = or_value_error (py.fromisoformat s)
  datetime_of _ = raise type_error

  -- a bundle with the paths of its files
  abbrev pub with_paths : Str → CertBundle py → CertBundle py
  with_paths name bundle =
      let dir = path_in certs_dir name in
      record bundle {
        cert_path = some (path_in dir (codes "cert.pem"));
        fullchain_path = some (path_in dir (codes "fullchain.pem"));
        key_path = some (path_in dir (codes "key.pem"));
      }

  -- `_load_cert_from_dir`
  unfoldable pub load_cert_from_dir : Str → Directory → Str → Result (CertBundle py)
  unfolding read_cert_meta
  load_cert_from_dir name dir expected_domain = do
    meta ← read_cert_meta dir.meta_file
    guard (is_text meta.domain expected_domain) store_error
    cert ← read_bytes dir.cert_file
    fullchain ← read_bytes dir.fullchain_file
    key ← read_bytes dir.key_file
    issued_at ← datetime_of meta.issued_at
    expires_at ← datetime_of meta.expires_at
    ok (
        with_paths name (record {
          domain = expected_domain;
          domains = meta.domains;
          cert_pem = cert;
          fullchain_pem = fullchain;
          key_pem = key;
          issued_at = issued_at;
          expires_at = expires_at;
          cert_path = none;
          fullchain_path = none;
          key_path = none;
        }))
