-- ===== src/Store/Operations.antt =====
-- The methods of `FileStore` of store.py.
use lacme.Prelude.{
  ℕ, Bool, true, false, not, Option, none, some, List, [], take, ◌∷◌, ◌++◌, Str, str_eq, str_Eq,
  ◌&&◌, if◌then◌else◌, Result, ok, raise, guard, ◌>>=◌, ◌>>◌, value_error, type_error, store_error,
  os_error, ltb,
}
use lacme.Prelude.Dict.{put, pop}
use lacme.RateLimit.Sorted.{str_ltb}
use lacme.Json.{Json, text}
use lacme.Store.Interface.{Store}
use lacme.Store.Platform.{StorePlatform, LoadedKey, ec_key, other_key}
use lacme.Store.Bundle.{CertBundle, CertMeta, meta_to_dict}
use lacme.Store.FileStore.{
  File, FileName, cert_pem, fullchain_pem, key_pem, meta_json, Directory, Files, public_mode,
  private_mode, atomic_writes, remove_files, read_bytes, is_file, directory_at, path_in, is_text,
  or_value_error, certs_dir, resolve_certs_dir, resolve_domain_dir, resolve_ca_dir, read_cert_meta,
  with_paths, load_cert_from_dir,
}

-- `sorted(items, key=key)`, which keeps the order of equal keys
unfoldable pub insert_by : {A : Type 0} → (A → Str) → A → List A → List A
insert_by key a [] = a ∷ []
insert_by key a (b ∷ bs) =
    let rest = insert_by key a bs in if str_ltb (key b) (key a) then b ∷ rest else a ∷ b ∷ bs

unfoldable pub sort_by : {A : Type 0} → (A → Str) → List A → List A
unfolding insert_by str_ltb
sort_by key [] = []
sort_by key (a ∷ rest) = insert_by key a (sort_by key rest)

-- `class FileStore`
module _ (py : StorePlatform) (base : Str) where
  abbrev pub file_save_account_key : py.EcKey → Files → Result (Unit {0}) × Files
  file_save_account_key key files = (
    ok tt,
    record files {
      account_file = some (record { content = py.private_bytes key; mode = private_mode });
    },
  )

  abbrev p256_key : LoadedKey py.EcKey → Result (Option py.EcKey)
  p256_key (ec_key key) = guard (py.is_p256 key) type_error >> ok (some key)
  p256_key other_key = raise type_error

  abbrev load_key_from : Option File → Result (Option py.EcKey)
  load_key_from none = ok none
  load_key_from (some file) = do
    raw_key ← or_value_error (py.load_pem_private_key file.content)
    p256_key raw_key

  abbrev file_load_account_key : Files → Result (Option py.EcKey)
  file_load_account_key files = load_key_from files.account_file

  -- the check of `save_cert` before it writes
  abbrev pub check_owner : Directory → Str → Result (Unit {0})
  check_owner dir domain =
      if is_file dir.meta_file
      then (do
        existing ← read_cert_meta py base dir.meta_file
        guard (is_text existing.domain domain) store_error)
      else ok tt

  -- the files of a bundle, in the order in which `save_cert` writes them
  unfoldable pub cert_writes : CertBundle py → List (FileName × File)
  unfolding meta_to_dict
  cert_writes bundle =
      (cert_pem, record { content = bundle.cert_pem; mode = public_mode })
      ∷ (fullchain_pem, record { content = bundle.fullchain_pem; mode = public_mode })
      ∷ (key_pem, record { content = bundle.key_pem; mode = private_mode })
      ∷ (
        meta_json,
        record {
          content = py.dumps (
              meta_to_dict (record {
                domain = text bundle.domain;
                domains = bundle.domains;
                issued_at = text (py.isoformat bundle.issued_at);
                expires_at = text (py.isoformat bundle.expires_at);
              }));
          mode = public_mode;
        },
      )
      ∷ []

  -- what `save_cert` gives if the write after the first n raises an OSError; there are four
  abbrev pub saved_after : ℕ → Str → CertBundle py → Result (CertBundle py)
  saved_after n name bundle =
      if ltb n 4 then raise os_error else ok (with_paths py base name bundle)

  -- `save_cert`, where the write after the first n raises, or the process ends there
  unfoldable pub save_cert_until : ℕ → CertBundle py → Files → Result (CertBundle py) × Files
  unfolding resolve_domain_dir directory_at atomic_writes cert_writes take
  save_cert_until n bundle files = elim (resolve_domain_dir py base bundle.domain) [
    | raise e ↦ (raise e, files)
    | ok name ↦
        let dir = directory_at files.certs name in
        elim (check_owner dir bundle.domain) [
          | raise e ↦ (raise e, record files { certs = put files.certs name dir })
          | ok _ ↦ (
            saved_after n name bundle,
            record files {
              certs = put files.certs name (atomic_writes (take n (cert_writes bundle)) dir);
            },
          )
        ]
  ]

  abbrev pub file_save_cert : CertBundle py → Files → Result (CertBundle py) × Files
  file_save_cert = save_cert_until 4

  abbrev pub load_from : Str → Directory → Str → Result (Option (CertBundle py))
  load_from name dir domain =
      if is_file dir.meta_file
      then (do bundle ← load_cert_from_dir py base name dir domain; ok (some bundle))
      else ok none

  unfoldable pub file_load_cert : Str → Files → Result (Option (CertBundle py))
  unfolding resolve_domain_dir directory_at load_cert_from_dir
  file_load_cert domain files = do
    name ← resolve_domain_dir py base domain
    load_from name (directory_at files.certs name) domain

  -- `self._resolve_domain_dir(meta.domain)`, where the value need not be a text
  abbrev pub key_text : Json → Result Str
  key_text (text s) = ok s
  key_text _ = raise value_error

  -- one directory of `list_certs` that has a meta.json, for the domain that is named there
  abbrev pub list_owned : Str → Directory → Str → Result (List (CertBundle py))
  list_owned name dir domain = do
    expected ← resolve_domain_dir py base domain
    guard (str_eq name expected) store_error
    bundle ← load_cert_from_dir py base name dir domain
    ok (bundle ∷ [])

  abbrev pub list_known : Str → Directory → Result (List (CertBundle py))
  list_known name dir = do
    meta ← read_cert_meta py base dir.meta_file
    domain ← key_text meta.domain
    list_owned name dir domain

  abbrev pub list_one : Str × Directory → Result (List (CertBundle py))
  list_one (name, dir) =
      guard (not (py.is_symlink (path_in (certs_dir py base) name))) store_error
      >> (if is_file dir.meta_file then list_known name dir else ok [])

  unfoldable pub list_each : List (Str × Directory) → Result (List (CertBundle py))
  unfolding read_cert_meta resolve_domain_dir load_cert_from_dir
  list_each [] = ok []
  list_each (entry ∷ entries) = do
    found ← list_one entry
    rest ← list_each entries
    ok (found ++ rest)

  unfoldable pub file_list_certs : Files → Result (List (CertBundle py))
  unfolding resolve_certs_dir list_each sort_by
  file_list_certs files = do
    _ ← resolve_certs_dir py base
    certs ← list_each (sort_by (λ entry. entry.0) files.certs)
    ok (sort_by (λ cert. cert.domain) certs)

  -- `shutil.rmtree`, which removes the directory, or raises an OSError after some of its files
  abbrev pub remove_tree : Option (List FileName) → Str → Files → Result Bool × Files
  remove_tree none name files = (ok true, record files { certs = pop files.certs name })
  remove_tree (some removed) name files = (
    raise os_error,
    record files {
      certs = put files.certs name (remove_files removed (directory_at files.certs name));
    },
  )

  -- the check of `delete_cert`, and what follows it
  abbrev pub delete_owned :
      Option (List FileName) → Str → Str → Files → Result CertMeta → Result Bool × Files
  delete_owned removed name domain files (raise e) = (raise e, files)
  delete_owned removed name domain files (ok meta) =
      if is_text meta.domain domain
      then remove_tree removed name files
      else (raise store_error, files)

  -- `delete_cert`, where `shutil.rmtree` ends well, or raises when it has removed some files
  unfoldable pub delete_cert_until : Option (List FileName) → Str → Files → Result Bool × Files
  unfolding resolve_domain_dir directory_at read_cert_meta remove_files
  delete_cert_until removed domain files = elim (resolve_domain_dir py base domain) [
    | raise e ↦ (raise e, files)
    | ok name ↦
        let dir = directory_at files.certs name in
        if is_file dir.meta_file
        then delete_owned removed name domain files (read_cert_meta py base dir.meta_file)
        else (ok false, files)
  ]

  abbrev pub file_delete_cert : Str → Files → Result Bool × Files
  file_delete_cert = delete_cert_until none

  abbrev pub file_save_ca : Str → Str → Str → Files → Result (Unit {0}) × Files
  file_save_ca name cert key files = elim (resolve_ca_dir py base name) [
    | raise e ↦ (raise e, files)
    | ok path ↦ (
      ok tt,
      record files {
        cas = put files.cas path (
            atomic_writes
              ((cert_pem, record { content = cert; mode = public_mode })
                ∷ (key_pem, record { content = key; mode = private_mode })
                ∷ [])
              (directory_at files.cas path));
      },
    )
  ]

  abbrev read_ca : Directory → Result (Option (Str × Str))
  read_ca dir =
      if is_file dir.cert_file && is_file dir.key_file
      then (do
        cert ← read_bytes dir.cert_file
        key ← read_bytes dir.key_file
        ok (some (cert, key)))
      else ok none

  abbrev file_load_ca : Str → Files → Result (Option (Str × Str))
  file_load_ca name files = do
    path ← resolve_ca_dir py base name
    read_ca (directory_at files.cas path)

  unfoldable pub file_cert_store : Store py Files
  unfolding save_cert_until file_load_cert file_list_certs delete_cert_until resolve_ca_dir
      atomic_writes directory_at
  file_cert_store = record {
    save_account_key = file_save_account_key;
    load_account_key = file_load_account_key;
    save_cert = file_save_cert;
    load_cert = file_load_cert;
    list_certs = file_list_certs;
    delete_cert = file_delete_cert;
    save_ca = file_save_ca;
    load_ca = file_load_ca;
  }
