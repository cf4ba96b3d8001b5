-- ===== src/Store/Contents.antt =====
-- What a directory holds after `save_cert` has written it, and what is read from it.
use lacme.Prelude.{
  ℕ, Error, ◌≡◌, refl, some, List, map, Str, str_eq, str_eq_refl, ok, raise, Bool-cases, inl, inr,
  if◌then◌else◌, take, str_Eq, sym, subst,
}
use lacme.Prelude.Dict.{Dict, put, pop, get-put, get-pop}
use lacme.Json.{text}
use lacme.Store.Platform.{StorePlatform, meta_dict}
use lacme.Store.Bundle.{CertBundle, CertMeta, meta_to_dict, meta_from_dict-to_dict}
use lacme.Store.FileStore.{
  Directory, Files, resolve_domain_dir, empty_directory, atomic_write, atomic_writes, directory_at,
  read_cert_meta, load_cert_from_dir, with_paths,
}
use lacme.Store.Operations.{cert_writes, check_owner, load_from, saved_after, save_cert_until}

-- A later directory stands for an earlier one at its own name only.
pub directory_at-put :
    (dirs : Dict Str Directory) (a b : Str) (dir : Directory)
    → directory_at (put dirs a dir) b ≡ (if str_eq a b then dir else directory_at dirs b)
unfolding directory_at
directory_at-put dirs a b dir = elim (Bool-cases (str_eq a b)) [
  | inl same ↦ rw (get-put dirs a b dir, same, directory_at) refl
  | inr other ↦ rw (get-put dirs a b dir, other, directory_at) refl
]

-- The names of a bundle that the client makes are texts.
abbrev pub HasTexts : (py : StorePlatform) → CertBundle py → Type 0
HasTexts py bundle = (names : List Str) × (bundle.domains ≡ map text names)

module _ (py : StorePlatform) (base : Str) where
  abbrev pub directory_of : CertBundle py → Directory
  directory_of bundle = atomic_writes (cert_writes py base bundle) empty_directory

  -- All four writes leave nothing of what was there.
  pub atomic_writes-all :
      (bundle : CertBundle py) (dir : Directory)
      → atomic_writes (take 4 (cert_writes py base bundle)) dir ≡ directory_of bundle
  unfolding atomic_writes atomic_write cert_writes take
  atomic_writes-all bundle dir = refl

  abbrev meta_of : CertBundle py → CertMeta
  meta_of bundle = record {
    domain = text bundle.domain;
    domains = bundle.domains;
    issued_at = text (py.isoformat bundle.issued_at);
    expires_at = text (py.isoformat bundle.expires_at);
  }

  loads-meta :
      (bundle : CertBundle py)
      → HasTexts py bundle
      → py.loads (py.dumps (meta_to_dict (meta_of bundle))) ≡ some (meta_to_dict (meta_of bundle))
  unfolding meta_to_dict
  loads-meta bundle (names, texts) =
      subst
        (λ domains.
          let meta =
            meta_dict (text bundle.domain) domains (text (py.isoformat bundle.issued_at))
              (text (py.isoformat bundle.expires_at)) in
          py.loads (py.dumps meta) ≡ some meta)
        (sym texts)
        (py.loads-dumps bundle.domain (py.isoformat bundle.issued_at)
          (py.isoformat bundle.expires_at) names)

  pub read_cert_meta-directory_of :
      (bundle : CertBundle py)
      → HasTexts py bundle
      → read_cert_meta py base (directory_of bundle).meta_file ≡ ok (meta_of bundle)
  unfolding read_cert_meta atomic_writes atomic_write cert_writes
  read_cert_meta-directory_of bundle texts =
      rw (loads-meta bundle texts) (meta_from_dict-to_dict (meta_of bundle))

  -- A directory that was written for a domain belongs to it.
  pub check_owner-directory_of :
      (bundle : CertBundle py)
      → HasTexts py bundle
      → check_owner py base (directory_of bundle) bundle.domain ≡ ok tt
  unfolding atomic_writes atomic_write cert_writes
  check_owner-directory_of bundle texts =
      rw (read_cert_meta-directory_of bundle texts, str_eq_refl bundle.domain) refl

  -- A certificate comes back from its directory as it was saved, with the paths of its files.
  pub load_from-directory_of :
      (name : Str) (bundle : CertBundle py)
      → HasTexts py bundle
      → load_from py base name (directory_of bundle) bundle.domain
        ≡ ok (some (with_paths py base name bundle))
  unfolding load_cert_from_dir atomic_writes atomic_write cert_writes
  load_from-directory_of name bundle texts =
      rw
        (
          read_cert_meta-directory_of bundle texts,
          str_eq_refl bundle.domain,
          py.fromisoformat-isoformat bundle.issued_at,
          py.fromisoformat-isoformat bundle.expires_at,
        )
        refl

pub directory_at-pop :
    (dirs : Dict Str Directory) (a b : Str)
    → directory_at (pop dirs a) b ≡ (if str_eq a b then empty_directory else directory_at dirs b)
unfolding directory_at
directory_at-pop dirs a b = elim (Bool-cases (str_eq a b)) [
  | inl same ↦ rw (get-pop dirs a b, same, directory_at) refl
  | inr other ↦ rw (get-pop dirs a b, other, directory_at) refl
]

module _ (py : StorePlatform) (base : Str) (bundle : CertBundle py) (files : Files) (name : Str)
    (found : resolve_domain_dir py base bundle.domain ≡ ok name) where
  -- What is on disk after the first writes of a save.
  pub save_cert_until-eq :
      (n : ℕ)
      → check_owner py base (directory_at files.certs name) bundle.domain ≡ ok tt
      → save_cert_until py base n bundle files ≡ (
        saved_after py base n name bundle,
        record files {
          certs =
              put files.certs name (
                atomic_writes
                  (take n (cert_writes py base bundle))
                  (directory_at files.certs name));
        },
      )
  unfolding save_cert_until
  save_cert_until-eq n owned = rw (found, owned, save_cert_until) refl

  -- A save that meets a foreign directory.
  pub save_cert_until-raise :
      (n : ℕ) (e : Error)
      → check_owner py base (directory_at files.certs name) bundle.domain ≡ raise e
      → save_cert_until py base n bundle files
        ≡ (raise e, record files { certs = put files.certs name (directory_at files.certs name) })
  unfolding save_cert_until
  save_cert_until-raise n e owned = rw (found, owned, save_cert_until) refl
