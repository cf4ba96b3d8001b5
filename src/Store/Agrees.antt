-- ===== src/Store/Agrees.antt =====
-- When a `FileStore` holds what a `MemoryStore` holds, and what their operations make of that.
use lacme.Prelude.{
  ◌≡◌, ◌≢◌, refl, sym, ap, ◌∙◌, ◌⊎◌, inl, inr, true, false, Option, none, some, List, Str, str_eq,
  str_Eq, str_eq_iff, Bool-cases, ok,
}
use lacme.Prelude.Dict.{get, put, pop, get-put, get-pop}
use lacme.RateLimit.Sorted.{elem}
use lacme.Store.Names.{Sha256, domain_component, component_of}
use lacme.Store.Names.Safe.{domain_component-eq-ok, component_of-injective}
use lacme.Store.Platform.{StorePlatform}
use lacme.Store.Bundle.{CertBundle}
use lacme.Store.FileStore.{
  Directory, Files, empty_directory, atomic_write, atomic_writes, directory_at, resolve_domain_dir,
  with_paths,
}
use lacme.Store.Operations.{
  cert_writes, check_owner, save_cert_until, file_load_cert, file_delete_cert, delete_cert_until,
}
use lacme.Store.Interface.{Memory, memory_delete_cert}
use lacme.Store.Paths.{IsPlainDisk, resolve_domain_dir-plain}
use lacme.Store.Contents.{
  save_cert_until-eq, directory_at-put, directory_at-pop, HasTexts, directory_of, atomic_writes-all,
  check_owner-directory_of, load_from-directory_of, read_cert_meta-directory_of,
}
use lacme.Store.Sessions.{loaded, visible}

-- Keys that get a directory each: all are valid, and no two have one hash.
pub record AreKeys (sha256 : Sha256) (keys : List Str) : Type 0 where
  pub named : (d : Str) → elem d keys ≡ true → (name : Str) × (domain_component sha256 d ≡ ok name)
  pub no_collision :
      (d e : Str)
      → elem d keys ≡ true
      → elem e keys ≡ true
      → sha256.hexdigest d ≡ sha256.hexdigest e
      → d ≡ e

str_eq-ne : (s t : Str) → str_eq s t ≡ false → s ≢ t
str_eq-ne s t other same = cc (other, (str_eq_iff s t).1 same)

module _ (py : StorePlatform) (base : Str) (disk : IsPlainDisk py base) (keys : List Str)
    (are_keys : AreKeys py.sha256 keys) where
  -- A key's directory is untouched, or holds the bundle that memory has for it.
  abbrev Agree : Directory → Option (CertBundle py) → Str → Type 0
  Agree dir found d =
      ((found ≡ none) × (dir ≡ empty_directory))
      ⊎ ((bundle : CertBundle py) × (found ≡ some bundle)
          × (dir ≡ directory_of py base bundle)
          × (bundle.domain ≡ d)
          × HasTexts py bundle)

  abbrev pub Represents : Files → Memory py → Type 0
  Represents files memory =
      (d : Str)
      → elem d keys ≡ true
      → Agree (directory_at files.certs (component_of py.sha256 d)) (get memory.certs d) d

  -- Every key has its directory.
  resolved :
      (d : Str) → elem d keys ≡ true → resolve_domain_dir py base d ≡ ok (component_of py.sha256 d)
  resolved d known =
      let (name, found) = are_keys.named d known in
      let (_, made) = domain_component-eq-ok py.sha256 d name found in
      resolve_domain_dir-plain py base disk d ∙ found ∙ ap ok (sym made)

  apart :
      (d e : Str)
      → elem d keys ≡ true
      → elem e keys ≡ true
      → d ≢ e
      → str_eq (component_of py.sha256 d) (component_of py.sha256 e) ≡ false
  apart d e known_d known_e ne =
      elim (Bool-cases (str_eq (component_of py.sha256 d) (component_of py.sha256 e))) [
        | inl same ↦ absurd (
            ne (
              component_of-injective py.sha256 d e (are_keys.no_collision d e known_d known_e)
                ((str_eq_iff _ _).0 same)))
        | inr other ↦ other
      ]

  together :
      (d e : Str) → d ≡ e → str_eq (component_of py.sha256 d) (component_of py.sha256 e) ≡ true
  together d e equal = (str_eq_iff _ _).1 (ap (component_of py.sha256) equal)

  -- A write to one key's directory and to its entry keeps the others.
  pub put-Represents :
      (files : Files) (memory : Memory py) (bundle : CertBundle py)
      → elem bundle.domain keys ≡ true
      → HasTexts py bundle
      → Represents files memory
      → Represents
          (record files {
            certs =
                put files.certs
                  (component_of py.sha256 bundle.domain)
                  (directory_of py base bundle);
          })
          (record memory { certs = put memory.certs bundle.domain bundle })
  put-Represents files memory bundle known texts h e known_e =
      elim (Bool-cases (str_eq bundle.domain e)) [
        | inl same ↦
            let equal = (str_eq_iff bundle.domain e).0 same in
            rw
              (
                directory_at-put files.certs (component_of py.sha256 bundle.domain)
                    (component_of py.sha256 e) (directory_of py base bundle),
                together bundle.domain e equal,
                get-put memory.certs bundle.domain e bundle,
                same,
              )
              (inr (bundle, refl, refl, equal, texts))
        | inr other ↦
            rw
              (
                directory_at-put files.certs (component_of py.sha256 bundle.domain)
                    (component_of py.sha256 e) (directory_of py base bundle),
                apart bundle.domain e known known_e (str_eq-ne _ _ other),
                get-put memory.certs bundle.domain e bundle,
                other,
              )
              (h e known_e)
      ]

  pub pop-Represents :
      (files : Files) (memory : Memory py) (d : Str)
      → elem d keys ≡ true
      → Represents files memory
      → Represents
          (record files { certs = pop files.certs (component_of py.sha256 d) })
          (record memory { certs = pop memory.certs d })
  pop-Represents files memory d known h e known_e = elim (Bool-cases (str_eq d e)) [
    | inl same ↦
        rw
          (
            directory_at-pop files.certs (component_of py.sha256 d) (component_of py.sha256 e),
            together d e ((str_eq_iff d e).0 same),
            get-pop memory.certs d e,
            same,
          )
          (inl (refl, refl))
    | inr other ↦
        rw
          (
            directory_at-pop files.certs (component_of py.sha256 d) (component_of py.sha256 e),
            apart d e known known_e (str_eq-ne d e other),
            get-pop memory.certs d e,
            other,
          )
          (h e known_e)
  ]

  pub save_cert-eq :
      (files : Files) (bundle : CertBundle py)
      → elem bundle.domain keys ≡ true
      → check_owner py base
          (directory_at files.certs (component_of py.sha256 bundle.domain))
          bundle.domain
        ≡ ok tt
      → save_cert_until py base 4 bundle files ≡ (
        ok (with_paths py base (component_of py.sha256 bundle.domain) bundle),
        record files {
          certs =
              put files.certs (component_of py.sha256 bundle.domain) (directory_of py base bundle);
        },
      )
  save_cert-eq files bundle known owned =
      save_cert_until-eq py base bundle files _ (resolved bundle.domain known) 4 owned
      ∙ ap
          (λ dir. (
            ok (with_paths py base (component_of py.sha256 bundle.domain) bundle),
            record files { certs = put files.certs (component_of py.sha256 bundle.domain) dir },
          ))
          (atomic_writes-all py base bundle _)

  -- Saving never meets a foreign directory.
  pub check_owner-Represents :
      (files : Files) (memory : Memory py) (d : Str)
      → elem d keys ≡ true
      → Represents files memory
      → check_owner py base (directory_at files.certs (component_of py.sha256 d)) d ≡ ok tt
  check_owner-Represents files memory d known h = elim (h d known) [
    | inl (_, empty) ↦ rw empty refl
    | inr (bundle, _, full, same, texts) ↦
        rw (full, ← same) (check_owner-directory_of py base bundle texts)
  ]

  pub file_load-eq :
      (files : Files) (memory : Memory py) (d : Str)
      → elem d keys ≡ true
      → Represents files memory
      → visible py (loaded (file_load_cert py base d files))
        ≡ visible py (loaded (ok (get memory.certs d)))
  unfolding file_load_cert
  file_load-eq files memory d known h = elim (h d known) [
    | inl (missing, empty) ↦ rw (resolved d known, empty, missing) refl
    | inr (bundle, found, full, same, texts) ↦
        rw
          (
            resolved d known,
            full,
            found,
            ← same,
            load_from-directory_of py base (component_of py.sha256 bundle.domain) bundle texts,
            file_load_cert,
          )
          refl
  ]

  pub file_delete_missing :
      (files : Files) (d : Str)
      → elem d keys ≡ true
      → directory_at files.certs (component_of py.sha256 d) ≡ empty_directory
      → file_delete_cert py base d files ≡ (ok false, files)
  unfolding delete_cert_until
  file_delete_missing files d known empty = rw (resolved d known, empty, delete_cert_until) refl

  pub file_delete_found :
      (files : Files) (d : Str) (bundle : CertBundle py)
      → elem d keys ≡ true
      → bundle.domain ≡ d
      → HasTexts py bundle
      → directory_at files.certs (component_of py.sha256 d) ≡ directory_of py base bundle
      → file_delete_cert py base d files
        ≡ (ok true, record files { certs = pop files.certs (component_of py.sha256 d) })
  unfolding delete_cert_until atomic_writes atomic_write cert_writes
  file_delete_found files d bundle known same texts full =
      rw
        (
          resolved d known,
          full,
          read_cert_meta-directory_of py base bundle texts,
          (str_eq_iff bundle.domain d).1 same,
          delete_cert_until,
        )
        refl

  pub memory_delete-eq :
      (memory : Memory py) (d : Str) (found : Option (CertBundle py))
      → get memory.certs d ≡ found
      → memory_delete_cert py d memory ≡ elim found [
        | none ↦ (ok false, memory)
        | some _ ↦ (ok true, record memory { certs = pop memory.certs d })
      ]
  unfolding memory_delete_cert
  memory_delete-eq memory d found e = rw (e, memory_delete_cert) refl
