-- ===== src/Store/Faults.antt =====
-- What stays on disk when a call raises, at a check or in the middle of its writes, and when the process
-- ends there.
use lacme.Prelude.{
  Error, os_error, Option, some, List, ltb, sym, ◌∙◌, ◌≢◌, ℕ, zero, suc, ◌≡◌, ◌⊎◌, ◌<◌, Bool, refl,
  ap, none, Str, str_Eq, str_eq_refl, Result-cases, Option-cases, Bool-cases, inl, inr, Result, ok,
  raise, arith, take,
}
use lacme.Prelude.Dict.{get, put, put-get}
use lacme.Store.Platform.{StorePlatform}
use lacme.Store.Bundle.{CertBundle, CertMeta}
use lacme.Store.FileStore.{
  FileName, Directory, Files, is_text, is_file, empty_directory, atomic_write, atomic_writes,
  directory_at, resolve_domain_dir,
}
use lacme.Store.Operations.{
  cert_writes, check_owner, saved_after, save_cert_until, file_load_cert, remove_tree, delete_owned,
  delete_cert_until,
}
use lacme.Store.Contents.{directory_of, directory_at-put, save_cert_until-eq, save_cert_until-raise}
use lacme.Store.Partial.{
  unchanged-IsPart, changed-IsPart, writes-IsPart, remove_files-IsPart, IsContained,
  nothing-IsContained, put-IsContained, pop-IsContained,
}
use lacme.Store.Sessions.{Call, save, load, delete, Answer, saved, loaded, deleted, key_of_call}

-- The call raised the error.
abbrev pub IsRaised : {py : StorePlatform} → Answer py → Error → Type 0
IsRaised (saved r) e = r ≡ raise e
IsRaised (loaded r) e = r ≡ raise e
IsRaised (deleted r) e = r ≡ raise e

-- The call returned.
abbrev pub IsDone : {py : StorePlatform} → Answer py → Type 0
IsDone (saved r) = (bundle : _) × (r ≡ ok bundle)
IsDone (loaded r) = (found : _) × (r ≡ ok found)
IsDone (deleted r) = (there : Bool) × (r ≡ ok there)

-- What a call writes: the files of the bundle, or nothing.
abbrev pub written : (py : StorePlatform) → Str → Call py → Directory
written py base (save bundle) = directory_of py base bundle
written py base (load domain) = empty_directory
written py base (delete domain) = empty_directory

-- A call where the write of a save after the first n raises an OSError, if n < 4, and so does the removal
-- of a tree after `removed`, if that is given.
unfoldable pub perform_until :
    (py : StorePlatform) → Str → ℕ → Option (List FileName) → Call py → Files → Answer py × Files
unfolding save_cert_until file_load_cert delete_cert_until
perform_until py base n removed (save bundle) files =
    let (r, files') = save_cert_until py base n bundle files in (saved r, files')
perform_until py base n removed (load domain) files =
    (loaded (file_load_cert py base domain files), files)
perform_until py base n removed (delete domain) files =
    let (r, files') = delete_cert_until py base removed domain files in (deleted r, files')

-- What raises nothing but OSErrors unless the disk is the same, ends in one of three ways.
endings :
    {A : Type 0} {after files : Files} (r : Result A)
    → ((e : Error) → r ≡ raise e → e ≢ os_error → after ≡ files)
    → ((a : A) × (r ≡ ok a)) ⊎ (r ≡ raise os_error) ⊎ (after ≡ files)
endings (ok a) same = inl (a, refl)
endings (raise os_error) same = inr (inl refl)
endings (raise e) same = inr (inr (same e refl (λ h. cc h)))

saved_after-raises :
    (py : StorePlatform) (base : Str) (n : ℕ) (name : Str) (bundle : CertBundle py) (e : Error)
    → saved_after py base n name bundle ≡ raise e
    → e ≡ os_error
saved_after-raises py base n name bundle e h = elim (Bool-cases (ltb n 4)) [
  | inl early ↦
      let h' : ◌≡◌ {A = Result (CertBundle py)} (raise os_error) (raise e) = rw early at h in cc h'
  | inr done ↦ let h' : ◌≡◌ {A = Result (CertBundle py)} (ok _) (raise e) = rw done at h in cc h'
]

module _ (py : StorePlatform) (base : Str) where
  -- A certificate appears only with the last write.
  until-meta :
      (n : ℕ) (bundle : CertBundle py)
      → n < 4
      → (atomic_writes (take n (cert_writes py base bundle)) empty_directory).meta_file ≡ none
  unfolding atomic_writes atomic_write cert_writes take
  until-meta zero bundle h = refl
  until-meta (suc zero) bundle h = refl
  until-meta (suc (suc zero)) bundle h = refl
  until-meta (suc (suc (suc zero))) bundle h = refl
  until-meta (suc (suc (suc (suc n)))) bundle h = absurd (omega arith)

  file_load_none :
      (domain : Str) (files : Files) (name : Str)
      → resolve_domain_dir py base domain ≡ ok name
      → (directory_at files.certs name).meta_file ≡ none
      → file_load_cert py base domain files ≡ ok none
  unfolding file_load_cert
  file_load_none domain files name found missing = rw (found, missing, file_load_cert) refl

  -- If a write of a first `save_cert`, where the domain's directory was empty, raises or the process ends
  -- there, before the last of the four writes, then the domain still has no certificate: a later load
  -- finds none, and never a part of one.
  pub save_cert_until-load :
      (n : ℕ) (bundle : CertBundle py) (files : Files) (name : Str)
      → n < 4
      → resolve_domain_dir py base bundle.domain ≡ ok name
      → directory_at files.certs name ≡ empty_directory
      → file_load_cert py base bundle.domain (save_cert_until py base n bundle files).1 ≡ ok none
  save_cert_until-load n bundle files name early found empty =
      let owned : check_owner py base (directory_at files.certs name) bundle.domain ≡ ok tt =
        rw empty refl in
      rw (save_cert_until-eq py base bundle files name found n owned) (
        file_load_none bundle.domain _ name found (
          rw (directory_at-put files.certs name name _, str_eq_refl name, empty)
            (until-meta n bundle early)))

  -- A directory with an owner exists, so `mkdir` makes none.
  made_already :
      (name d : Str) (files : Files) (e : Error)
      → check_owner py base (directory_at files.certs name) d ≡ raise e
      → record files { certs = put files.certs name (directory_at files.certs name) } ≡ files
  unfolding directory_at
  made_already name d files e foreign = elim (Option-cases (get files.certs name)) [
    | inl missing ↦
        let empty : directory_at files.certs name ≡ empty_directory =
          rw (missing, directory_at) refl in
        let owned : check_owner py base (directory_at files.certs name) d ≡ ok tt = rw empty refl in
        cc (owned, foreign)
    | inr (dir, there) ↦
        let here : directory_at files.certs name ≡ dir = rw (there, directory_at) refl in
        rw here (ap (λ certs. record files { certs = certs }) (put-get files.certs name dir there))
  ]

  save_cert_raises :
      (n : ℕ) (bundle : CertBundle py) (files : Files) (e : Error)
      → (save_cert_until py base n bundle files).0 ≡ raise e
      → e ≢ os_error
      → (save_cert_until py base n bundle files).1 ≡ files
  unfolding save_cert_until
  save_cert_raises n bundle files e h ne =
      elim (Result-cases (resolve_domain_dir py base bundle.domain)) [
        | inl (_, refused) ↦ rw (refused, save_cert_until) refl
        | inr (name, found) ↦
            elim (Result-cases
              (check_owner py base (directory_at files.certs name) bundle.domain)) [
                | inl (e', foreign) ↦
                    rw (save_cert_until-raise py base bundle files name found n e' foreign)
                      (made_already name bundle.domain files e' foreign)
                | inr (_, owned) ↦
                    let eq = save_cert_until-eq py base bundle files name found n owned in
                    absurd
                      (ne (saved_after-raises py base n name bundle e (sym (ap (λ r. r.0) eq) ∙ h)))
              ]
      ]

  save_cert-IsContained :
      (n : ℕ) (bundle : CertBundle py) (files : Files)
      → IsContained py base bundle.domain
          (directory_of py base bundle)
          files
          (save_cert_until py base n bundle files).1
  unfolding save_cert_until
  save_cert-IsContained n bundle files =
      elim (Result-cases (resolve_domain_dir py base bundle.domain)) [
        | inl (_, refused) ↦
            rw (refused, save_cert_until) (nothing-IsContained py base bundle.domain _ files)
        | inr (name, found) ↦
            elim (Result-cases
              (check_owner py base (directory_at files.certs name) bundle.domain)) [
                | inl (e', foreign) ↦
                    rw (save_cert_until-raise py base bundle files name found n e' foreign) (
                      put-IsContained py base bundle.domain _ files name found _
                        (unchanged-IsPart (directory_at files.certs name) _))
                | inr (_, owned) ↦ rw (save_cert_until-eq py base bundle files name found n owned) (
                    put-IsContained py base bundle.domain _ files name found _
                      (writes-IsPart py base n bundle (directory_at files.certs name)))
              ]
      ]

  remove_tree_raises :
      (removed : Option (List FileName)) (name : Str) (files : Files) (e : Error)
      → (remove_tree py base removed name files).0 ≡ raise e
      → e ≢ os_error
      → (remove_tree py base removed name files).1 ≡ files
  remove_tree_raises none name files e h ne = cc h
  remove_tree_raises (some fs) name files e h ne = absurd (ne (cc h))

  remove_tree-IsContained :
      (removed : Option (List FileName)) (name d : Str) (files : Files)
      → resolve_domain_dir py base d ≡ ok name
      → IsContained py base d empty_directory files (remove_tree py base removed name files).1
  remove_tree-IsContained none name d files found =
      pop-IsContained py base d empty_directory files name found (changed-IsPart _ _)
  remove_tree-IsContained (some fs) name d files found =
      put-IsContained py base d empty_directory files name found _
        (remove_files-IsPart fs _ _ (unchanged-IsPart _ _))

  module _ (removed : Option (List FileName)) (name d : Str) (files : Files) where
    delete_owned_raises :
        (r : Result CertMeta) (e : Error)
        → (delete_owned py base removed name d files r).0 ≡ raise e
        → e ≢ os_error
        → (delete_owned py base removed name d files r).1 ≡ files
    delete_owned_raises (raise e') e h ne = refl
    delete_owned_raises (ok meta) e h ne = elim (Bool-cases (is_text meta.domain d)) [
      | inl own ↦ rw own (remove_tree_raises removed name files e (rw own at h) ne)
      | inr other ↦ rw other refl
    ]

    delete_owned-IsContained :
        (r : Result CertMeta)
        → resolve_domain_dir py base d ≡ ok name
        → IsContained py base d empty_directory files
            (delete_owned py base removed name d files r).1
    delete_owned-IsContained (raise e') found = nothing-IsContained py base d empty_directory files
    delete_owned-IsContained (ok meta) found = elim (Bool-cases (is_text meta.domain d)) [
      | inl own ↦ rw own (remove_tree-IsContained removed name d files found)
      | inr other ↦ rw other (nothing-IsContained py base d empty_directory files)
    ]

  module _ (removed : Option (List FileName)) (d : Str) (files : Files) where
    delete_cert_raises :
        (e : Error)
        → (delete_cert_until py base removed d files).0 ≡ raise e
        → e ≢ os_error
        → (delete_cert_until py base removed d files).1 ≡ files
    unfolding delete_cert_until
    delete_cert_raises e h ne = elim (Result-cases (resolve_domain_dir py base d)) [
      | inl (_, refused) ↦ rw (refused, delete_cert_until) refl
      | inr (name, found) ↦ elim (Bool-cases (is_file (directory_at files.certs name).meta_file)) [
        | inl there ↦
            rw (found, there, delete_cert_until)
              (delete_owned_raises removed name d files _ e
                (rw (found, there, delete_cert_until) at h) ne)
        | inr missing ↦ rw (found, missing, delete_cert_until) refl
      ]
    ]

    delete_cert-IsContained :
        IsContained py base d empty_directory files (delete_cert_until py base removed d files).1
    unfolding delete_cert_until
    delete_cert-IsContained = elim (Result-cases (resolve_domain_dir py base d)) [
      | inl (_, refused) ↦
          rw (refused, delete_cert_until) (nothing-IsContained py base d empty_directory files)
      | inr (name, found) ↦ elim (Bool-cases (is_file (directory_at files.certs name).meta_file)) [
        | inl there ↦
            rw (found, there, delete_cert_until)
              (delete_owned-IsContained removed name d files _ found)
        | inr missing ↦
            rw (found, missing, delete_cert_until)
              (nothing-IsContained py base d empty_directory files)
      ]
    ]

  -- A call, whichever of its writes or removals raises, touches only the directory of its domain, and leaves
  -- each file there as it was or, after a save, as the save writes it, or, after a deletion, removed; and the
  -- call returns, or it raises an OSError, or the disk is as it was.
  pub perform_until-IsContained :
      (n : ℕ) (removed : Option (List FileName)) (call : Call py) (files : Files)
      → let (answer, after) = perform_until py base n removed call files in
        IsContained py base (key_of_call py call) (written py base call) files after
        × (IsDone answer ⊎ IsRaised answer os_error ⊎ (after ≡ files))
  unfolding perform_until
  perform_until-IsContained n removed (save bundle) files =
      (save_cert-IsContained n bundle files, endings _ (save_cert_raises n bundle files))
  perform_until-IsContained n removed (load d) files =
      (nothing-IsContained py base d empty_directory files, inr (inr refl))
  perform_until-IsContained n removed (delete d) files =
      (delete_cert-IsContained removed d files, endings _ (delete_cert_raises removed d files))
