-- ===== src/Store/Listed.antt =====
-- What `list_certs` returns, against `load_cert`.
use lacme.Prelude.{
  ◌≡◌, refl, subst, sym, ap, ◌∙◌, true, not, some, List, [], ◌∷◌, ◌++◌, Str, str_eq, str_Eq,
  str_eq_iff, Bool-cases, inl, inr, ok, guard, ◌>>=◌, ◌>>◌, >>=-eq-ok, guard-eq-ok, OnOk, >>=-OnOk,
  ok-injective, arith, All, All-append, store_error, All-map,
}
use lacme.Prelude.Dict.{Dict, get, NodupKeys, beq_refl}
use lacme.RateLimit.Sorted.{str_ltb}
use lacme.Store.Platform.{StorePlatform}
use lacme.Store.Bundle.{CertBundle}
use lacme.Store.FileStore.{
  is_text, datetime_of, read_bytes, path_in, certs_dir, Directory, Files, is_file, directory_at,
  resolve_domain_dir, resolve_certs_dir, read_cert_meta, load_cert_from_dir,
}
use lacme.Store.Operations.{
  insert_by, sort_by, key_text, list_owned, list_known, list_one, list_each, file_list_certs,
  file_load_cert,
}

module _ {ℓ} {A : Type 0} (key : A → Str) (P : A → Type ℓ) where
  insert_by-All : (a : A) (rest : List A) → P a → All P rest → All P (insert_by key a rest)
  unfolding insert_by
  insert_by-All a [] p h = (p, tt)
  insert_by-All a (b ∷ rest) p h = elim (Bool-cases (str_ltb (key b) (key a))) [
    | inl before ↦ rw before (h.0, insert_by-All a rest p h.1)
    | inr after ↦ rw after (p, h)
  ]

  sort_by-All : (items : List A) → All P items → All P (sort_by key items)
  unfolding sort_by
  sort_by-All [] h = tt
  sort_by-All (a ∷ rest) h = insert_by-All a (sort_by key rest) h.0 (sort_by-All rest h.1)

-- The entries of a dict are what its keys have.
entries-get :
    {V : Type 0} (d : Dict Str V)
    → NodupKeys d
    → All (λ (entry : Str × V). get d entry.0 ≡ some entry.1) d
unfolding get
entries-get [] h = tt
entries-get ((k, v) ∷ d) (fresh, h) = (
  rw (beq_refl k) refl,
  All-map d (λ entry there. ground (arith, str_eq_iff k entry.0)) (entries-get d h),
)

entries-directory_at :
    (dirs : Dict Str Directory)
    → NodupKeys dirs
    → All (λ (entry : Str × Directory). directory_at dirs entry.0 ≡ entry.1) dirs
unfolding directory_at
entries-directory_at dirs distinct =
    All-map dirs
      (λ (entry : Str × Directory) (there : get dirs entry.0 ≡ some entry.1).
        rw (there, directory_at) refl)
      (entries-get dirs distinct)

module _ (py : StorePlatform) (base : Str) where
  -- A listed certificate is what a load of its domain returns.
  abbrev pub IsLoaded : Files → CertBundle py → Type 0
  IsLoaded files cert = file_load_cert py base cert.domain files ≡ ok (some cert)

  -- The bundle is for the domain that was expected.
  load_cert_from_dir-domain :
      (name : Str) (dir : Directory) (domain : Str)
      → OnOk
          (λ (bundle : CertBundle py). bundle.domain ≡ domain)
          (load_cert_from_dir py base name dir domain)
  unfolding load_cert_from_dir
  load_cert_from_dir-domain name dir domain =
      >>=-OnOk _ (read_cert_meta py base dir.meta_file) _ λ meta.
        >>=-OnOk _ (guard (is_text meta.domain domain) store_error) _ λ _.
          >>=-OnOk _ (read_bytes dir.cert_file) _ λ cert.
            >>=-OnOk _ (read_bytes dir.fullchain_file) _ λ fullchain.
              >>=-OnOk _ (read_bytes dir.key_file) _ λ key.
                >>=-OnOk _ (datetime_of py base meta.issued_at) _ λ issued_at.
                  >>=-OnOk _ (datetime_of py base meta.expires_at) _ λ expires_at bundle made.
                    (ap (λ (b : CertBundle py). b.domain) (sym (ok-injective made)))

  file_load_found :
      (files : Files) (domain name : Str) (dir : Directory) (bundle : CertBundle py)
      → resolve_domain_dir py base domain ≡ ok name
      → directory_at files.certs name ≡ dir
      → is_file dir.meta_file ≡ true
      → load_cert_from_dir py base name dir domain ≡ ok bundle
      → file_load_cert py base domain files ≡ ok (some bundle)
  unfolding file_load_cert
  file_load_found files domain name dir bundle found there known loaded =
      rw (found, there, known, loaded, file_load_cert) refl

  list_owned-IsLoaded :
      (files : Files) (name : Str) (dir : Directory) (domain : Str) (found : List (CertBundle py))
      → directory_at files.certs name ≡ dir
      → is_file dir.meta_file ≡ true
      → list_owned py base name dir domain ≡ ok found
      → All (IsLoaded files) found
  list_owned-IsLoaded files name dir domain found there known h =
      let (expected, resolved, h1) =
        >>=-eq-ok (resolve_domain_dir py base domain)
          (λ expected.
            guard (str_eq name expected) store_error
            >> (load_cert_from_dir py base name dir domain >>= λ bundle. ok (bundle ∷ [])))
          h in
      let (same, h2) = guard-eq-ok (str_eq name expected) store_error _ h1 in
      let (bundle, loaded, h3) =
        >>=-eq-ok (load_cert_from_dir py base name dir domain) (λ bundle. ok (bundle ∷ [])) h2 in
      let domain_is = load_cert_from_dir-domain name dir domain bundle loaded in
      let name_is = (str_eq_iff name expected).0 same in
      let found_here =
        file_load_found files domain name dir bundle (resolved ∙ ap ok (sym name_is)) there known
          loaded in
      subst (All (IsLoaded files)) (ok-injective h3) (
        subst (λ d. file_load_cert py base d files ≡ ok (some bundle)) (sym domain_is) found_here,
        tt,
      )

  list_known-IsLoaded :
      (files : Files) (name : Str) (dir : Directory) (found : List (CertBundle py))
      → directory_at files.certs name ≡ dir
      → is_file dir.meta_file ≡ true
      → list_known py base name dir ≡ ok found
      → All (IsLoaded files) found
  list_known-IsLoaded files name dir found there known h =
      let (meta, read, h1) =
        >>=-eq-ok (read_cert_meta py base dir.meta_file)
          (λ meta. key_text py base meta.domain >>= list_owned py base name dir) h in
      let (domain, named, h2) =
        >>=-eq-ok (key_text py base meta.domain) (list_owned py base name dir) h1 in
      list_owned-IsLoaded files name dir domain found there known h2

  list_one-IsLoaded :
      (files : Files) (name : Str) (dir : Directory) (found : List (CertBundle py))
      → directory_at files.certs name ≡ dir
      → list_one py base (name, dir) ≡ ok found
      → All (IsLoaded files) found
  list_one-IsLoaded files name dir found there h =
      let (_, h1) =
        guard-eq-ok (not (py.is_symlink (path_in (certs_dir py base) name))) store_error _ h in
      elim (Bool-cases (is_file dir.meta_file)) [
        | inl known ↦ list_known-IsLoaded files name dir found there known (cc (h1, known))
        | inr missing ↦
            let none_found : ok [] ≡ ok found = cc (h1, missing) in
            subst (All (IsLoaded files)) (ok-injective none_found) tt
      ]

  list_each-IsLoaded :
      (files : Files) (entries : List (Str × Directory)) (found : List (CertBundle py))
      → All (λ (entry : Str × Directory). directory_at files.certs entry.0 ≡ entry.1) entries
      → list_each py base entries ≡ ok found
      → All (IsLoaded files) found
  unfolding list_each
  list_each-IsLoaded files [] found all_there h = subst (All (IsLoaded files)) (ok-injective h) tt
  list_each-IsLoaded files ((name, dir) ∷ entries) found (here, there) h =
      let (one, h1, h2) =
        >>=-eq-ok (list_one py base (name, dir))
          (λ one. list_each py base entries >>= λ rest. ok (one ++ rest)) h in
      let (rest, h3, h4) = >>=-eq-ok (list_each py base entries) (λ rest. ok (one ++ rest)) h2 in
      subst (All (IsLoaded files)) (ok-injective h4) (
        All-append (IsLoaded files) one rest (list_one-IsLoaded files name dir one here h1)
          (list_each-IsLoaded files entries rest there h3))

  -- Every certificate that `list_certs` returns is the one that a load of its domain returns, and a directory
  -- that would answer otherwise makes the listing raise. No directory name comes twice on disk.
  pub list_certs-IsLoaded :
      (files : Files) (found : List (CertBundle py))
      → NodupKeys files.certs
      → file_list_certs py base files ≡ ok found
      → All (IsLoaded files) found
  unfolding file_list_certs
  list_certs-IsLoaded files found distinct h =
      let each = list_each py base (sort_by (λ entry. entry.0) files.certs) in
      let (_, _, h1) =
        >>=-eq-ok (resolve_certs_dir py base)
          (λ _. each >>= λ certs. ok (sort_by (λ cert. cert.domain) certs)) h in
      let (certs, listed, h2) =
        >>=-eq-ok each (λ certs. ok (sort_by (λ cert. cert.domain) certs)) h1 in
      let all_there =
        sort_by-All (λ (entry : Str × Directory). entry.0) _ files.certs
          (entries-directory_at files.certs distinct) in
      subst (All (IsLoaded files)) (ok-injective h2) (
        sort_by-All (λ cert. cert.domain) (IsLoaded files) certs
          (list_each-IsLoaded files _ certs all_there listed))
