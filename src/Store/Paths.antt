-- ===== src/Store/Paths.antt =====
-- Without symbolic links, every directory name is found below the root: `_resolve_domain_dir` then never
-- refuses what `_domain_component` returns.
use lacme.Prelude.{
  ℕ, ◌≡◌, refl, true, false, [], ◌∷◌, ◌++◌, Str, str_eq, str_eq_refl, ok, Result-cases, inl, inr,
  arith,
}
use lacme.Prelude.Text.{starts_with, strip_prefix-append}
use lacme.Store.Names.{validate_domain_key, domain_component}
use lacme.Store.Names.Safe.{domain_component-IsPortable}
use lacme.Store.Platform.{StorePlatform}
use lacme.Store.FileStore.{
  path_in, is_relative_to, certs_dir, resolve_certs_dir, is_child, resolve_domain_dir,
}

-- The store is an ordinary directory, and so is everything in it.
pub record IsPlainDisk (py : StorePlatform) (base : Str) : Type 0 where
  pub root_no_link : py.is_symlink (certs_dir py base) ≡ false
  pub root_itself : py.resolve (certs_dir py base) ≡ certs_dir py base
  pub no_link : (name : Str) → py.is_symlink (path_in (certs_dir py base) name) ≡ false
  pub itself :
      (name : Str)
      → validate_domain_key name ≡ ok tt
      → py.resolve (path_in (certs_dir py base) name) ≡ path_in (certs_dir py base) name

append_assoc : (s : Str) (c : ℕ) (t : Str) → s ++ c ∷ t ≡ (s ++ c ∷ []) ++ t
append_assoc [] c t = refl
append_assoc (x ∷ s) c t = cc (append_assoc s c t)

longer : (s : Str) (c : ℕ) (t : Str) → str_eq (s ++ c ∷ t) s ≡ false
unfolding str_eq
longer [] c t = refl
longer (x ∷ s) c t = ground (arith, longer s c t)

starts_with_itself : (p s : Str) → starts_with (p ++ s) p ≡ true
unfolding starts_with
starts_with_itself p s = rw (strip_prefix-append p s, starts_with) refl

below : (s t : Str) → is_relative_to (path_in s t) s ≡ true
unfolding starts_with
below s t = rw (longer s b'/' t, append_assoc s b'/' t, starts_with_itself (path_in s []) t) refl

module _ (py : StorePlatform) (base : Str) (disk : IsPlainDisk py base) where
  resolve_certs_dir-plain : resolve_certs_dir py base ≡ ok (certs_dir py base)
  unfolding resolve_certs_dir
  resolve_certs_dir-plain =
      rw (disk.root_no_link, disk.root_itself, str_eq_refl (certs_dir py base)) refl

  is_child-itself :
      (path parent : Str)
      → py.resolve path ≡ path
      → str_eq path parent ≡ false
      → is_relative_to path parent ≡ true
      → is_child py base path parent ≡ true
  is_child-itself path parent itself other relative =
      rw (itself, relative, other, str_eq_refl path) refl

  is_child-plain :
      (name : Str)
      → validate_domain_key name ≡ ok tt
      → is_child py base (path_in (certs_dir py base) name) (certs_dir py base) ≡ true
  is_child-plain name valid =
      is_child-itself _ _ (disk.itself name valid) (longer _ b'/' name) (below _ name)

  pub resolve_domain_dir-plain :
      (domain : Str) → resolve_domain_dir py base domain ≡ domain_component py.sha256 domain
  unfolding resolve_domain_dir
  resolve_domain_dir-plain domain = elim (Result-cases (domain_component py.sha256 domain)) [
    | inl (e, raised) ↦ rw raised refl
    | inr (name, found) ↦
        let child =
          is_child-plain name (domain_component-IsPortable py.sha256 domain name found).0 in
        rw (found, resolve_certs_dir-plain, child) refl
  ]
