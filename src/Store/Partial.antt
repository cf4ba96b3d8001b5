-- ===== src/Store/Partial.antt =====
-- What a call can leave on disk, also when a write or a removal raises in the middle of it.
use lacme.Prelude.{
  false, ℕ, zero, suc, ◌≡◌, ◌≢◌, refl, ap, ◌∙◌, ◌⊎◌, inl, inr, List, [], ◌∷◌, Str, str_eq, str_Eq,
  str_eq_iff, take, ok, Bool-cases,
}
use lacme.Prelude.Dict.{put, pop}
use lacme.Store.Platform.{StorePlatform}
use lacme.Store.Bundle.{CertBundle}
use lacme.Store.FileStore.{
  FileName, cert_pem, fullchain_pem, key_pem, meta_json, Directory, Files, empty_directory,
  atomic_write, atomic_writes, remove_file, remove_files, directory_at, resolve_domain_dir,
}
use lacme.Store.Operations.{cert_writes}
use lacme.Store.Contents.{directory_of, directory_at-put, directory_at-pop}

-- Each file of the directory is as in `old` or as in `new`, and none is a mixture of the two.
pub record IsPart (old new dir : Directory) : Type 0 where
  pub cert : (dir.cert_file ≡ old.cert_file) ⊎ (dir.cert_file ≡ new.cert_file)
  pub fullchain :
      (dir.fullchain_file ≡ old.fullchain_file) ⊎ (dir.fullchain_file ≡ new.fullchain_file)
  pub key : (dir.key_file ≡ old.key_file) ⊎ (dir.key_file ≡ new.key_file)
  pub meta : (dir.meta_file ≡ old.meta_file) ⊎ (dir.meta_file ≡ new.meta_file)

pub unchanged-IsPart : (old new : Directory) → IsPart old new old
unchanged-IsPart old new = record {
  cert = inl refl;
  fullchain = inl refl;
  key = inl refl;
  meta = inl refl;
}

pub changed-IsPart : (old new : Directory) → IsPart old new new
changed-IsPart old new = record {
  cert = inr refl;
  fullchain = inr refl;
  key = inr refl;
  meta = inr refl;
}

pub writes-IsPart :
    (py : StorePlatform) (base : Str) (n : ℕ) (bundle : CertBundle py) (dir : Directory)
    → IsPart dir
        (directory_of py base bundle)
        (atomic_writes (take n (cert_writes py base bundle)) dir)
unfolding atomic_writes atomic_write cert_writes take
writes-IsPart py base zero bundle dir = unchanged-IsPart dir _
writes-IsPart py base (suc zero) bundle dir = record {
  cert = inr refl;
  fullchain = inl refl;
  key = inl refl;
  meta = inl refl;
}
writes-IsPart py base (suc (suc zero)) bundle dir = record {
  cert = inr refl;
  fullchain = inr refl;
  key = inl refl;
  meta = inl refl;
}
writes-IsPart py base (suc (suc (suc zero))) bundle dir = record {
  cert = inr refl;
  fullchain = inr refl;
  key = inr refl;
  meta = inl refl;
}
writes-IsPart py base (suc (suc (suc (suc zero)))) bundle dir = record {
  cert = inr refl;
  fullchain = inr refl;
  key = inr refl;
  meta = inr refl;
}
writes-IsPart py base (suc (suc (suc (suc (suc n))))) bundle dir = record {
  cert = inr refl;
  fullchain = inr refl;
  key = inr refl;
  meta = inr refl;
}

remove_file-IsPart :
    (f : FileName) (old dir : Directory)
    → IsPart old empty_directory dir
    → IsPart old empty_directory (remove_file f dir)
unfolding remove_file
remove_file-IsPart cert_pem old dir h = record {
  cert = inr refl;
  fullchain = h.fullchain;
  key = h.key;
  meta = h.meta;
}
remove_file-IsPart fullchain_pem old dir h = record {
  cert = h.cert;
  fullchain = inr refl;
  key = h.key;
  meta = h.meta;
}
remove_file-IsPart key_pem old dir h = record {
  cert = h.cert;
  fullchain = h.fullchain;
  key = inr refl;
  meta = h.meta;
}
remove_file-IsPart meta_json old dir h = record {
  cert = h.cert;
  fullchain = h.fullchain;
  key = h.key;
  meta = inr refl;
}

pub remove_files-IsPart :
    (fs : List FileName) (old dir : Directory)
    → IsPart old empty_directory dir
    → IsPart old empty_directory (remove_files fs dir)
unfolding remove_files
remove_files-IsPart [] old dir h = h
remove_files-IsPart (f ∷ fs) old dir h =
    remove_files-IsPart fs old (remove_file f dir) (remove_file-IsPart f old dir h)

-- Only the directory of the domain may be touched, and each of its files has its old content or the
-- new one.
pub record IsContained (py : StorePlatform) (base domain : Str) (new : Directory)
    (files after : Files) : Type 0 where
  pub account : after.account_file ≡ files.account_file
  pub cas : after.cas ≡ files.cas
  pub part :
      (name : Str) → IsPart (directory_at files.certs name) new (directory_at after.certs name)
  pub elsewhere :
      (name : Str)
      → resolve_domain_dir py base domain ≢ ok name
      → directory_at after.certs name ≡ directory_at files.certs name

module _ (py : StorePlatform) (base domain : Str) (new : Directory) (files : Files) where
  pub nothing-IsContained : IsContained py base domain new files files
  nothing-IsContained = record {
    account = refl;
    cas = refl;
    part = λ name. unchanged-IsPart (directory_at files.certs name) new;
    elsewhere = λ name other. refl;
  }

  module _ (name : Str) (found : resolve_domain_dir py base domain ≡ ok name) where
    other_name :
        (other : Str) → resolve_domain_dir py base domain ≢ ok other → str_eq name other ≡ false
    other_name other ne = elim (Bool-cases (str_eq name other)) [
      | inl same ↦ absurd (ne (found ∙ ap ok ((str_eq_iff name other).0 same)))
      | inr differs ↦ differs
    ]

    pub put-IsContained :
        (dir : Directory)
        → IsPart (directory_at files.certs name) new dir
        → IsContained py base domain new files (record files { certs = put files.certs name dir })
    put-IsContained dir h = record {
      account = refl;
      cas = refl;
      part = λ other. elim (Bool-cases (str_eq name other)) [
        | inl same ↦
            rw (directory_at-put files.certs name other dir, same)
              (rw (← (str_eq_iff name other).0 same) h)
        | inr differs ↦
            rw (directory_at-put files.certs name other dir, differs)
              (unchanged-IsPart (directory_at files.certs other) new)
      ];
      elsewhere =
          λ other ne. rw (directory_at-put files.certs name other dir, other_name other ne) refl;
    }

    pub pop-IsContained :
        IsPart (directory_at files.certs name) new empty_directory
        → IsContained py base domain new files (record files { certs = pop files.certs name })
    pop-IsContained h = record {
      account = refl;
      cas = refl;
      part = λ other. elim (Bool-cases (str_eq name other)) [
        | inl same ↦
            rw (directory_at-pop files.certs name other, same)
              (rw (← (str_eq_iff name other).0 same) h)
        | inr differs ↦
            rw (directory_at-pop files.certs name other, differs)
              (unchanged-IsPart (directory_at files.certs other) new)
      ];
      elsewhere =
          λ other ne. rw (directory_at-pop files.certs name other, other_name other ne) refl;
    }
