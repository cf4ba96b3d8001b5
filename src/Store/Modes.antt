-- ===== src/Store/Modes.antt =====
-- Who may read what the store writes: private keys are for the owner only.
use lacme.Prelude.{
  ℕ, ◌≡◌, sym, ◌∙◌, Option, some, List, [], ◌∷◌, Str, str_eq, str_Eq, Result-cases, Bool-cases, inl,
  inr,
}
use lacme.Store.Platform.{StorePlatform}
use lacme.Store.FileStore.{
  File, FileName, Files, atomic_write, atomic_writes, directory_at, resolve_ca_dir,
}
use lacme.Store.Operations.{cert_writes, file_save_ca, file_cert_store}
use lacme.Store.Contents.{directory_at-put}
use lacme.Store.Sessions.{Call, save, load, delete}
use lacme.Store.Faults.{written, perform_until, perform_until-IsContained}

-- A private key file, if there is one, has the mode 0o600.
abbrev pub IsOwnerOnly : Option File → Type 0
IsOwnerOnly key_file = (file : File) → key_file ≡ some file → file.mode ≡ 0x180

-- The private keys on disk: `account.key`, and those of the certificates and of the CAs.
pub record ArePrivate (files : Files) : Type 0 where
  pub account : IsOwnerOnly files.account_file
  pub certs : (name : Str) → IsOwnerOnly (directory_at files.certs name).key_file
  pub cas : (path : Str) → IsOwnerOnly (directory_at files.cas path).key_file

-- A call that writes: on a certificate, with the write or removal that raises, or for a key.
pub data Write (py : StorePlatform) : Type 0 where
  on_cert : ℕ → Option (List FileName) → Call py → Write py
  account_key : py.EcKey → Write py
  ca_files : Str → Str → Str → Write py

module _ (py : StorePlatform) (base : Str) where
  unfoldable pub write : Write py → Files → Files
  unfolding perform_until file_cert_store
  write (on_cert n removed call) files = (perform_until py base n removed call files).1
  write (account_key key) files = ((file_cert_store py base).save_account_key key files).1
  write (ca_files name cert key) files = ((file_cert_store py base).save_ca name cert key files).1

  unfoldable pub write_all : List (Write py) → Files → Files
  unfolding write
  write_all [] files = files
  write_all (w ∷ ws) files = write_all ws (write w files)

  written-IsOwnerOnly : (call : Call py) → IsOwnerOnly (written py base call).key_file
  unfolding atomic_writes atomic_write cert_writes
  written-IsOwnerOnly (save bundle) file h = cc h
  written-IsOwnerOnly (load domain) file h = cc h
  written-IsOwnerOnly (delete domain) file h = cc h

  on_cert-ArePrivate :
      (n : ℕ) (removed : Option (List FileName)) (call : Call py) (files : Files)
      → ArePrivate files
      → ArePrivate (perform_until py base n removed call files).1
  on_cert-ArePrivate n removed call files h =
      let r = (perform_until-IsContained py base n removed call files).0 in
      record {
        account = λ file there. h.account file (sym r.account ∙ there);
        cas = rw r.cas h.cas;
        certs = λ name file there. elim (r.part name).key [
          | inl old ↦ h.certs name file (sym old ∙ there)
          | inr new ↦ written-IsOwnerOnly call file (sym new ∙ there)
        ];
      }

  ca_files-ArePrivate :
      (name cert key : Str) (files : Files)
      → ArePrivate files
      → ArePrivate (file_save_ca py base name cert key files).1
  unfolding atomic_writes atomic_write
  ca_files-ArePrivate name cert key files h = elim (Result-cases (resolve_ca_dir py base name)) [
    | inl (e, refused) ↦ rw (refused, file_save_ca) h
    | inr (path, found) ↦
        rw (found, file_save_ca)
          (record {
            account = h.account;
            certs = h.certs;
            cas = λ other. elim (Bool-cases (str_eq path other)) [
              | inl same ↦
                  rw (directory_at-put files.cas path other _, same) (λ file there. cc there)
              | inr differs ↦ rw (directory_at-put files.cas path other _, differs) (h.cas other)
            ];
          })
  ]

  write-ArePrivate : (w : Write py) (files : Files) → ArePrivate files → ArePrivate (write w files)
  unfolding write file_cert_store
  write-ArePrivate (on_cert n removed call) files h = on_cert-ArePrivate n removed call files h
  write-ArePrivate (account_key key) files h = record {
    account = λ file there. cc there;
    certs = h.certs;
    cas = h.cas;
  }
  write-ArePrivate (ca_files name cert key) files h = ca_files-ArePrivate name cert key files h

  -- If the private keys on disk, the account's, the certificates' and the CAs', had the mode 0o600, so they
  -- have after any sequence of saves of certificates, accounts' keys and CAs' files, loads and deletions,
  -- whichever writes and removals of certificates' files raise.
  pub write_all-ArePrivate :
      (ws : List (Write py)) (files : Files) → ArePrivate files → ArePrivate (write_all ws files)
  unfolding write_all
  write_all-ArePrivate [] files h = h
  write_all-ArePrivate (w ∷ ws) files h = write_all-ArePrivate ws _ (write-ArePrivate w files h)
