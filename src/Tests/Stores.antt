-- ===== src/Tests/Stores.antt =====
-- Runs of the certificate store.
use lacme.Prelude.{
  os_error, raise, ◌≡◌, ◌⊎◌, refl, true, none, some, List, [], ◌∷◌, map, Str, str_Eq, All, ok,
  raise, arith, inl, value_error, store_error,
}
use lacme.Prelude.Dict.{NodupKeys}
use lacme.Prelude.Text.{codes}
use lacme.Json.{text}
use lacme.Store.Names.{domain_component}
use lacme.Store.Names.Safe.{component_of-injective}
use lacme.Store.Bundle.{CertBundle}
use lacme.Store.FileStore.{Files, empty_directory, directory_at, resolve_domain_dir, with_paths}
use lacme.Store.Operations.{file_cert_store, file_load_cert, save_cert_until, file_list_certs}
use lacme.Store.Interface.{Memory, memory_cert_store}
use lacme.Store.Contents.{directory_of}
use lacme.Store.Sessions.{Call, save, load, delete, saved, loaded, deleted, visible, run_calls}
use lacme.Store.Agrees.{Represents}
use lacme.Store.Refines.{IsUsable, run_calls-Refines}
use lacme.Store.Partial.{IsContained}
use lacme.Store.Faults.{
  IsDone, IsRaised, written, perform_until, perform_until-IsContained, save_cert_until-load,
}
use lacme.Store.Modes.{ArePrivate, Write, write_all, write_all-ArePrivate}
use lacme.Store.Listed.{IsLoaded, list_certs-IsLoaded}
use lacme.Tests.Disk.{
  disk_platform, disk_base, plain_disk, disk_keys, disk_AreKeys, sha256, dumps, loads_meta, chunk,
  chunks, chunk_all,
}
use lacme.Tests.Program.{program}

abbrev bundle : Str → CertBundle disk_platform
bundle domain = record {
  domain = domain;
  domains = map text (domain ∷ []);
  cert_pem = codes "C";
  fullchain_pem = codes "F";
  key_pem = codes "K";
  issued_at = 1;
  expires_at = 2;
  cert_path = none;
  fullchain_path = none;
  key_path = none;
}

abbrev empty_disk : Files
empty_disk = record { account_file = none; certs = []; cas = [] }

abbrev calls : List (Call disk_platform)
calls =
    save (bundle (codes "a.io"))
    ∷ save (bundle (codes "*.a.io"))
    ∷ load (codes "*.a.io")
    ∷ delete (codes "a.io")
    ∷ load (codes "a.io")
    ∷ []

names :
    (domain_component sha256 (codes "a.io") ≡ ok (codes "a.io"))
    × (domain_component sha256 (codes "con.a") ≡ domain_component sha256 (codes "nul.a"))
    × (domain_component sha256 (codes "..") ≡ raise value_error)
unfolding program
names = (refl, refl, refl)

abbrev empty_memory : Memory disk_platform
empty_memory = record { account_key = none; certs = []; cas = [] }

-- both keys are saved, and one is deleted
file_run :
    map
      (visible disk_platform)
      (run_calls disk_platform (file_cert_store disk_platform disk_base) calls empty_disk).0
    ≡ saved (ok (bundle (codes "a.io")))
      ∷ saved (ok (bundle (codes "*.a.io")))
      ∷ loaded (ok (some (bundle (codes "*.a.io"))))
      ∷ deleted (ok true)
      ∷ loaded (ok none)
      ∷ []
unfolding program dumps loads_meta chunk chunks chunk_all
file_run = refl

apart_hashes :
    sha256.hexdigest (codes "*.a.io") ≡ sha256.hexdigest (codes "*.a.io")
    → codes "*.a.io" ≡ codes "*.a.io"
apart_hashes same = refl

component_of-injective_example : codes "*.a.io" ≡ codes "*.a.io"
component_of-injective_example =
    component_of-injective sha256 (codes "*.a.io") (codes "*.a.io") apart_hashes refl

usable : All (IsUsable disk_platform disk_base plain_disk disk_keys disk_AreKeys) calls
unfolding program
usable = (
  (refl, (codes "a.io" ∷ [], refl)),
  ((refl, (codes "*.a.io" ∷ [], refl)), (refl, (refl, (refl, tt)))),
)

empty_Represents :
    Represents disk_platform disk_base plain_disk disk_keys disk_AreKeys empty_disk empty_memory
unfolding program
empty_Represents d known = inl (refl, refl)

run_calls-Refines_example :
    (map
        (visible disk_platform)
        (run_calls disk_platform (file_cert_store disk_platform disk_base) calls empty_disk).0
      ≡ map
          (visible disk_platform)
          (run_calls disk_platform (memory_cert_store disk_platform) calls empty_memory).0)
    × Represents disk_platform disk_base plain_disk disk_keys disk_AreKeys
        (run_calls disk_platform (file_cert_store disk_platform disk_base) calls empty_disk).1
        (run_calls disk_platform (memory_cert_store disk_platform) calls empty_memory).1
run_calls-Refines_example =
    run_calls-Refines disk_platform disk_base plain_disk disk_keys disk_AreKeys calls empty_disk
      empty_memory usable empty_Represents

resolved : resolve_domain_dir disk_platform disk_base (codes "a.io") ≡ ok (codes "a.io")
unfolding program
resolved = refl

no_directory : directory_at empty_disk.certs (codes "a.io") ≡ empty_directory
unfolding program
no_directory = refl

save_cert_until-load_example :
    file_load_cert disk_platform disk_base
      (codes "a.io")
      (save_cert_until disk_platform disk_base 3 (bundle (codes "a.io")) empty_disk).1
    ≡ ok none
save_cert_until-load_example =
    save_cert_until-load disk_platform disk_base 3 (bundle (codes "a.io")) empty_disk (codes "a.io")
      (omega arith) resolved no_directory

-- a certificate of b.io in the directory of a.io
abbrev misplaced : Files
misplaced = record {
  account_file = none;
  certs = (codes "a.io", directory_of disk_platform disk_base (bundle (codes "b.io"))) ∷ [];
  cas = [];
}

-- a refused save, and a save of which the third write raises
refused :
    perform_until disk_platform disk_base 4 none (save (bundle (codes "a.io"))) misplaced
    ≡ (saved (raise store_error), misplaced)
unfolding program dumps loads_meta chunk chunks chunk_all
refused = refl

half_written :
    (perform_until disk_platform disk_base 2 none (save (bundle (codes "a.io"))) empty_disk).0
    ≡ saved (raise os_error)
unfolding program
half_written = refl

perform_until-IsContained_example :
    let (answer, after) =
      perform_until disk_platform disk_base 2 none (save (bundle (codes "a.io"))) empty_disk in
    IsContained disk_platform disk_base
      (codes "a.io")
      (written disk_platform disk_base (save (bundle (codes "a.io"))))
      empty_disk
      after
    × (IsDone answer ⊎ IsRaised answer os_error ⊎ (after ≡ empty_disk))
perform_until-IsContained_example =
    perform_until-IsContained disk_platform disk_base 2 none (save (bundle (codes "a.io")))
      empty_disk

empty_ArePrivate : ArePrivate empty_disk
unfolding program
empty_ArePrivate = record {
  account = λ file there. cc there;
  certs = λ name file there. cc there;
  cas = λ path file there. cc there;
}

abbrev some_writes : List (Write disk_platform)
some_writes =
    Write.account_key 7
    ∷ Write.ca_files (codes "root") (codes "C") (codes "K")
    ∷ Write.on_cert 3 none (save (bundle (codes "a.io")))
    ∷ Write.on_cert 4 (some []) (delete (codes "a.io"))
    ∷ []

write_all-ArePrivate_example : ArePrivate (write_all disk_platform disk_base some_writes empty_disk)
write_all-ArePrivate_example =
    write_all-ArePrivate disk_platform disk_base some_writes empty_disk empty_ArePrivate

abbrev stored : Files
stored = record misplaced {
  certs =
      (codes "b.io", directory_of disk_platform disk_base (bundle (codes "b.io")))
      ∷ (codes "a.io", directory_of disk_platform disk_base (bundle (codes "a.io")))
      ∷ [];
}

abbrev listed : List (CertBundle disk_platform)
listed =
    with_paths disk_platform disk_base (codes "a.io") (bundle (codes "a.io"))
    ∷ with_paths disk_platform disk_base (codes "b.io") (bundle (codes "b.io"))
    ∷ []

lists : file_list_certs disk_platform disk_base stored ≡ ok listed
unfolding program dumps loads_meta chunk chunks chunk_all
lists = refl

distinct : NodupKeys stored.certs
unfolding program
distinct = (refl, (refl, tt))

list_certs-IsLoaded_example : All (IsLoaded disk_platform disk_base stored) listed
list_certs-IsLoaded_example =
    list_certs-IsLoaded disk_platform disk_base stored listed distinct lists
