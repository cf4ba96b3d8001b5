-- ===== src/Store/Refines.antt =====
-- `FileStore` keeps what the protocol promises: to its callers it is `MemoryStore`, up to the paths.
use lacme.Prelude.{◌≡◌, refl, inl, inr, true, none, some, List, [], ◌∷◌, map, Str, str_Eq, All}
use lacme.RateLimit.Sorted.{elem}
use lacme.Store.Platform.{StorePlatform}
use lacme.Store.FileStore.{Files}
use lacme.Store.Operations.{file_cert_store}
use lacme.Store.Interface.{Memory, memory_cert_store}
use lacme.Store.Paths.{IsPlainDisk}
use lacme.Store.Contents.{HasTexts}
use lacme.Store.Sessions.{Call, save, load, delete, Answer, perform, run_calls, visible}
use lacme.Store.Agrees.{
  AreKeys, Represents, save_cert-eq, check_owner-Represents, put-Represents, file_load-eq,
  file_delete_missing, file_delete_found, memory_delete-eq, pop-Represents,
}

module _ (py : StorePlatform) (base : Str) (disk : IsPlainDisk py base) (keys : List Str)
    (are_keys : AreKeys py.sha256 keys) where
  -- What two stores did in the same call.
  abbrev Alike : Answer py × Files → Answer py × Memory py → Type 0
  Alike (a, files) (b, memory) =
      (visible py a ≡ visible py b) × Represents py base disk keys are_keys files memory

  abbrev pub IsUsable : Call py → Type 0
  IsUsable (save bundle) = (elem bundle.domain keys ≡ true) × HasTexts py bundle
  IsUsable (load d) = elem d keys ≡ true
  IsUsable (delete d) = elem d keys ≡ true

  perform-Alike :
      (call : Call py) (files : Files) (memory : Memory py)
      → IsUsable call
      → Represents py base disk keys are_keys files memory
      → Alike
          (perform py (file_cert_store py base) call files)
          (perform py (memory_cert_store py) call memory)
  unfolding perform file_cert_store memory_cert_store
  perform-Alike (save bundle) files memory (known, texts) h =
      rw
        (save_cert-eq py base disk keys are_keys files bundle known
          (check_owner-Represents py base disk keys are_keys files memory bundle.domain known h))
        (refl, put-Represents py base disk keys are_keys files memory bundle known texts h)
  perform-Alike (load d) files memory known h =
      (file_load-eq py base disk keys are_keys files memory d known h, h)
  perform-Alike (delete d) files memory known h = elim (h d known) [
    | inl (missing, empty) ↦
        rw
          (
            file_delete_missing py base disk keys are_keys files d known empty,
            memory_delete-eq py base disk keys are_keys memory d none missing,
          )
          (refl, h)
    | inr (bundle, found, full, same, texts) ↦
        rw
          (
            file_delete_found py base disk keys are_keys files d bundle known same texts full,
            memory_delete-eq py base disk keys are_keys memory d (some bundle) found,
          )
          (refl, pop-Represents py base disk keys are_keys files memory d known h)
  ]

  -- To its callers a `FileStore` is a `MemoryStore`: from stores that agree, any sequence of saves, loads and
  -- deletes gives the same answers, up to the paths of the files. The keys are valid with no two of one hash,
  -- the saved bundles name texts, and there is no symbolic link in the store.
  pub run_calls-Refines :
      (calls : List (Call py)) (files : Files) (memory : Memory py)
      → All IsUsable calls
      → Represents py base disk keys are_keys files memory
      → (map (visible py) (run_calls py (file_cert_store py base) calls files).0
          ≡ map (visible py) (run_calls py (memory_cert_store py) calls memory).0)
        × Represents py base disk keys are_keys
            (run_calls py (file_cert_store py base) calls files).1
            (run_calls py (memory_cert_store py) calls memory).1
  unfolding run_calls
  run_calls-Refines [] files memory usable h = (refl, h)
  run_calls-Refines (call ∷ calls) files memory (first, rest) h =
      let (same, h') = perform-Alike call files memory first h in
      let (sames, h'') = run_calls-Refines calls _ _ rest h' in (cc (same, sames), h'')
