-- ===== src/Store/Sessions.antt =====
-- Sessions with a store through the protocol of store.py, whichever class implements it.
use lacme.Prelude.{Bool, Option, none, some, List, [], ◌∷◌, Str, Result, ok}
use lacme.Store.Platform.{StorePlatform}
use lacme.Store.Bundle.{CertBundle}
use lacme.Store.Interface.{Store}

module _ (py : StorePlatform) where
  pub data Call : Type 0 where
    save : CertBundle py → Call
    load : Str → Call
    delete : Str → Call

  pub data Answer : Type 0 where
    saved : Result (CertBundle py) → Answer
    loaded : Result (Option (CertBundle py)) → Answer
    deleted : Result Bool → Answer

  abbrev pub key_of_call : Call → Str
  key_of_call (save bundle) = bundle.domain
  key_of_call (load domain) = domain
  key_of_call (delete domain) = domain

  module _ {S : Type 0} (store : Store py S) where
    unfoldable pub perform : Call → S → Answer × S
    perform (save bundle) s = let (r, s') = store.save_cert bundle s in (saved r, s')
    perform (load domain) s = (loaded (store.load_cert domain s), s)
    perform (delete domain) s = let (r, s') = store.delete_cert domain s in (deleted r, s')

    unfoldable pub run_calls : List Call → S → List Answer × S
    unfolding perform
    run_calls [] s = ([], s)
    run_calls (call ∷ calls) s =
        let (answer, s') = perform call s in
        let (answers, s'') = run_calls calls s' in (answer ∷ answers, s'')

  -- A bundle without the places of its files, which only `FileStore` knows.
  abbrev pub without_paths : CertBundle py → CertBundle py
  without_paths bundle = record bundle { cert_path = none; fullchain_path = none; key_path = none }

  -- What a caller sees of an answer.
  abbrev pub visible : Answer → Answer
  visible (saved (ok bundle)) = saved (ok (without_paths bundle))
  visible (loaded (ok (some bundle))) = loaded (ok (some (without_paths bundle)))
  visible answer = answer
