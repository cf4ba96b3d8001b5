-- ===== src/Store/Interface.antt =====
-- The protocol `Store` of store.py, and `MemoryStore`.
use lacme.Prelude.{Bool, true, false, Option, none, some, List, Str, str_Eq, Result, ok}
use lacme.Prelude.Dict.{Dict, get, put, pop, values}
use lacme.Store.Platform.{StorePlatform}
use lacme.Store.Bundle.{CertBundle}

-- `class Store(Protocol)`: a call returns a value or raises, and leaves a state.
pub record Store (py : StorePlatform) (S : Type 0) : Type 0 where
  pub save_account_key : py.EcKey → S → Result (Unit {0}) × S
  pub load_account_key : S → Result (Option py.EcKey)
  pub save_cert : CertBundle py → S → Result (CertBundle py) × S
  pub load_cert : Str → S → Result (Option (CertBundle py))
  pub list_certs : S → Result (List (CertBundle py))
  pub delete_cert : Str → S → Result Bool × S
  pub save_ca : Str → Str → Str → S → Result (Unit {0}) × S
  pub load_ca : Str → S → Result (Option (Str × Str))

-- `class MemoryStore`
pub record Memory (py : StorePlatform) : Type 0 where
  pub account_key : Option py.EcKey
  pub certs : Dict Str (CertBundle py)
  pub cas : Dict Str (Str × Str)

unfoldable pub memory_delete_cert : (py : StorePlatform) → Str → Memory py → Result Bool × Memory py
unfolding get pop
memory_delete_cert py domain memory = elim (get memory.certs domain) [
  | none ↦ (ok false, memory)
  | some _ ↦ (ok true, record memory { certs = pop memory.certs domain })
]

unfoldable pub memory_cert_store : (py : StorePlatform) → Store py (Memory py)
unfolding get put values memory_delete_cert
memory_cert_store py = record {
  save_account_key = λ key memory. (ok tt, record memory { account_key = some key });
  load_account_key = λ memory. ok memory.account_key;
  save_cert =
      λ bundle memory. (ok bundle, record memory { certs = put memory.certs bundle.domain bundle });
  load_cert = λ domain memory. ok (get memory.certs domain);
  list_certs = λ memory. ok (values memory.certs);
  delete_cert = memory_delete_cert py;
  save_ca =
      λ name cert key memory. (ok tt, record memory { cas = put memory.cas name (cert, key) });
  load_ca = λ name memory. ok (get memory.cas name);
}
