-- ===== src/Auth/Reload.antt =====
-- What loading the accounts of rust/core/src/store/auth.rs gives after they were saved.
use dion_runtime.Base.{◌≡◌, false, List, arith, Text, Result-cases, inl, inr, ok, is_blank}
use dion_runtime.Client.{Client, Codec, ReadsBack, IsPersistent}
use dion_runtime.Auth.{Account}
use dion_runtime.Auth.Store.{AuthStore, new, persist, save_state}

module _ {P : Type 0} (client : Client P) (codec : Codec (List Account)) where
  open client use {Host}

  new_of_load :
      (host : Host) (text : Text) (accounts : List Account)
      → client.load_data_secure "auth" host ≡ ok text
      → is_blank text ≡ false
      → codec.from_str text ≡ ok accounts
      → new client codec host ≡ record { accounts = accounts }
  unfolding new
  new_of_load host text accounts loaded full parsed = ground arith

  -- With a host that keeps what it stores, and for accounts whose text is not blank and is read back
  -- as these accounts: once `save_state` has succeeded, the accounts loaded afresh from that host are
  -- the ones saved.
  pub reload_accounts :
      (s : AuthStore) (host : Host)
      → IsPersistent client
      → ReadsBack codec s.accounts
      → (save_state client codec s host).0 ≡ ok tt
      → new client codec (save_state client codec s host).1 ≡ s
  unfolding save_state
  reload_accounts s host keeps reads saved = elim (Result-cases (codec.to_string s.accounts)) [
    | inl (text, e) ↦
        let stored = rw (e, persist) at saved in
        rw (e, persist)
          (new_of_load (client.store_data_secure "auth" text host).1 text s.accounts
            (keeps.load-store_secure _ text host stored) (reads.not_blank text e)
            (reads.read_back text e))
    | inr (c, e) ↦ cc (rw (e, persist) at saved)
  ]
