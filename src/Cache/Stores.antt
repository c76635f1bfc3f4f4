-- ===== src/Cache/Stores.antt =====
-- What a `set` of rust/dion_extension/src/cache.rs that succeeds leaves in the index and on disk.
use dion_runtime.Base.{
  ◌≡◌, refl, subst, not, Option, some, Text, String, inl, inr, Result, ok, err, Result-cases,
  Option-cases, ◌==◌, string_eq, option_eq, nat_eq, guard,
}
use dion_runtime.Client.{Fault, IsFaithful}
use dion_runtime.Cache.Types.{CachePolicy, CacheValue, zero_ttl, Duration, Now, Platform}
use dion_runtime.Cache.Disk.{IsFileSystem, write_atomic_lem, entry-ne-tmp}
use dion_runtime.Cache.Exec.{Exec, lift, faulty, ◌>>=◌, ◌>>◌}
use dion_runtime.Cache.Triples.{
  Ensures, Ensures-bind, Ensures-lift, Ensures-Keeps, Ensures-mono, Keeps, Keeps-bind, Keeps-lift,
}
use dion_runtime.Cache.Handle.{
  CacheInner, State, validate_key, entry_path, io, write_atomic, ensure_loaded, load_index,
  parse_index, read_index, set_index, next_tick, tick_after,
}
use dion_runtime.Cache.Ops.{set, store_entry, write_entry, new_meta, or_default, payload_of}
use dion_runtime.Cache.Sound.{IsSound, write_entry-IsSound}
use dion_runtime.Cache.Writes.{IsCollisionFree, Stores, insert-Holding}
use dion_runtime.Cache.Keeps.{ensure_loaded-IsSound}

module _ (p : Platform) (fs : IsFileSystem p) (faithful : IsFaithful p.index_codec) where
  open p use {Disk, Json, key_hash, read}

  ensure_loaded-policy :
      (policy : CachePolicy) → Keeps (λ (s : State p). s.0.policy ≡ policy) (ensure_loaded p)
  unfolding ensure_loaded
  ensure_loaded-policy policy = record {
    at = λ s h. elim (Option-cases s.0.index) [
      | inr (ix, loaded) ↦ rw (loaded, ensure_loaded) h
      | inl missing ↦ rw (missing, ensure_loaded) (loads.at s h)
    ];
  }
    where
      parse_then : Result Fault Text → Exec (State p) (Unit {0})
      parse_then found = do
        snapshot ← lift (faulty (parse_index p found))
        set_index p (some snapshot.entries)

      loads : Keeps (λ (s : State p). s.0.policy ≡ policy) (load_index p)
      loads =
          Keeps-bind (io p p.create_entries_dir) (λ _. read_index p >>= parse_then)
            (record { at = λ s h. h })
            λ _.
              Keeps-bind (read_index p) parse_then (record { at = λ s h. h })
                λ found.
                  Keeps-bind (lift (faulty (parse_index p found))) _ (Keeps-lift _)
                    λ snapshot. record { at = λ s h. h }

  write_entry_lem :
      (key : String) (payload : Text) (s : State p)
      → IsSound p s
      → Ensures
          (λ _ s'. IsSound p s' × (s'.0 ≡ s.0) × (read (entry_path p key) s'.1 ≡ ok payload))
          (λ _. Unit {0})
          (io p (write_atomic p (entry_path p key) payload) s)
  write_entry_lem key payload s sound =
      let path = entry_path p key in
      let w = write_atomic_lem p fs path payload s.1 (entry-ne-tmp (key_hash key)) in
      let sound' = (write_entry-IsSound p fs faithful key payload).at s sound in
      elim (Result-cases (write_atomic p path payload s.1).0) [
        | inl (a, e) ↦ rw e (sound', refl, w.done e)
        | inr (c, e) ↦ rw e tt
      ]

  faulty-eq-ok : {A : Type 0} (r : Result Fault A) (a : A) → faulty r ≡ ok a → r ≡ ok a
  faulty-eq-ok (ok b) a h = cc
  faulty-eq-ok (err e) a h = cc

  store_entry-Stores :
      (now : Now) (key : String) (value : CacheValue Json) (ttl : Option Duration) (payload : Text)
      (s : State p)
      → IsCollisionFree key_hash
      → IsSound p s
      → payload_of p value ≡ ok payload
      → read (entry_path p key) s.1 ≡ ok payload
      → Stores p now key value
          (or_default ttl s.0.policy.default_ttl)
          (store_entry p now key value ttl payload s).1
  unfolding next_tick
  store_entry-Stores now key value ttl payload s free sound encoded file =
      let tick = tick_after now s.0.clock in
      let s' : State p = (record s.0 { clock = tick }, s.1) in
      record {
        payload = payload;
        tick = tick;
        encoded = encoded;
        holding =
            insert-Holding p fs faithful key
              (new_meta p now key value payload (or_default ttl s.0.policy.default_ttl) tick)
              payload s' free refl (record { memory = sound.memory; disk = sound.disk }) file;
      }

  write_entry-Stores :
      (now : Now) (key : String) (value : CacheValue Json) (ttl : Option Duration) (s : State p)
      → IsCollisionFree key_hash
      → IsSound p s
      → Ensures
          (λ _. Stores p now key value (or_default ttl s.0.policy.default_ttl))
          (λ _. Unit {0})
          (write_entry p now key value ttl s)
  write_entry-Stores now key value ttl s free sound =
      let Q = Stores p now key value (or_default ttl s.0.policy.default_ttl) in
      Ensures-lift (λ _. Q) (faulty (payload_of p value))
        (λ payload.
          io p (write_atomic p (entry_path p key) payload)
          >> store_entry p now key value ttl payload)
        s
        λ payload encoded.
          Ensures-bind
            (λ _ s'. IsSound p s' × (s'.0 ≡ s.0) × (read (entry_path p key) s'.1 ≡ ok payload))
            (λ _. Q) (λ _. Unit {0}) (io p (write_atomic p (entry_path p key) payload) s)
            (λ _. store_entry p now key value ttl payload) (write_entry_lem key payload s sound)
            λ _ s' (sound', same, file).
              Ensures-Keeps Q (store_entry p now key value ttl payload s') (
                subst
                  (λ (c : CacheInner).
                    Stores p now key value (or_default ttl c.policy.default_ttl)
                      (store_entry p now key value ttl payload s').1)
                  same
                  (store_entry-Stores now key value ttl payload s' free sound'
                    (faulty-eq-ok _ payload encoded) file))

  -- With a key hash that has no collisions: a `set` that succeeds leaves the entry in the index, with
  -- its value in the entry's file.
  pub set-Stores :
      (now : Now) (key : String) (value : CacheValue Json) (ttl : Option Duration) (s : State p)
      → IsCollisionFree key_hash
      → IsSound p s
      → Ensures
          (λ _ s'.
            (validate_key key ≡ ok tt)
            × Stores p now key value (or_default ttl s.0.policy.default_ttl) s')
          (λ _. Unit {0})
          (set p now key value ttl s)
  unfolding set
  set-Stores now key value ttl s free sound =
      let Q = Stores p now key value (or_default ttl s.0.policy.default_ttl) in
      let R = λ (_ : Unit {0}) (s' : State p). (validate_key key ≡ ok tt) × Q s' in
      let I = λ (s1 : State p). IsSound p s1 × (s1.0.policy ≡ s.0.policy) in
      Ensures-lift R (guard (not (ttl == some 0)) zero_ttl)
        (λ _. lift (validate_key key) >> (ensure_loaded p >> write_entry p now key value ttl)) s
        λ _ _.
          Ensures-lift R (validate_key key)
            (λ _. ensure_loaded p >> write_entry p now key value ttl) s
            λ (_ : Unit {0}) valid.
              Ensures-bind (λ _. I) R (λ _. Unit {0}) (ensure_loaded p s)
                (λ _. write_entry p now key value ttl)
                (Ensures-Keeps I (ensure_loaded p s) (
                  (ensure_loaded-IsSound p fs faithful).at s sound,
                  (ensure_loaded-policy s.0.policy).at s refl,
                ))
                λ _ s1 (sound1, same).
                  Ensures-mono
                    (λ _. Stores p now key value (or_default ttl s1.0.policy.default_ttl)) R
                    (λ _. Unit {0}) (λ _. Unit {0}) (write_entry p now key value ttl s1)
                    (λ _ s' h. (
                      valid,
                      subst
                          (λ (q : CachePolicy).
                            Stores p now key value (or_default ttl q.default_ttl) s')
                          same h,
                    ))
                    (λ _ _. tt) (write_entry-Stores now key value ttl s1 free sound1)
