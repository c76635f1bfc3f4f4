-- ===== src/Cache/History.antt =====
-- Calls of a cache handle of rust/dion_extension/src/cache.rs, one after another.
use dion_runtime.Base.{Bool, Option, List, [], ◌∷◌, String}
use dion_runtime.Cache.Types.{CacheValue, Duration, Now, Platform}
use dion_runtime.Cache.Exec.{Exec, pure, ◌>>=◌}
use dion_runtime.Cache.Triples.{Keeps, Keeps-bind, Keeps-pure}
use dion_runtime.Cache.Handle.{State}
use dion_runtime.Cache.Ops

pub data Call (J : Type 0) : Type 0 where
  set : Now → String → CacheValue J → Option Duration → Call J
  get : Now → String → Bool → Call J
  has : Now → String → Call J
  delete : String → Call J
  keys size : Now → Call J
  clear : Call J

abbrev pub dropped {ℓ} : {S : Type ℓ} {A : Type 0} → Exec S A → Exec S (Unit {0})
dropped m = m >>= λ _. pure tt

module _ (p : Platform) where
  -- One call, its result dropped.
  unfoldable pub perform : Call p.Json → Exec (State p) (Unit {0})
  perform (Call.set now key value ttl) = dropped (Ops.set p now key value ttl)
  perform (Call.get now key update_recency) = dropped (Ops.get p now key update_recency)
  perform (Call.has now key) = dropped (Ops.has p now key)
  perform (Call.delete key) = Ops.delete p key
  perform (Call.keys now) = dropped (Ops.live_keys p now)
  perform (Call.size now) = dropped (Ops.live_size p now)
  perform Call.clear = Ops.clear p

  -- A call that fails does not stop the ones after it.
  unfoldable pub run : List (Call p.Json) → State p → State p
  run [] s = s
  run (c ∷ calls) s = run calls (perform c s).1

pub forget_result {ℓ} :
    {S : Type ℓ} {A : Type 0} {I : S → Type 0} (m : Exec S A) → Keeps I m → Keeps I (dropped m)
forget_result m k = Keeps-bind m (λ _. pure tt) k (λ _. Keeps-pure tt)
