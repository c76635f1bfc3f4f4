-- ===== src/Tests/MemoryClient.antt =====
-- A host in memory, which meets what the stores of rust/core/src/store rely on: it is used by the
-- examples alone. It answers each request for a permission with yes.
use dion_runtime.Base.{
  Option, none, some, List, arith, Text, String, string_eq, Result, ok, err, true, ap,
}
use dion_runtime.Base.Maps.{lookup, insert, lookup-insert, lookup-insert_self}
use dion_runtime.Client.{Fault, host_fault, Client, IsPersistent}

abbrev pub or_fault : Option Text → Result Fault Text
or_fault none = err host_fault
or_fault (some t) = ok t

abbrev pub memory_client : (P : Type 0) → Client P
memory_client P = record {
  Host = List (String × Text);
  load_data = λ k h. or_fault (lookup k h);
  store_data = λ k t h. (ok tt, insert k t h);
  load_data_secure = λ k h. or_fault (lookup k h);
  store_data_secure = λ k t h. (ok tt, insert k t h);
  request_permission = λ p msg h. (ok true, h);
}

pub memory-IsPersistent : (P : Type 0) → IsPersistent (memory_client P)
memory-IsPersistent P = record {
  load-store = λ k t h e. ap or_fault (lookup-insert_self k t h);
  load-store_ne =
      λ k j t h n. ap or_fault (ground (arith, lookup-insert k j t h, string_eq.beq_iff k j));
  load-store_secure = λ k t h e. ap or_fault (lookup-insert_self k t h);
}
