-- ===== src/Client.antt =====
-- The host side of the runtime: the `ExtensionClient` trait of rust/core/src/client_data.rs, which
-- every embedder implements, and the JSON codec (serde_json). Both are parameters of the model.
use dion_runtime.Base.{◌≡◌, Bool, false, Option, Text, String, Result, ok, is_blank, ◌≢◌}

-- Why an operation failed, where the code passes on another component's error.
pub data Fault : Type 0 where
  host_fault io_fault json_fault : Fault

-- The persistence and the permission prompt of `ExtensionClient`. A call may change the host.
pub record Client (P : Type 0) : Type 1 where
  pub Host : Type 0
  pub load_data : String → Host → Result Fault Text
  pub store_data : String → Text → Host → Result Fault (Unit {0}) × Host
  pub load_data_secure : String → Host → Result Fault Text
  pub store_data_secure : String → Text → Host → Result Fault (Unit {0}) × Host
  pub request_permission : P → Option Text → Host → Result Fault Bool × Host

-- What the stores rely on: data that was stored is loaded again, and a key keeps its data while
-- another key is stored.
pub record IsPersistent {P : Type 0} (c : Client P) : Type 0 where
  pub load-store :
      (k : String) (t : Text) (h : c.Host)
      → (c.store_data k t h).0 ≡ ok tt
      → c.load_data k (c.store_data k t h).1 ≡ ok t
  pub load-store_ne :
      (k j : String) (t : Text) (h : c.Host)
      → k ≢ j
      → c.load_data j (c.store_data k t h).1 ≡ c.load_data j h
  pub load-store_secure :
      (k : String) (t : Text) (h : c.Host)
      → (c.store_data_secure k t h).0 ≡ ok tt
      → c.load_data_secure k (c.store_data_secure k t h).1 ≡ ok t

-- `serde_json::to_string` and `serde_json::from_str` at one type.
pub record Codec (A : Type 0) : Type 0 where
  pub to_string : A → Result Fault Text
  pub from_str : Text → Result Fault A

-- A value that was written is read back.
pub record IsFaithful {A : Type 0} (c : Codec A) : Type 0 where
  pub round_trip : (a : A) (t : Text) → c.to_string a ≡ ok t → c.from_str t ≡ ok a

-- JSON text is never blank.
pub record IsNeverBlank {A : Type 0} (c : Codec A) : Type 0 where
  pub not_blank : (a : A) (t : Text) → c.to_string a ≡ ok t → is_blank t ≡ false

-- A value whose text, where it can be written, is not blank and is read back as the value.
pub record ReadsBack {A : Type 0} (c : Codec A) (a : A) : Type 0 where
  pub read_back : (t : Text) → c.to_string a ≡ ok t → c.from_str t ≡ ok a
  pub not_blank : (t : Text) → c.to_string a ≡ ok t → is_blank t ≡ false
