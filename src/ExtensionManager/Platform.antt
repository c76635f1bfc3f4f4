-- ===== src/ExtensionManager/Platform.antt =====
-- What rust/dion_extension/src/extension_manager.rs calls: the host for the directory of the
-- extensions, the network, the file system (tokio::fs), and the loading of an extension.
use dion_runtime.Base.{Option, List, ◌∷◌, Text, Result}
use dion_runtime.Base.Action.{Action}
use dion_runtime.Client.{Fault}

-- An entry of a directory; its name is none where it is no Unicode.
pub record DirEntry : Type 0 where
  pub path : Text
  pub file_name : Option Text

-- Each call may change the world. A file is its bytes.
pub record Platform : Type 1 where
  pub World : Type 0
  pub Bytes : Type 0
  pub Loaded : Type 0
  pub from_utf8 : Bytes → Option Text
  pub to_bytes : Text → Bytes
  pub get_path : Action World Fault Text
  pub http_text : Text → Action World Fault Text
  pub read : Text → Action World Fault Bytes
  pub read_dir : Text → Action World Fault (List (Result Fault DirEntry))
  pub write : Text → Bytes → Action World Fault (Unit {0})
  pub copy : Text → Text → Action World Fault (Unit {0})
  pub remove_file : Text → Action World Fault (Unit {0})
  pub create : Text → Action World Fault Loaded

-- What was changed in the file system, or was tried to be.
pub data Event : Type 0 where
  wrote removed : Text → Event
  copied : Text → Text → Event

-- The file that changed.
abbrev pub target : Event → Text
target (wrote path) = path
target (removed path) = path
target (copied from to) = to

-- A platform that notes each change.
abbrev pub logged : Platform → Platform
logged p = record {
  World = List Event × p.World;
  Bytes = p.Bytes;
  Loaded = p.Loaded;
  from_utf8 = p.from_utf8;
  to_bytes = p.to_bytes;
  get_path = λ w. let r = p.get_path w.1 in (r.0, (w.0, r.1));
  http_text = λ url w. let r = p.http_text url w.1 in (r.0, (w.0, r.1));
  read = λ path w. let r = p.read path w.1 in (r.0, (w.0, r.1));
  read_dir = λ path w. let r = p.read_dir path w.1 in (r.0, (w.0, r.1));
  write = λ path bytes w. let r = p.write path bytes w.1 in (r.0, (wrote path ∷ w.0, r.1));
  copy = λ from to w. let r = p.copy from to w.1 in (r.0, (copied from to ∷ w.0, r.1));
  remove_file = λ path w. let r = p.remove_file path w.1 in (r.0, (removed path ∷ w.0, r.1));
  create = λ path w. let r = p.create path w.1 in (r.0, (w.0, r.1));
}
