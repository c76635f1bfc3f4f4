-- ===== src/Tests/ManagerExamples.antt =====
-- The theorems on installing and removing scripts at concrete inputs: a host whose files all have
-- the manifest of one extension.
use dion_runtime.Base.{◌≡◌, refl, true, false, none, some, [], ◌∷◌, Text, ok, err, codes, All}
use dion_runtime.Client.{io_fault}
use dion_runtime.ExtensionManager.Metadata.{ExtensionMetadata, Manifests, first_line}
use dion_runtime.ExtensionManager.Platform.{Platform, wrote, removed, logged}
use dion_runtime.ExtensionManager.Install.{install, uninstall}
use dion_runtime.ExtensionManager.Confined.{IsConfined, install-Confined}
use dion_runtime.ExtensionManager.Uninstall.{IsRemoval, uninstall-IsRemoval}
use dion_runtime.Settings.{Carried}

abbrev carried : Carried
carried = record { F32 = Unit; F64 = Unit; I32 = Unit; CustomUi = Unit }

abbrev reader : ExtensionMetadata carried
reader = record {
  id = codes "reader";
  name = [];
  url = [];
  icon = [];
  desc = none;
  authors = [];
  tags = [];
  lang = [];
  nsfw = false;
  media_type = [];
  extension_type = [];
  repo = none;
  version = [];
  license = [];
  api_version = [];
  settings = [];
  accounts = [];
  permissions = [];
}

abbrev manifests : Manifests
manifests = record {
  carried = carried;
  Version = Unit {0};
  VersionReq = Unit {0};
  parse_version = λ t. some tt;
  parse_req = λ t. some tt;
  matches = λ r v. true;
  pkg_version = codes "1.0.0";
  from_str = λ t. some reader;
}

-- No extension loads.
abbrev host : Platform
host = record {
  World = Unit {0};
  Bytes = Text;
  Loaded = Unit {0};
  from_utf8 = λ bytes. some bytes;
  to_bytes = λ t. t;
  get_path = λ w. (ok (codes "/ext"), w);
  http_text = λ url w. (ok (codes "//{}"), w);
  read = λ path w. (ok (codes "//{}"), w);
  read_dir = λ path w. (ok [], w);
  write = λ path bytes w. (ok tt, w);
  copy = λ from to w. (ok tt, w);
  remove_file = λ path w. (ok tt, w);
  create = λ path w. (err io_fault, w);
}

abbrev url : Text
url = codes "https://a/reader.dion.js"

install_example :
    (install manifests (logged host) url ([], tt)).1.0
    ≡ removed (codes "/ext/reader.dion.js") ∷ wrote (codes "/ext/reader.dion.js") ∷ []
unfolding install
install_example = refl

install-Confined_example : All (IsConfined host) (install manifests (logged host) url ([], tt)).1.0
install-Confined_example = install-Confined manifests host url tt

uninstall-IsRemoval_example :
    IsRemoval manifests host
      (codes "reader")
      (uninstall manifests (logged host) (codes "reader") ([], tt))
uninstall-IsRemoval_example = uninstall-IsRemoval manifests host (codes "reader") tt

first_line_examples :
    (first_line manifests (codes "a\r\nb") ≡ some (codes "a")) × (first_line manifests [] ≡ none)
unfolding first_line
first_line_examples = (refl, refl)
