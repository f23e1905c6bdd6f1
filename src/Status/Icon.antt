-- ===== src/Status/Icon.antt =====
-- src/status/icon.rs: the icon of a host and the cache of the icon files. A text is the list of its
-- characters, a path such a text, a file the list of its bytes and a time a number. `File` is what
-- the system answers about one path during one call, and `encode` the base64 of another package.
pub mod Png
pub mod Cache
pub mod Current
mod Tests
use vine.Base.{
  ◌^◌, ℕ, ◌+◌, ◌*◌, Bool, true, false, not, ◌||◌, ◌&&◌, ◌==◌, ltb, leb, if◌then◌else◌, List, [],
  ◌∷◌, ◌++◌, map, Option, none, some, Text, codes, text_eq, length, take, drop, lookup, insert,
  text_key,
}
use vine.Backend.Router.{or_else}

pub record StatusIcon : Type 0 where
  pub path : Text
  pub data_uri : Text
  pub width : ℕ
  pub height : ℕ
  pub last_modified : Option ℕ

-- The messages of the source by their kinds.
pub data IconError : Type 0 where
  unreadable : Text → IconError
  too_small : Text → ℕ → IconError
  no_signature : Text → IconError
  no_header : Text → IconError

pub data Loaded : Type 0 where
  ok : StatusIcon → Loaded
  err : IconError → Loaded

pub record File : Type 0 where
  -- The first `fs::metadata` and, if it is given, its time.
  pub metadata : Option (Option ℕ)
  pub content : Option Text
  -- The time that is asked for behind the reading.
  pub modified : Option ℕ

abbrev pub png_signature : Text
png_signature = 137 ∷ 80 ∷ 78 ∷ 71 ∷ 13 ∷ 10 ∷ 26 ∷ 10 ∷ []

pub u32_from : Text → ℕ
u32_from [] = 0
u32_from (b ∷ rest) = b * 256 ^ length rest + u32_from rest

pub record StatusIconManager : Type 0 where
  pub default_icon_path : Option Text
  pub server_icons : List (Text × Text)
  pub forced_hosts : List (Text × Text)
  pub default_server : Text
  pub cache : List (Text × StatusIcon)
  pub poisoned : Bool

-- `char::is_whitespace`
is_whitespace : ℕ → Bool
is_whitespace c =
    (leb 9 c && leb c 13)
    || c == 32
    || c == 133
    || c == 160
    || c == 5760
    || (leb 8192 c && leb c 8202)
    || c == 8232
    || c == 8233
    || c == 8239
    || c == 8287
    || c == 12288

trim_start : Text → Text
unfolding is_whitespace
trim_start [] = []
trim_start (c ∷ rest) = if is_whitespace c then trim_start rest else c ∷ rest

only_whitespace : Text → Bool
unfolding is_whitespace
only_whitespace [] = true
only_whitespace (c ∷ rest) = is_whitespace c && only_whitespace rest

trim_end : Text → Text
unfolding only_whitespace
trim_end [] = []
trim_end (c ∷ rest) = if only_whitespace (c ∷ rest) then [] else c ∷ trim_end rest

trim : Text → Text
unfolding trim_start trim_end
trim text = trim_end (trim_start text)

-- `h.split(':').next()`
before_colon : Text → Text
before_colon [] = []
before_colon (c ∷ rest) = if c == 58 then [] else c ∷ before_colon rest

unfoldable pub clean_host : Text → Text
unfolding trim before_colon
clean_host h = trim (before_colon h)

icon_of_server : StatusIconManager → Option Text → Option Text
icon_of_server m none = none
icon_of_server m (some server) = lookup m.server_icons server

icon_of_host : StatusIconManager → Option Text → Option Text
unfolding icon_of_server
icon_of_host m none = none
icon_of_host m (some h) =
    let host = clean_host h in
    or_else (icon_of_server m (lookup m.forced_hosts host)) (lookup m.server_icons host)

unfoldable pub resolve_icon_path : StatusIconManager → Option Text → Option Text
unfolding icon_of_host
resolve_icon_path m host =
    or_else (icon_of_host m host)
      (or_else (lookup m.server_icons m.default_server) m.default_icon_path)

unfoldable pub same_time : Option ℕ → ℕ → Bool
same_time none now = false
same_time (some then_) now = then_ == now

-- The icon in the cache, where the file is as it was or cannot be asked about.
unfoldable pub cached_uri : Option StatusIcon → Option (Option ℕ) → Option Text
cached_uri none metadata = none
cached_uri (some icon) none = some icon.data_uri
cached_uri (some icon) (some none) = none
cached_uri (some icon) (some (some now)) =
    if same_time icon.last_modified now then some icon.data_uri else none

unfoldable pub cached : StatusIconManager → Text → Option StatusIcon
cached m path = if m.poisoned then none else lookup m.cache path

unfoldable pub store : StatusIconManager → Text → Loaded → StatusIconManager × Option Text
store m path (err e) = (m, none)
store m path (ok icon) = (
  record m { cache = if m.poisoned then m.cache else insert m.cache path icon },
  some icon.data_uri,
)

module _ (encode : Text → Text) where
  unfoldable pub uri_of : Text → Text
  uri_of bytes = codes "data:image/png;base64," ++ encode bytes

  unfoldable pub from_bytes : Text → Text → Option ℕ → Loaded
  unfolding u32_from
  from_bytes bytes path modified =
      if ltb (length bytes) 24
      then err (too_small path (length bytes))
      else if not (text_eq (take 8 bytes) png_signature)
      then err (no_signature path)
      else if not (text_eq (take 4 (drop 12 bytes)) (codes "IHDR"))
      then err (no_header path)
      else ok (record {
        path = path;
        data_uri = uri_of bytes;
        width = u32_from (take 4 (drop 16 bytes));
        height = u32_from (take 4 (drop 20 bytes));
        last_modified = modified;
      })

  unfoldable pub load_content : Text → Option Text → Option ℕ → Loaded
  load_content path none modified = err (unreadable path)
  load_content path (some bytes) modified = from_bytes bytes path modified

  unfoldable pub load_from_file : Text → File → Loaded
  load_from_file path file = load_content path file.content file.modified

  unfoldable pub reload_unless :
      StatusIconManager → Text → File → Option Text → StatusIconManager × Option Text
  reload_unless m path file (some uri) = (m, some uri)
  reload_unless m path file none = store m path (load_from_file path file)

  unfoldable pub load_or_reload : StatusIconManager → Text → File → StatusIconManager × Option Text
  load_or_reload m path file = reload_unless m path file (cached_uri (cached m path) file.metadata)

  unfoldable pub load_if_some :
      StatusIconManager → Option Text → (Text → File) → StatusIconManager × Option Text
  load_if_some m none disk = (m, none)
  load_if_some m (some path) disk = load_or_reload m path (disk path)

  unfoldable pub get_icon_for_host :
      StatusIconManager → Option Text → (Text → File) → StatusIconManager × Option Text
  get_icon_for_host m host disk = load_if_some m (resolve_icon_path m host) disk

  unfoldable pub load_each :
      StatusIconManager → List (Text × Text) → (Text → File) → StatusIconManager
  load_each m [] disk = m
  load_each m ((server, path) ∷ rest) disk =
      load_each (load_or_reload m path (disk path)).0 rest disk

  unfoldable pub preload_all : StatusIconManager → (Text → File) → StatusIconManager
  preload_all m disk = load_each (load_if_some m m.default_icon_path disk).0 m.server_icons disk

  unfoldable pub unless_blank : Option Text → Option Text
  unfolding trim
  unless_blank none = none
  unless_blank (some p) = elim (trim p) as (λ _. Option Text) [ [] ↦ none | _ ∷ _ ↦ some p ]

  unfoldable pub new :
      Option Text
      → List (Text × Text)
      → List (Text × Text)
      → Text
      → (Text → File)
      → StatusIconManager
  new configured_default_path server_icons forced_hosts default_server disk =
      preload_all
        (record {
          default_icon_path = unless_blank configured_default_path;
          server_icons = server_icons;
          forced_hosts = forced_hosts;
          default_server = default_server;
          cache = [];
          poisoned = false;
        })
        disk
