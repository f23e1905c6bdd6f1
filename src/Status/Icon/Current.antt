-- ===== src/Status/Icon/Current.antt =====
-- src/status/icon.rs: the icon that is given is that of the file as it is.
use vine.Status.Icon.Png.{Shows, data_uri_of, Describes, from_bytes-Describes}
use vine.Status.Icon.Cache.{
  Steady, AllSteady, Fresh, GoodIcon, look_up_all, new-Fresh, look_up_all-Fresh,
}
use vine.Status.Icon.{
  StatusIcon, Loaded, ok, err, File, StatusIconManager, resolve_icon_path, same_time, cached_uri,
  cached, store, load_content, load_from_file, reload_unless, load_or_reload, load_if_some,
  get_icon_for_host, new,
}
use vine.Base.{
  ℕ, Bool, true, false, if◌then◌else◌, List, Option, none, some, Text, lookup, text_key, ◌≡◌, refl,
  subst, arith,
}

taken :
    (b : Bool) (old uri : Text)
    → (if b then some old else none) ≡ some uri
    → (b ≡ true) × (old ≡ uri)
taken true old uri e = (refl, cc e)
taken false old uri e = absurd cc

unless_true :
    (b : Bool) (found : Option StatusIcon) (i : StatusIcon)
    → (if b then none else found) ≡ some i
    → found ≡ some i
unless_true true found i e = absurd cc
unless_true false found i e = e

module _ (encode : Text → Text) (contents : Text → ℕ → Text) where
  at_time : (modified : Option ℕ) (now : ℕ) → same_time modified now ≡ true → modified ≡ some now
  unfolding same_time
  at_time none now h = absurd cc
  at_time (some then_) now h = ground arith

  cached_uri-Shows :
      (c : Option StatusIcon) (path : Text) (now : ℕ) (uri : Text)
      → ((icon : StatusIcon) → c ≡ some icon → GoodIcon encode contents path icon)
      → cached_uri c (some (some now)) ≡ some uri
      → Shows encode (some uri) (contents path now)
  unfolding cached_uri GoodIcon
  cached_uri-Shows none path now uri good e = absurd cc
  cached_uri-Shows (some icon) path now uri good e =
      let (same, is) = taken (same_time icon.last_modified now) icon.data_uri uri e in
      subst (λ u. Shows encode (some u) (contents path now)) is
        (good icon refl now (at_time icon.last_modified now same))

  store-data_uri_of :
      (m : StatusIconManager) (path : Text) (l : Loaded) → (store m path l).1 ≡ data_uri_of l
  unfolding store data_uri_of
  store-data_uri_of m path (ok icon) = refl
  store-data_uri_of m path (err e) = refl

  reload_unless-Shows :
      (m : StatusIconManager) (path : Text) (file : File) (now : ℕ) (uri : Option Text)
      → ((u : Text) → uri ≡ some u → Shows encode (some u) (contents path now))
      → file.content ≡ some (contents path now)
      → Shows encode (reload_unless encode m path file uri).1 (contents path now)
  unfolding reload_unless load_from_file load_content Describes
  reload_unless-Shows m path file now (some u) good held = good u refl
  reload_unless-Shows m path file now none good held =
      rw (store-data_uri_of m path (load_from_file encode path file))
        (rw held (from_bytes-Describes encode (contents path now) path file.modified).0)

  cached-Good :
      (m : StatusIconManager) (path : Text)
      → Fresh encode contents m
      → (icon : StatusIcon) → cached m path ≡ some icon
      → GoodIcon encode contents path icon
  unfolding cached Fresh
  cached-Good m path fresh icon e =
      fresh path icon (unless_true m.poisoned (lookup m.cache path) icon e)

  load_or_reload-Shows :
      (m : StatusIconManager) (path : Text) (file : File) (now : ℕ)
      → Fresh encode contents m
      → file.metadata ≡ some (some now)
      → file.content ≡ some (contents path now)
      → Shows encode (load_or_reload encode m path file).1 (contents path now)
  unfolding load_or_reload
  load_or_reload-Shows m path file now fresh meta held =
      reload_unless-Shows m path file now _
        (λ u e.
          cached_uri-Shows (cached m path) path now u (cached-Good m path fresh) (rw meta at e))
        held

  -- After the loading of the icons and any lookups, the icon that a host gets is that of its file
  -- as it is now: the data URI of the bytes if they begin as a PNG file does and are at least 24,
  -- and else none. The conditions: the system gives the file's time and bytes, and what any earlier
  -- call read from a file is what the file held at the time that the call was given for it.
  pub get_icon_for_host-Shows :
      (default : Option Text) (icons hosts : List (Text × Text)) (server : Text)
      (disk : Text → File) (calls : List (Option Text × (Text → File))) (host : Option Text)
      (later : Text → File) (path : Text) (now : ℕ)
      → let m = look_up_all encode contents (new encode default icons hosts server disk) calls in
        Steady encode contents disk
        → AllSteady encode contents calls
        → resolve_icon_path m host ≡ some path
        → (later path).metadata ≡ some (some now)
        → (later path).content ≡ some (contents path now)
        → Shows encode (get_icon_for_host encode m host later).1 (contents path now)
  unfolding get_icon_for_host load_if_some
  get_icon_for_host-Shows default icons hosts server disk calls host later path now first steady
        resolved meta held =
      let m = look_up_all encode contents (new encode default icons hosts server disk) calls in
      let fresh =
        look_up_all-Fresh encode contents calls _
          (new-Fresh encode contents default icons hosts server disk first) steady in
      rw resolved (load_or_reload-Shows m path (later path) now fresh meta held)
