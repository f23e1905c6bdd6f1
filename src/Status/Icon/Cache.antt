-- ===== src/Status/Icon/Cache.antt =====
-- src/status/icon.rs: an icon of the cache is one of its file, at the time that it carries.
use vine.Status.Icon.Png.{Shows, data_uri_of, Dated, Describes, from_bytes-Describes}
use vine.Status.Icon.{
  StatusIcon, Loaded, ok, err, File, StatusIconManager, store, load_content, load_from_file,
  reload_unless, load_or_reload, load_if_some, get_icon_for_host, load_each, preload_all, new,
}
use vine.Base.{
  ℕ, Bool, true, false, if◌then◌else◌, List, [], ◌∷◌, Option, none, some, Text, text_eq,
  text_eq_iff, lookup, insert, lookup-insert, text_key, ◌≡◌, ◌⊎◌, inl, inr, refl, sym, subst, ◌∙◌,
  Bool-cases,
}

nothing_cached : (path : Text) (icon : StatusIcon) → ¬ (lookup [] path ≡ some icon)
unfolding lookup
nothing_cached path icon e = absurd cc

hit :
    (b : Bool) (icon : StatusIcon) (old : Option StatusIcon) (i : StatusIcon)
    → (if b then some icon else old) ≡ some i
    → ((b ≡ true) × (icon ≡ i)) ⊎ (old ≡ some i)
hit true icon old i e = inl (refl, cc e)
hit false icon old i e = inr e

module _ (encode : Text → Text) (contents : Text → ℕ → Text) where
  unfoldable pub SteadyFile : Text → File → Type 0
  SteadyFile path file =
      (bytes : Text) (now : ℕ)
      → file.content ≡ some bytes
      → file.modified ≡ some now
      → bytes ≡ contents path now

  -- What is read from a path is what the file held at the time that it then has.
  unfoldable pub Steady : (Text → File) → Type 0
  Steady disk = (path : Text) → SteadyFile path (disk path)

  unfoldable pub GoodIcon : Text → StatusIcon → Type 0
  GoodIcon path icon =
      (now : ℕ)
      → icon.last_modified ≡ some now
      → Shows encode (some icon.data_uri) (contents path now)

  unfoldable pub Fresh : StatusIconManager → Type 0
  Fresh m = (path : Text) (icon : StatusIcon) → lookup m.cache path ≡ some icon → GoodIcon path icon

  GoodLoad : Text → Loaded → Type 0
  GoodLoad path (ok icon) = GoodIcon path icon
  GoodLoad path (err e) = true ≡ true

  inserted :
      (m : StatusIconManager) (path : Text) (icon : StatusIcon)
      → Fresh m
      → GoodIcon path icon
      → Fresh (record m { cache = insert m.cache path icon })
  unfolding Fresh
  inserted m path icon fresh good other i e =
      elim (hit (text_eq path other) icon (lookup m.cache other) i
        (sym (lookup-insert m.cache path other icon) ∙ e)) [
          | inl (same, is) ↦
              subst (λ p. GoodIcon p i) ((text_eq_iff path other).0 same)
                (subst (GoodIcon path) is good)
          | inr old ↦ fresh other i old
        ]

  store-Fresh :
      (m : StatusIconManager) (path : Text) (l : Loaded)
      → Fresh m
      → GoodLoad path l
      → Fresh (store m path l).0
  unfolding store Fresh GoodLoad
  store-Fresh m path (err e) fresh good = fresh
  store-Fresh m path (ok icon) fresh good = elim (Bool-cases m.poisoned) [
    | inl y ↦ rw y fresh
    | inr n ↦ rw n (inserted m path icon fresh good)
  ]

  described-GoodLoad :
      (path bytes : Text) (modified : Option ℕ) (l : Loaded)
      → Describes encode l bytes modified
      → ((now : ℕ) → modified ≡ some now → bytes ≡ contents path now)
      → GoodLoad path l
  unfolding GoodLoad GoodIcon Describes Dated data_uri_of
  described-GoodLoad path bytes modified (err e) described held = refl
  described-GoodLoad path bytes modified (ok icon) (shows, dated) held =
      λ now e. subst (Shows encode (some icon.data_uri)) (held now (sym dated ∙ e)) shows

  load_content-GoodLoad :
      (path : Text) (content : Option Text) (modified : Option ℕ)
      → ((bytes : Text) (now : ℕ)
          → content ≡ some bytes
          → modified ≡ some now
          → bytes ≡ contents path now)
      → GoodLoad path (load_content encode path content modified)
  unfolding load_content GoodLoad
  load_content-GoodLoad path none modified steady = refl
  load_content-GoodLoad path (some bytes) modified steady =
      described-GoodLoad path bytes modified _ (from_bytes-Describes encode bytes path modified)
        (λ now e. steady bytes now refl e)

  load_from_file-GoodLoad :
      (path : Text) (file : File)
      → SteadyFile path file
      → GoodLoad path (load_from_file encode path file)
  unfolding load_from_file SteadyFile
  load_from_file-GoodLoad path file steady =
      load_content-GoodLoad path file.content file.modified steady

  reload_unless-Fresh :
      (m : StatusIconManager) (path : Text) (file : File) (uri : Option Text)
      → Fresh m
      → SteadyFile path file
      → Fresh (reload_unless encode m path file uri).0
  unfolding reload_unless
  reload_unless-Fresh m path file (some uri) fresh steady = fresh
  reload_unless-Fresh m path file none fresh steady =
      store-Fresh m path _ fresh (load_from_file-GoodLoad path file steady)

  load_or_reload-Fresh :
      (m : StatusIconManager) (path : Text) (file : File)
      → Fresh m
      → SteadyFile path file
      → Fresh (load_or_reload encode m path file).0
  unfolding load_or_reload
  load_or_reload-Fresh m path file fresh steady = reload_unless-Fresh m path file _ fresh steady

  load_if_some-Fresh :
      (m : StatusIconManager) (path : Option Text) (disk : Text → File)
      → Fresh m
      → Steady disk
      → Fresh (load_if_some encode m path disk).0
  unfolding load_if_some Steady
  load_if_some-Fresh m none disk fresh steady = fresh
  load_if_some-Fresh m (some path) disk fresh steady =
      load_or_reload-Fresh m path (disk path) fresh (steady path)

  load_each-Fresh :
      (icons : List (Text × Text)) (m : StatusIconManager) (disk : Text → File)
      → Fresh m
      → Steady disk
      → Fresh (load_each encode m icons disk)
  unfolding load_each Steady
  load_each-Fresh [] m disk fresh steady = fresh
  load_each-Fresh ((server, path) ∷ rest) m disk fresh steady =
      load_each-Fresh rest _ disk (load_or_reload-Fresh m path (disk path) fresh (steady path))
        steady

  empty-Fresh : (m : StatusIconManager) → m.cache ≡ [] → Fresh m
  unfolding Fresh lookup
  empty-Fresh m none_cached path icon e =
      absurd
        (nothing_cached path icon (subst (λ cache. lookup cache path ≡ some icon) none_cached e))

  pub new-Fresh :
      (path : Option Text) (icons hosts : List (Text × Text)) (server : Text) (disk : Text → File)
      → Steady disk
      → Fresh (new encode path icons hosts server disk)
  unfolding new preload_all
  new-Fresh path icons hosts server disk steady =
      load_each-Fresh icons _ disk (load_if_some-Fresh _ _ disk (empty-Fresh _ refl) steady) steady

  -- The lookups of the hosts, each with the disk as it is then.
  unfoldable pub look_up_all :
      StatusIconManager → List (Option Text × (Text → File)) → StatusIconManager
  look_up_all m [] = m
  look_up_all m ((host, disk) ∷ rest) = look_up_all (get_icon_for_host encode m host disk).0 rest

  unfoldable pub AllSteady : List (Option Text × (Text → File)) → Type 0
  AllSteady [] = true ≡ true
  AllSteady ((host, disk) ∷ rest) = Steady disk × AllSteady rest

  pub look_up_all-Fresh :
      (calls : List (Option Text × (Text → File))) (m : StatusIconManager)
      → Fresh m
      → AllSteady calls
      → Fresh (look_up_all m calls)
  unfolding look_up_all AllSteady get_icon_for_host
  look_up_all-Fresh [] m fresh steady = fresh
  look_up_all-Fresh ((host, disk) ∷ rest) m fresh (first, later) =
      look_up_all-Fresh rest _ (load_if_some-Fresh m _ disk fresh first) later
