-- ===== src/Status/Icon/Tests.antt =====
-- src/status/icon.rs on a file that changes.
use vine.Status.Icon.{
  File, StatusIconManager, png_signature, new, resolve_icon_path, get_icon_for_host, clean_host,
  load_if_some, preload_all, load_each, unless_blank, load_or_reload, reload_unless, cached_uri,
  cached, store, load_from_file, load_content, from_bytes, same_time,
}
use vine.Status.Icon.Png.{Shows}
use vine.Status.Icon.Cache.{Steady, SteadyFile, AllSteady, look_up_all}
use vine.Status.Icon.Current.{get_icon_for_host-Shows}
use vine.Base.{
  ℕ, List, [], ◌∷◌, ◌++◌, Option, none, some, Text, codes, lookup, insert, text_eq, ◌≡◌, refl,
}

-- The port and the spaces of a host are left out.
clean_host_test : clean_host (codes " play.example.org :25565") ≡ codes "play.example.org"
unfolding clean_host
clean_host_test = refl

-- The file of any path, whose last byte is the time.
abbrev contents : Text → ℕ → Text
contents path now =
    png_signature
    ++ (0 ∷ 0 ∷ 0 ∷ 13 ∷ [])
    ++ codes "IHDR"
    ++ (0 ∷ 0 ∷ 0 ∷ 64 ∷ 0 ∷ 0 ∷ 0 ∷ 64 ∷ now ∷ [])

abbrev encode : Text → Text
encode bytes = bytes

abbrev disk : ℕ → Text → File
disk now path = record {
  metadata = some (some now);
  content = some (contents path now);
  modified = some now;
}

same_content :
    (now : ℕ) (path bytes : Text) (then_ : ℕ)
    → some (contents path now) ≡ some bytes
    → some now ≡ some then_
    → bytes ≡ contents path then_
same_content now path bytes then_ held at = cc

disk-Steady : (now : ℕ) → Steady encode contents (disk now)
unfolding Steady SteadyFile
disk-Steady now path bytes then_ held at = same_content now path bytes then_ held at

abbrev calls : List (Option Text × (Text → File))
calls = (none, disk 1) ∷ (some (codes "lobby"), disk 1) ∷ []

abbrev icon : Text
icon = codes "icon.png"

abbrev manager : StatusIconManager
manager = look_up_all encode contents (new encode (some icon) [] [] (codes "lobby") (disk 0)) calls

manager_path : resolve_icon_path manager none ≡ some icon
unfolding resolve_icon_path look_up_all get_icon_for_host new lookup load_if_some preload_all
    load_each unless_blank load_or_reload reload_unless cached_uri cached store load_from_file
    load_content from_bytes text_eq insert same_time
manager_path = refl

calls-AllSteady : AllSteady encode contents calls
unfolding AllSteady
calls-AllSteady = (disk-Steady 1, (disk-Steady 1, refl))

get_icon_for_host-Shows_example :
    Shows encode (get_icon_for_host encode manager none (disk 2)).1 (contents icon 2)
get_icon_for_host-Shows_example =
    get_icon_for_host-Shows encode contents (some icon) [] [] (codes "lobby") (disk 0) calls none
      (disk 2) icon 2 (disk-Steady 0) calls-AllSteady manager_path refl refl
