-- ===== src/Caped/Start.antt =====
-- What has to be there for the daemon to run, and what it has then.
use pacemaker_cloud.Common.{ℕ, ◌≡◌, true, false, Option, none, some, List, String, ◌⊎◌}
use pacemaker_cloud.Common.Map.{lookup}
use pacemaker_cloud.Common.Xml.{XmlNode, node_children}
use pacemaker_cloud.Recover.Outside.{Platform}
use pacemaker_cloud.Cape.{Cape}
use pacemaker_cloud.Cape.Loaded.{LoadedWell}
use pacemaker_cloud.Cape.Named.{names_node, is_some}
use pacemaker_cloud.Caped.{
  CommandOption, default_settings, read_options, Files, Started, exits, runs, config_path,
}

module _ (p : Platform) where
  -- What the daemon has after it has loaded a file: the nodes that are named in it, and no others, each
  -- as it is configured.
  abbrev pub LoadedFrom : Option XmlNode → Cape p × ℕ → Type 0
  LoadedFrom config s =
      LoadedWell p s
      × ((root : XmlNode) × (config ≡ some root)
          × ((node : String)
              → is_some (lookup node s.0.assembly_map) ≡ names_node node (node_children root)))

-- What the way in which `main` goes on says about its command line and the files.
abbrev pub Explains :
    (p : Platform) → Files → List CommandOption → Option String → Started (Cape p × ℕ) → Type 0
Explains p files options cloud_app (exits code help) =
    ((read_options options default_settings ≡ none) × (code ≡ 0) × (help ≡ true))
    ⊎ (((cloud_app ≡ none) × (code ≡ 1) × (help ≡ true))
        ⊎ ((name : String) × (cloud_app ≡ some name)
            × ((errno : ℕ) × (files.access_errno (config_path name) ≡ some errno))
            × (code ≡ 1)
            × (help ≡ false)))
Explains p files options cloud_app (runs settings s) =
    (read_options options default_settings ≡ some settings)
    × ((name : String) × (cloud_app ≡ some name)
        × (files.access_errno (config_path name) ≡ none)
        × LoadedFrom p (files.parse_file (config_path name)) s)
