-- ===== src/Caped.antt =====
-- src/caped.c, and `cape_init` and `cape_load` of src/cape.c: how the daemon starts, without its log, its
-- signals and the socket of cape_admin_init. The command line is
-- the list of the options that getopt returns, and the first argument that is none.
pub mod Start
use pacemaker_cloud.Common.{
  ℕ, zero, suc, ◌+◌, ◌-◌, ◌%◌, Bool, true, false, Option, none, some, List, [], ◌∷◌, String, ℤ, pos,
  negsuc, is_zero, u32_mod, Result, ok, ◌>>=◌, ◌==◌, if◌then◌else◌,
}
use pacemaker_cloud.Common.Print.{join}
use pacemaker_cloud.Common.Xml.{XmlNode}
use pacemaker_cloud.Recover.Outside.{Platform}
use pacemaker_cloud.Cape.{Cape}
use pacemaker_cloud.Cape.Config.{parse_and_load}
use pacemaker_cloud.Cape.Instance.{Cloud}

-- An option that getopt returns; `opt_unknown` is its '?'.
pub data CommandOption : Type 0 where
  opt_d opt_o opt_v opt_g opt_h opt_unknown : CommandOption

-- The variables of `main` that the options set. LOG_INFO is 6.
pub record Settings : Type 0 where
  pub daemonize : Bool
  pub do_stdout : Bool
  pub loglevel : ℕ
  pub debug : ℕ

abbrev pub default_settings : Settings
default_settings = record { daemonize = false; do_stdout = false; loglevel = 6; debug = 0 }

-- The loop over the options; nothing, where the help text is shown.
unfoldable pub read_options : List CommandOption → Settings → Option Settings
read_options [] s = some s
read_options (opt_d ∷ options) s = read_options options (record s { daemonize = true })
read_options (opt_o ∷ options) s = read_options options (record s { do_stdout = true })
read_options (opt_v ∷ options) s = read_options options (record s { loglevel = s.loglevel + 1 })
read_options (opt_g ∷ options) s = read_options options (record s { debug = s.debug + 1 })
read_options (opt_h ∷ options) s = none
read_options (opt_unknown ∷ options) s = none

-- The files: the `errno` of a file that cannot be read, what libxml reads from one that can be, and
-- what the stylesheet makes of it.
pub record Files : Type 0 where
  pub access_errno : String → Option ℕ
  pub parse_file : String → Option XmlNode
  pub stylesheet : Option XmlNode → XmlNode

-- `main` ends with an exit code, or runs the main loop. It shows the help text or not.
pub data Started (A : Type 0) : Type 0 where
  exits : ℕ → Bool → Started A
  runs : Settings → A → Started A

-- -n of an `int` that is not negative.
abbrev pub minus : ℕ → ℤ
minus zero = pos 0
minus (suc n) = negsuc n

unfoldable pub config_path : String → String
config_path name = join ("/var/run/" ∷ name ∷ ".xml" ∷ [])

abbrev pub returned : {A : Type 0} → Result A → Result (ℤ × A)
returned m = m >>= λ s. ok (pos 0, s)

abbrev pub go_on : {A : Type 0} → Settings → ℤ × A → Started A
go_on settings (result, a) = if is_zero result then runs settings a else exits 1 false

module _ (p : Platform) (files : Files) (now : ℕ) (cloud : Cloud) where
  -- The maps are empty.
  abbrev pub cape_init : Cape p → Cape p
  cape_init w = record w { assembly_map = []; op_history_map = [] }

  -- What it returns, and the state, with `errno`.
  unfoldable pub cape_load : String → Cape p × ℕ → Result (ℤ × (Cape p × ℕ))
  cape_load name s = elim (files.access_errno (config_path name)) [
    | some errno ↦ ok (minus errno, (s.0, errno))
    | none ↦
        let config = files.parse_file (config_path name) in
        returned (parse_and_load p (files.stylesheet config) now cloud config s)
  ]

  -- After the options are read.
  unfoldable pub start_app : Settings → String → Cape p × ℕ → Result (Started (Cape p × ℕ))
  unfolding cape_load
  start_app settings cloud_app s = do
    loaded ← cape_load cloud_app (cape_init s.0, s.1)
    ok (go_on settings loaded)

  unfoldable pub main :
      List CommandOption → Option String → Cape p × ℕ → Result (Started (Cape p × ℕ))
  unfolding start_app read_options
  main options cloud_app s = elim (read_options options default_settings) [
    | none ↦ ok (exits 0 true)
    | some settings ↦ elim cloud_app [
      | none ↦ ok (exits 1 true)
      | some name ↦ start_app settings name s
    ]
  ]
