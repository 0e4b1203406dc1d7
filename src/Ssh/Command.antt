-- ===== src/Ssh/Command.antt =====
-- The text of the command for an operation, in `transport_resource_action` of src/trans_ssh.c.
use pacemaker_cloud.Common.{
  ℕ, Option, none, some, List, [], ◌∷◌, String, Result, ok, fault, buffer_overflow, ◌>>=◌,
  strcmp_eq, ltb, length, if◌then◌else◌,
}
use pacemaker_cloud.Common.Text.{codes}
use pacemaker_cloud.Common.Print.{join}
use pacemaker_cloud.Cape.{PeOperation}

-- OCF_ROOT.
abbrev pub ocf_root : String
ocf_root = "/usr/lib/ocf"

-- RESOURCE_ENVIRONMENT_MAX.
abbrev pub resource_environment_max : ℕ
resource_environment_max = 2048

-- `set_ocf_env_with_prefix` for each parameter, in the order of the map.
unfoldable pub set_ocf_envs : List (String × String) → String
unfolding join
set_ocf_envs [] = ""
set_ocf_envs ((key, value) ∷ params) =
    join ("OCF_RESKEY_" ∷ key ∷ "=" ∷ value ∷ set_ocf_envs params ∷ [])

abbrev pub provider_env : Option String → String
provider_env none = ""
provider_env (some provider) = join ("OCF_RESOURCE_PROVIDER=" ∷ provider ∷ [])

-- What is written to `envs`.
unfoldable pub env_text : PeOperation → String
unfolding set_ocf_envs
env_text o = join (
    "OCF_RA_VERSION_MAJOR=1 OCF_RA_VERSION_MINOR=0 OCF_ROOT="
    ∷ join (ocf_root ∷ "OCF_RESOURCE_INSTANCE=" ∷ [])
    ∷ o.rname
    ∷ "OCF_RESOURCE_TYPE="
    ∷ o.rtype
    ∷ provider_env o.rprovider
    ∷ set_ocf_envs o.params
    ∷ [])

-- The buffer takes one byte more than the text.
unfoldable pub envs : PeOperation → Result String
unfolding env_text
envs o =
    if ltb (length (codes (env_text o))) resource_environment_max
    then ok (env_text o)
    else fault buffer_overflow

-- "%s" of a null pointer.
abbrev provider_text : Option String → String
provider_text none = "(null)"
provider_text (some provider) = provider

unfoldable pub lsb_command : PeOperation → String
lsb_command o =
    if strcmp_eq o.method "monitor"
    then join ("systemctl status " ∷ o.rtype ∷ ".service" ∷ [])
    else join ("systemctl " ∷ o.method ∷ " " ∷ o.rtype ∷ ".service" ∷ [])

unfoldable pub ocf_command : PeOperation → Result String
unfolding envs
ocf_command o = do
  e ← envs o
  ok (
      join (
        e
        ∷ " "
        ∷ ocf_root
        ∷ "/resource.d/"
        ∷ provider_text o.rprovider
        ∷ "/"
        ∷ o.rtype
        ∷ " "
        ∷ o.method
        ∷ " )"
        ∷ []))

unfoldable pub command_of : PeOperation → Result String
unfolding lsb_command ocf_command
command_of o = if strcmp_eq o.rclass "lsb" then ok (lsb_command o) else ocf_command o
