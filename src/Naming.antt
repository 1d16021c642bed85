-- ===== src/Naming.antt =====
-- util/naming/naming.go: the names of instances and volumes, and the gameserver that an instance's
-- name belongs to. Positions count bytes.
pub mod Laws
mod Tests
use game_janitor.Base.{
  ℕ, String, Bool, true, false, ◌||◌, Option, none, some, if◌then◌else◌, starts_with, ◌<>◌, ◌≡◌,
}
use Prim.Native.String.{slice, len}

abbrev pub instance_prefix : String
instance_prefix = "gamejanitor-"

-- InstanceName and VolumeName
pub instance_name : String → String
instance_name id = instance_prefix <> id

unfoldable pub volume_name : String → String
volume_name id = instance_prefix <> id

-- InstallInstanceName and UpdateInstanceName
pub install_instance_name : String → String
install_instance_name id = instance_prefix <> ("install-" <> id)

pub update_instance_name : String → String
update_instance_name id = instance_prefix <> ("update-" <> id)

-- strings.TrimPrefix of a prefix that is there
abbrev trim_prefix : String → String → String
trim_prefix name prefix = slice name (len prefix) (len name)

abbrev pub is_reserved : String → Bool
is_reserved id =
    starts_with id "install-"
    || starts_with id "update-"
    || starts_with id "reinstall-"
    || starts_with id "backup-"
    || starts_with id "fileops-"

-- GameserverIDFromInstanceName
unfoldable pub gameserver_id_from_instance_name : String → Option String
gameserver_id_from_instance_name name =
    if starts_with name instance_prefix
    then (let id = trim_prefix name instance_prefix in if is_reserved id then none else some id)
    else none
