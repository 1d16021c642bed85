-- ===== src/Naming/Tests.antt =====
-- The names of one gameserver (util/naming/naming.go).
use game_janitor.Base.{◌≡◌, false, none, some}
use game_janitor.Naming.{
  is_reserved, gameserver_id_from_instance_name, instance_name, install_instance_name,
  update_instance_name,
}
use game_janitor.Naming.Laws.{gameserver_id_from_instance_name-instance_name}

gameserver_id_from_instance_name-instance_name_example :
    (is_reserved "a1" ≡ false → gameserver_id_from_instance_name (instance_name "a1") ≡ some "a1")
    × (gameserver_id_from_instance_name (install_instance_name "a1") ≡ none)
    × (gameserver_id_from_instance_name (update_instance_name "a1") ≡ none)
gameserver_id_from_instance_name-instance_name_example =
    gameserver_id_from_instance_name-instance_name "a1"
