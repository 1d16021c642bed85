-- ===== src/Naming/Laws.antt =====
-- Names and the gameservers that they belong to (util/naming/naming.go).
use text.Mathlib.TextPositions.{starts_with-append, slice-append_right, len-append}
use game_janitor.Base.{String, false, none, some, if◌then◌else◌, ◌<>◌, ◌≡◌, arith}
use game_janitor.Naming.{
  instance_prefix, instance_name, install_instance_name, update_instance_name, is_reserved,
  trim_prefix, gameserver_id_from_instance_name,
}

trim_prefix-append : (p s : String) → trim_prefix (p <> s) p ≡ s
trim_prefix-append p s = rw (len-append p s) (slice-append_right p s)

id_of-prefixed :
    (id : String)
    → gameserver_id_from_instance_name (instance_prefix <> id)
      ≡ (if is_reserved id then none else some id)
unfolding gameserver_id_from_instance_name
id_of-prefixed id =
    rw (starts_with-append instance_prefix id) (rw (trim_prefix-append instance_prefix id))

-- The name of a gameserver's instance leads back to the gameserver, where its id does not begin like
-- the name of another kind of instance; the names of install and update instances lead to none.
pub gameserver_id_from_instance_name-instance_name :
    (id : String)
    → (is_reserved id ≡ false → gameserver_id_from_instance_name (instance_name id) ≡ some id)
      × (gameserver_id_from_instance_name (install_instance_name id) ≡ none)
      × (gameserver_id_from_instance_name (update_instance_name id) ≡ none)
unfolding instance_name install_instance_name update_instance_name
gameserver_id_from_instance_name-instance_name id = (
  (λ e. rw (id_of-prefixed id) (rw e)),
  rw (id_of-prefixed ("install-" <> id)) (rw (starts_with-append "install-" id)),
  rw (id_of-prefixed ("update-" <> id)) (ground (arith, starts_with-append "update-" id)),
)
