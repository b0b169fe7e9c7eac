-- ===== src/Names/Tests.antt =====
-- The volume of an engine.
use longhorn_instance_manage.Base.{◌≡◌, refl, none, codes}
use longhorn_instance_manage.Strings.{split}
use longhorn_instance_manage.Names.{process_name_to_volume_name}

-- Fewer than two dashes: a panic.
no_dash : process_name_to_volume_name (codes "vol") ≡ none
unfolding process_name_to_volume_name split
no_dash = refl
