-- ===== src/MountTests.antt =====
-- The mount table of nfs-klldap-config/src/fs_probe.rs at a root and a mount on `/a`.
use nfs_klldap_host.Mounts.Flags.{ShareFlags}
use nfs_klldap_host.Mounts.Table.{FsCapabilities, MountEntry, resolve_mount_for_path}
use nfs_klldap_host.Mounts.Table.Longest.{Best, resolve_mount_for_path-Best}
use nfs_klldap_host.SharePaths.{normalize_path}
use nfs_klldap_host.Prelude.{◌≡◌, true, none, some, List, [], ◌∷◌, refl, Text}

abbrev ext4 : Text
ext4 = 101 ∷ 120 ∷ 116 ∷ 52 ∷ []

abbrev mounted_at : Text → MountEntry
mounted_at point = record {
  mount_point = point;
  fstype = ext4;
  mount_source = [];
  super_options = [];
}

-- `/`, `/a` and `/a` again.
abbrev table : List MountEntry
table =
    mounted_at (47 ∷ [])
    ∷ mounted_at (47 ∷ 97 ∷ [])
    ∷ record (mounted_at (47 ∷ 97 ∷ [])) { fstype = [] }
    ∷ []

-- `/a/b`
abbrev path : Text
path = 47 ∷ 97 ∷ 47 ∷ 98 ∷ []

resolve_mount_for_path-Best_example :
    Best (normalize_path path) table (resolve_mount_for_path table path)
resolve_mount_for_path-Best_example = resolve_mount_for_path-Best table path

visible_mount :
    resolve_mount_for_path table path ≡ some (record (mounted_at (47 ∷ 97 ∷ [])) { fstype = [] })
unfolding resolve_mount_for_path nfs_klldap_host.Mounts.Table.max_over
    nfs_klldap_host.Mounts.Table.path_under_mount normalize_path
visible_mount = refl

abbrev unset : ShareFlags
unset = record { enable_acl = none; manage_gids = none; read_access_policy = none }

abbrev plain : FsCapabilities
plain = record { fstype = ext4; mount_options = []; acl_capable = true }
