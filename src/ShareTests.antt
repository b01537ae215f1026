-- ===== src/ShareTests.antt =====
-- The allow-list of nfs-klldap-ui/src/fs.rs on two shares, one inside the other.
use nfs_klldap_host.Prelude.{◌≡◌, some, List, [], ◌∷◌, refl, Text}
use nfs_klldap_host.SharePaths.{
  Share, components, normalize_path, host_path_to_container_path, has_parent_traversal, best_of,
  relative_to,
}
use nfs_klldap_host.SharePaths.Containment.{IsInside, host_path_to_container_path-IsInside}

-- `/d` is served at `/a`, and `/d/e` at `/b`.
abbrev shares : List Share
shares =
    record { host_path = 47 ∷ 100 ∷ []; container_path = 47 ∷ 97 ∷ [] }
    ∷ record { host_path = 47 ∷ 100 ∷ 47 ∷ 101 ∷ 47 ∷ []; container_path = 47 ∷ 98 ∷ [] }
    ∷ []

-- `/d/e/f`, which the inner share maps to `/b/f`.
abbrev path : Text
path = 47 ∷ 100 ∷ 47 ∷ 101 ∷ 47 ∷ 102 ∷ []

abbrev mapped : List Text
mapped = (47 ∷ []) ∷ (98 ∷ []) ∷ (102 ∷ []) ∷ []

path_maps : host_path_to_container_path shares path ≡ some mapped
unfolding host_path_to_container_path has_parent_traversal best_of relative_to normalize_path
path_maps = refl

host_path_to_container_path-IsInside_example :
    IsInside shares (components (normalize_path path)) mapped
host_path_to_container_path-IsInside_example =
    host_path_to_container_path-IsInside shares path mapped path_maps
