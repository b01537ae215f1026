-- ===== src/Identity/Logins/Laws.antt =====
-- The logins of a user, as nfs-klldap-config/src/bin/idhelper/materialize.rs writes them.
use nfs_klldap_host.Identity.Rows.Passwd.{IsField}
use nfs_klldap_host.Prelude.{◌≡◌, false, Text, is_empty, All}

abbrev IsLogin : Text → Type 0
IsLogin s = All IsField s × (is_empty s ≡ false)
