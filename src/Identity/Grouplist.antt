-- ===== src/Identity/Grouplist.antt =====
-- The RESOLVE and GROUPS answers of the identity helper: `format_resolve_socket_line` and
-- `resolve_gids_and_materialize` of nfs-klldap-config/src/bin/idhelper/resolve.rs.
pub mod Laws
use nfs_klldap_host.Identity.Cache.{Resolved, IdCache, as_str, get_row, set_supplemental}
use nfs_klldap_host.Identity.Groups.{
  root_login, push_new, merge_group_gids, without, compute_gids_for_resolved, ensure_members_for,
  ensure_nss_materialized_for, root_supplemental_gids_from_cache,
}
use nfs_klldap_host.Identity.Lookup.{Act, write_cache, ensure_member, Lookups}
use nfs_klldap_host.Identity.Principal.{normalize_principal}
use nfs_klldap_host.Identity.Resolve.{
  Outcome, cache_source, is_unresolved_fail_closed, resolve_principal,
}
use nfs_klldap_host.Identity.Rows.{to_decimal}
use nfs_klldap_host.Prelude.{
  ℕ, zero, suc, ◌+◌, ◌/◌, ◌%◌, Bool, true, false, not, ◌&&◌, ◌||◌, Option, none, some, List, [],
  ◌∷◌, ◌++◌, if◌then◌else◌, ltb, Text, same_text, trim, map, to_ascii_lowercase,
}

-- `ERR unresolved principal` and a line feed.
abbrev pub unresolved_line : Text
unresolved_line =
    69 ∷ 82 ∷ 82 ∷ 32 ∷ 117 ∷ 110 ∷ 114 ∷ 101 ∷ 115 ∷ 111 ∷ 108 ∷ 118 ∷ 101 ∷ 100 ∷ 32 ∷ 112 ∷ 114
    ∷ 105 ∷ 110 ∷ 99 ∷ 105 ∷ 112 ∷ 97 ∷ 108 ∷ 10 ∷ []

abbrev bar : ℕ
bar = 124

unfoldable pub format_resolve_socket_line : Resolved → Text
format_resolve_socket_line r =
    if is_unresolved_fail_closed r
    then unresolved_line
    else 79 ∷ 75 ∷ 32 ∷ r.principal
      ++ bar ∷ to_decimal r.uid
      ++ bar ∷ to_decimal r.gid
      ++ bar ∷ as_str r.kind
      ++ bar ∷ r.source
      ++ 10 ∷ []

abbrev pub same_gids : List ℕ → List ℕ → Bool
same_gids xs ys = same_text xs ys

-- The groups of an answer, the cache and the calls.
pub record Grouped : Type 0 where
  pub gids : List ℕ
  pub cache : IdCache
  pub acts : List Act

-- The row of the principal takes what is new, and gives what it knew.
unfoldable pub persist_groups : Text → List ℕ → IdCache → Option Resolved → Grouped
persist_groups key gids c none = record { gids = gids; cache = c; acts = [] }
persist_groups key gids c (some e) =
    let supps = push_new (without e.gid gids) e.supplemental_gids in
    let stored = set_supplemental key (λ r. supps) c in
    if same_gids e.supplemental_gids supps
    then record { gids = push_new gids supps; cache = c; acts = [] }
    else record { gids = push_new gids supps; cache = stored; acts = write_cache stored ∷ [] }

unfoldable pub grouped : Resolved → Bool → List Act → Grouped → Grouped
grouped r force acts g =
    let full =
      if force || not (same_text r.source cache_source)
      then ensure_nss_materialized_for r g.gids g.cache
      else [] in
    record g { acts = acts ++ g.acts ++ full ++ ensure_members_for r g.gids }

unfoldable pub groups_of_outcome : Lookups → Text → Bool → Outcome → Grouped
groups_of_outcome x p force o =
    let (gids, fetched) = compute_gids_for_resolved x.ldap o.answer p in
    let key = normalize_principal o.answer.principal in
    if is_unresolved_fail_closed o.answer
    then record { gids = []; cache = o.cache; acts = o.acts }
    else grouped o.answer force (o.acts ++ fetched)
        (persist_groups key gids o.cache (get_row key o.cache))

-- The synthetic root, by name or by number.
abbrev pub asks_root : Text → Bool
asks_root p = same_text (to_ascii_lowercase p) root_login || same_text p (48 ∷ [])

unfoldable pub resolve_gids_and_materialize :
    Lookups → Text → Text → List Text → IdCache → Bool → Grouped
resolve_gids_and_materialize x principal realm server_variants c force =
    let supps = root_supplemental_gids_from_cache c in
    if asks_root (trim principal)
    then record {
      gids = merge_group_gids 0 supps;
      cache = c;
      acts = (if force then map (λ g. ensure_member g root_login) supps else []);
    }
    else groups_of_outcome x principal force (resolve_principal x principal realm server_variants c)
