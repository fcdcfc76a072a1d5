-- ===== src/Pulumi/Provider/Scope/Laws.antt =====
-- Identifiers round trip.
use nobus_csi.Common.{◌≡◌, ◌≢◌, refl, ap, false, String, arith, eq_iff}
use nobus_csi.Common.Text.{is_blank}
use nobus_csi.Common.Text.Laws.{has_slash, split_slash-append, split_slash-eq_self}
use nobus_csi.Cloud.Errors.{ok}
use nobus_csi.Pulumi.Provider.Scope.{
  Config, Place, scoped_id, parse_scoped_id, bare_resource_id, resolve_import, place, resolve_scope,
}

is_blank-filled : (zone : String) → is_blank zone ≡ false → zone ≢ ""
unfolding is_blank
is_blank-filled zone b e = let same : is_blank zone ≡ is_blank "" = ap is_blank e in cc

module _ (zone project id : String) (plain_zone : has_slash zone ≡ false)
    (plain_project : has_slash project ≡ false) (plain_id : has_slash id ≡ false) where
  -- Parsing a scoped identifier gives back its three parts, none of which holds a slash.
  pub parse_scoped_id-scoped_id :
      parse_scoped_id (scoped_id zone project id) ≡ place zone project id
  unfolding parse_scoped_id scoped_id
  parse_scoped_id-scoped_id =
      rw
        (
          split_slash-append zone _ plain_zone,
          split_slash-append project _ plain_project,
          split_slash-eq_self id plain_id,
        )
        refl

  bare_resource_id-scoped_id : bare_resource_id (scoped_id zone project id) ≡ id
  unfolding bare_resource_id
  bare_resource_id-scoped_id = ap (λ (p : Place). p.id) parse_scoped_id-scoped_id

  -- What a resource was created with is found again from its identifier alone, whatever the provider's
  -- configuration, where the project is given, the zone is not blank, and no part holds a slash.
  pub resolve_import-scoped_id :
      (cfg : Config)
      → project ≢ ""
      → is_blank zone ≡ false
      → resolve_import cfg (scoped_id zone project id) "" "" ≡ ok (place zone project id)
  unfolding resolve_import resolve_scope
  resolve_import-scoped_id cfg p b =
      rw parse_scoped_id-scoped_id
        (ground (arith, eq_iff project "", eq_iff zone "", is_blank-filled zone b))
