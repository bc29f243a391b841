-- ===== src/Teams/FromManifest.antt =====
-- src/core/teams/from-manifest.ts: the projection of a manifest's teams. A field of the manifest that
-- is `null` or `undefined` is `none`; the fields that the projection drops are left out.
use cavi_api_client.Base.{List, [], map, Option, none, some, get_or_else, Result}
use cavi_api_client.Base.Text.{Text}
use cavi_api_client.Teams.{
  TeamIdentity, TeamMember, Team, TeamDirectory, DirectoryError, create_team_directory,
}

pub record ManifestIdentity : Type 0 where
  pub name : Option Text
  pub display_name : Option Text
  pub slug : Option Text
  pub code : Option Text
  pub aliases : Option (List Text)

pub record ManifestMember : Type 0 where
  pub id : Text
  pub identity : Option ManifestIdentity
  pub capabilities : Option (List Text)

-- A record of metadata is truthy, even an empty one.
pub record ManifestTeam (M : Type 0) : Type 0 where
  pub id : Text
  pub identity : Option ManifestIdentity
  pub members : Option (List ManifestMember)
  pub capabilities : Option (List Text)
  pub metadata : Option M

-- `identity?.field`
identity_field {ℓ} :
    {A : Type ℓ} → (ManifestIdentity → Option A) → Option ManifestIdentity → Option A
identity_field field none = none
identity_field field (some identity) = field identity

unfoldable pub identity_from : Text → Option ManifestIdentity → TeamIdentity
unfolding identity_field
identity_from id identity =
    let name = get_or_else (identity_field (λ i. i.name) identity) id in
    let slug = get_or_else (identity_field (λ i. i.slug) identity) id in
    record {
      name = name;
      display_name = get_or_else (identity_field (λ i. i.display_name) identity) name;
      slug = slug;
      code = get_or_else (identity_field (λ i. i.code) identity) slug;
      aliases = get_or_else (identity_field (λ i. i.aliases) identity) [];
    }

unfoldable pub member_from : ManifestMember → TeamMember
unfolding identity_from
member_from member = record {
  id = member.id;
  identity = identity_from member.id member.identity;
  capabilities = get_or_else member.capabilities [];
}

module _ {M : Type 0} where
  unfoldable pub manifest_team_to_team : ManifestTeam M → Team M
  unfolding identity_from member_from
  manifest_team_to_team team = record {
    id = team.id;
    identity = identity_from team.id team.identity;
    members = map member_from (get_or_else team.members []);
    capabilities = get_or_else team.capabilities [];
    metadata = team.metadata;
  }

  -- The teams of the manifest, which are all that is read of it.
  unfoldable pub team_directory_from_manifest :
      List (ManifestTeam M) → Result DirectoryError (TeamDirectory M)
  unfolding manifest_team_to_team create_team_directory
  team_directory_from_manifest teams = create_team_directory (map manifest_team_to_team teams)
