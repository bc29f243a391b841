-- ===== src/Teams/Tests.antt =====
-- Runs of the team directory, and instances of its theorems.
use cavi_api_client.Base.{String, ◌≡◌, refl, ◌↔◌, true, List, [], ◌∷◌, none, some, ok, err, All}
use cavi_api_client.Base.Text.{Text, codes, trim, trim_start, is_blank, is_space, to_lower}
use cavi_api_client.Teams.{
  Team, TeamDirectory, TeamIdentity, TeamMember, ambiguous_key, unknown_team, hyphenate,
  dash_spaces, normalize_team_lookup_value, same_text, has, key_of, uniq_from, uniq_normalized,
  identity_tokens, is_missing, get_member_keys, find_member, owner_of, claim, claim_from,
  claim_keys, claim_teams, get_team_lookup_keys, matches_team_identifier, find_team, find_by_id,
  resolve_team_from_collection, create_team_directory, resolve_team, require_team, list_members,
  resolve_member,
}
use cavi_api_client.Teams.FromManifest.{ManifestTeam, identity_from, manifest_team_to_team}
use cavi_api_client.Teams.Owners.{IsNamed, resolve_team-id}
use cavi_api_client.Teams.Clashes.{Clash, create_team_directory-ok_iff}
use cavi_api_client.Teams.Normalizing.{resolve_team-lookup_key}

abbrev identity : String → String → List Text → TeamIdentity
identity slug code aliases = record {
  name = codes slug;
  display_name = codes slug;
  slug = codes slug;
  code = codes code;
  aliases = aliases;
}

abbrev member : TeamMember
member = record { id = codes "m1"; identity = identity "Lead" "L" []; capabilities = [] }

abbrev sales : Team (Unit {0})
sales = record {
  id = codes "sales";
  identity = identity "Sales_Team" "S" (codes " field   sales " ∷ []);
  members = member ∷ [];
  capabilities = [];
  metadata = none;
}

abbrev support : Team (Unit {0})
support = record {
  id = codes "support";
  identity = identity "help" "H" [];
  members = [];
  capabilities = [];
  metadata = none;
}

abbrev rival : Team (Unit {0})
rival = record {
  id = codes "rival";
  identity = identity "sales team" "R" [];
  members = [];
  capabilities = [];
  metadata = none;
}

abbrev two_teams : List (Team (Unit {0}))
two_teams = support ∷ sales ∷ []

abbrev directory : TeamDirectory (Unit {0})
directory = record { list = two_teams }

keys-test :
    get_team_lookup_keys sales
    ≡ codes "sales" ∷ codes "sales-team" ∷ codes "s" ∷ codes "field-sales" ∷ []
unfolding get_team_lookup_keys uniq_normalized uniq_from key_of is_blank trim trim_start is_space
    to_lower hyphenate dash_spaces normalize_team_lookup_value has same_text identity_tokens
keys-test = refl

create-test : create_team_directory two_teams ≡ ok directory
unfolding create_team_directory claim_teams claim_keys claim claim_from owner_of
    get_team_lookup_keys uniq_normalized uniq_from key_of is_blank trim trim_start is_space to_lower
    hyphenate dash_spaces normalize_team_lookup_value has same_text identity_tokens
create-test = refl

conflict-test :
    create_team_directory (sales ∷ rival ∷ [])
    ≡ err (ambiguous_key (codes "sales-team") (codes "sales") (codes "rival"))
unfolding create_team_directory claim_teams claim_keys claim claim_from owner_of
    get_team_lookup_keys uniq_normalized uniq_from key_of is_blank trim trim_start is_space to_lower
    hyphenate dash_spaces normalize_team_lookup_value has same_text identity_tokens
conflict-test = refl

member-test : resolve_member directory (codes "sales") (some (codes "lead ")) ≡ some member
unfolding resolve_member find_by_id find_member get_member_keys uniq_normalized uniq_from key_of
    is_blank trim trim_start is_space to_lower hyphenate dash_spaces normalize_team_lookup_value has
    same_text identity_tokens
member-test = refl

members-test : list_members directory (codes "sales") ≡ member ∷ []
unfolding list_members find_by_id same_text
members-test = refl

unknown-test : require_team directory (some (codes "none")) ≡ err (unknown_team (codes "none"))
unfolding require_team resolve_team resolve_team_from_collection is_missing find_team
    matches_team_identifier get_team_lookup_keys uniq_normalized uniq_from key_of is_blank trim
    trim_start is_space to_lower hyphenate dash_spaces normalize_team_lookup_value has same_text
    identity_tokens
unknown-test = refl

abbrev bare : ManifestTeam (Unit {0})
bare = record {
  id = codes "ops";
  identity = some (record {
    name = some (codes "Ops");
    display_name = none;
    slug = none;
    code = none;
    aliases = none;
  });
  members = none;
  capabilities = none;
  metadata = none;
}

projection-test : (manifest_team_to_team bare).identity.display_name ≡ codes "Ops"
unfolding manifest_team_to_team identity_from
projection-test = refl

named : All IsNamed two_teams
named = (refl, (refl, tt))

matches-test : matches_team_identifier sales (some (codes "FIELD sales")) ≡ true
unfolding matches_team_identifier get_team_lookup_keys uniq_normalized uniq_from key_of is_blank
    trim trim_start is_space to_lower hyphenate dash_spaces normalize_team_lookup_value has
    same_text identity_tokens
matches-test = refl

has-test : has (codes "s") (get_team_lookup_keys sales) ≡ true
unfolding get_team_lookup_keys uniq_normalized uniq_from key_of is_blank trim trim_start is_space
    to_lower hyphenate dash_spaces normalize_team_lookup_value has same_text identity_tokens
has-test = refl

resolve_team-id_example :
    (r : Team (Unit {0})) × (resolve_team directory (some (codes "FIELD sales")) ≡ some r)
    × (r.id ≡ codes "sales")
resolve_team-id_example =
    resolve_team-id two_teams directory create-test named 1 sales refl (codes "FIELD sales")
      matches-test

resolve_team-lookup_key_example :
    (r : Team (Unit {0})) × (resolve_team directory (some (codes "s")) ≡ some r)
    × (r.id ≡ codes "sales")
resolve_team-lookup_key_example =
    resolve_team-lookup_key two_teams directory create-test named 1 sales refl (codes "s") has-test

create_team_directory-ok_iff_example :
    (create_team_directory two_teams ≡ ok directory) ↔ (¬ Clash two_teams)
create_team_directory-ok_iff_example = create_team_directory-ok_iff two_teams named
