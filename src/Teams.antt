-- ===== src/Teams.antt =====
-- src/core/teams: the directory of the teams, which finds a team by any of its names (directory.ts,
-- types.ts), and its making from a manifest (from-manifest.ts). A `Map` is the list of its entries,
-- the latest first, and a team's metadata is of any type.
mod Normalizing
pub mod FromManifest
mod Owners
mod Clashes
mod Tests
use cavi_api_client.Base.{
  ℕ, Bool, true, false, ◌||◌, ◌==◌, if◌then◌else◌, List, [], ◌∷◌, map, Option, none, some,
  get_or_else, or_else, Result, ok, err, ◌>>=◌,
}
use cavi_api_client.Base.Text.{Text, trim, is_blank, is_empty, is_space, to_lower}

pub record TeamIdentity : Type 0 where
  pub name : Text
  pub display_name : Text
  pub slug : Text
  pub code : Text
  pub aliases : List Text

pub record TeamMember : Type 0 where
  pub id : Text
  pub identity : TeamIdentity
  pub capabilities : List Text

pub record Team (M : Type 0) : Type 0 where
  pub id : Text
  pub identity : TeamIdentity
  pub members : List TeamMember
  pub capabilities : List Text
  pub metadata : Option M

-- `.replace(/_/g, "-")`
unfoldable pub hyphenate : ℕ → ℕ
hyphenate c = if c == b'_' then b'-' else c

-- `.replace(/\s+/g, "-")`, where the flag says that the space before is replaced already.
unfoldable pub dash_spaces : (in_run : Bool) → Text → Text
dash_spaces in_run [] = []
dash_spaces in_run (c ∷ s) =
    let rest = dash_spaces (is_space c) s in
    if is_space c then if in_run then rest else b'-' ∷ rest else c ∷ rest

unfoldable pub normalize_team_lookup_value : Text → Text
unfolding dash_spaces
normalize_team_lookup_value value = dash_spaces false (map hyphenate (map to_lower (trim value)))

unfoldable pub same_text : Text → Text → Bool
same_text [] [] = true
same_text (c ∷ s) (d ∷ t) = elim (c == d) [ true ↦ same_text s t | false ↦ false ]
same_text _ _ = false

-- `keys.includes(key)`, and `has` of a `Set`.
unfoldable pub has : Text → List Text → Bool
has key [] = false
has key (k ∷ keys) = same_text key k || has key keys

-- A value that is `null` or `undefined` is `none`; a blank one has no key either.
unfoldable pub key_of : Option Text → Option Text
key_of none = none
key_of (some value) =
    if is_blank value then none else some (normalize_team_lookup_value (trim value))

-- The loop of `uniqNormalized`, from the keys it has seen.
unfoldable pub uniq_from : (seen : List Text) → List (Option Text) → List Text
uniq_from seen [] = []
uniq_from seen (value ∷ values) = elim (key_of value) [
  | none ↦ uniq_from seen values
  | some key ↦ elim (has key seen) [
    | true ↦ uniq_from seen values
    | false ↦ key ∷ uniq_from (key ∷ seen) values
  ]
]

unfoldable pub uniq_normalized : List (Option Text) → List Text
uniq_normalized values = uniq_from [] values

unfoldable pub identity_tokens : Text → TeamIdentity → List (Option Text)
identity_tokens id identity =
    some id ∷ some identity.slug ∷ some identity.code ∷ map some identity.aliases

-- `!identifier?.trim()`
unfoldable pub is_missing : Option Text → Bool
is_missing none = true
is_missing (some identifier) = is_blank identifier

unfoldable pub get_member_keys : TeamMember → List Text
get_member_keys member = uniq_normalized (identity_tokens member.id member.identity)

-- `uniqNormalized(…).includes(needle)` of a member, whose identifier was looked at before.
unfoldable pub find_member : (needle : Text) → List TeamMember → Option TeamMember
find_member needle [] = none
find_member needle (member ∷ members) =
    if has needle (get_member_keys member) then some member else find_member needle members

-- An error and what its message names.
pub data DirectoryError : Type 0 where
  ambiguous_key : (key owner team : Text) → DirectoryError
  unknown_team : (identifier : Text) → DirectoryError

pub data ApiClientErrorCode : Type 0 where
  conflict validation_failed : ApiClientErrorCode

abbrev pub code_of : DirectoryError → ApiClientErrorCode
code_of (ambiguous_key key owner team) = conflict
code_of (unknown_team identifier) = validation_failed

abbrev pub Entries : Type 0
Entries = List (Text × Text)

-- `owners.get(key)`
unfoldable pub owner_of : Text → Entries → Option Text
owner_of key [] = none
owner_of key (entry ∷ owners) = if same_text key entry.0 then some entry.1 else owner_of key owners

-- One round of the inner loop: an owner that is empty counts as none.
unfoldable pub claim_from : (key id : Text) → Option Text → Entries → Result DirectoryError Entries
claim_from key id none owners = ok ((key, id) ∷ owners)
claim_from key id (some owner) owners =
    if is_empty owner || same_text owner id
    then ok ((key, id) ∷ owners)
    else err (ambiguous_key key owner id)

unfoldable pub claim : (key id : Text) → Entries → Result DirectoryError Entries
unfolding claim_from
claim key id owners = claim_from key id (owner_of key owners) owners

unfoldable pub claim_keys : (id : Text) → List Text → Entries → Result DirectoryError Entries
claim_keys id [] owners = ok owners
claim_keys id (key ∷ keys) owners = claim key id owners >>= claim_keys id keys

module _ {M : Type 0} where
  unfoldable pub get_team_lookup_keys : Team M → List Text
  get_team_lookup_keys team = uniq_normalized (identity_tokens team.id team.identity)

  unfoldable pub matches_team_identifier : Team M → Option Text → Bool
  matches_team_identifier team none = false
  matches_team_identifier team (some identifier) =
      if is_blank identifier
      then false
      else has (normalize_team_lookup_value identifier) (get_team_lookup_keys team)

  unfoldable pub find_team : Option Text → List (Team M) → Option (Team M)
  find_team identifier [] = none
  find_team identifier (team ∷ teams) =
      if matches_team_identifier team identifier then some team else find_team identifier teams

  unfoldable pub resolve_team_from_collection : List (Team M) → Option Text → Option (Team M)
  resolve_team_from_collection teams identifier =
      if is_missing identifier then none else find_team identifier teams

  -- `list.find((entry) => entry.id === teamId)`
  unfoldable pub find_by_id : Text → List (Team M) → Option (Team M)
  find_by_id team_id [] = none
  find_by_id team_id (team ∷ teams) =
      if same_text team.id team_id then some team else find_by_id team_id teams

  unfoldable pub claim_teams : List (Team M) → Entries → Result DirectoryError Entries
  claim_teams [] owners = ok owners
  claim_teams (team ∷ teams) owners =
      claim_keys team.id (get_team_lookup_keys team) owners >>= claim_teams teams

pub record TeamDirectory (M : Type 0) : Type 0 where
  pub list : List (Team M)

module _ {M : Type 0} where
  unfoldable pub create_team_directory : List (Team M) → Result DirectoryError (TeamDirectory M)
  create_team_directory teams = claim_teams teams [] >>= λ _. ok (record { list = teams })

  unfoldable pub members_of : Option (Team M) → List TeamMember
  members_of none = []
  members_of (some team) = team.members

  unfoldable pub list_members : TeamDirectory M → Text → List TeamMember
  unfolding members_of
  list_members directory team_id = members_of (find_by_id team_id directory.list)

  unfoldable pub resolve_team : TeamDirectory M → Option Text → Option (Team M)
  resolve_team directory identifier = resolve_team_from_collection directory.list identifier

  unfoldable pub required : Option Text → Option (Team M) → Result DirectoryError (Team M)
  required identifier none = err (unknown_team (get_or_else identifier []))
  required identifier (some team) = ok team

  unfoldable pub require_team : TeamDirectory M → Option Text → Result DirectoryError (Team M)
  unfolding required
  require_team directory identifier = required identifier (resolve_team directory identifier)

  -- The identifier of a member of the team that was found.
  unfoldable pub member_of : Option (Team M) → Option Text → Option TeamMember
  member_of none identifier = none
  member_of (some team) none = none
  member_of (some team) (some identifier) =
      if is_blank identifier
      then none
      else find_member (normalize_team_lookup_value identifier) team.members

  unfoldable pub resolve_member : TeamDirectory M → Text → Option Text → Option TeamMember
  unfolding member_of
  resolve_member directory team_id identifier =
      member_of (find_by_id team_id directory.list) identifier
