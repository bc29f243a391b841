-- ===== src/Teams/Owners.antt =====
-- The owners of the keys of a directory, and the team that an identifier resolves to.
use cavi_api_client.Base.{
  ℕ, zero, suc, ◌≡◌, refl, ap, inl, inr, true, false, List, [], ◌∷◌, Option, none, some, Result, ok,
  err, ◌>>=◌, get_elem?, All, arith, Bool-cases, sym,
}
use cavi_api_client.Base.Text.{Text, is_blank, is_empty}
use cavi_api_client.Teams.{
  Team, TeamDirectory, Entries, same_text, has, owner_of, claim, claim_keys, claim_teams,
  get_team_lookup_keys, matches_team_identifier, find_team, create_team_directory, resolve_team,
  resolve_team_from_collection, is_missing, normalize_team_lookup_value, claim_from,
}

pub same_text-eq : (s t : Text) → same_text s t ≡ true → s ≡ t
unfolding same_text
same_text-eq [] [] h = refl
same_text-eq [] (d ∷ t) h = ground arith
same_text-eq (c ∷ s) [] h = ground arith
same_text-eq (c ∷ s) (d ∷ t) h = ground (arith, same_text-eq s t)

pub same_text_refl : (s : Text) → same_text s s ≡ true
unfolding same_text
same_text_refl [] = refl
same_text_refl (c ∷ s) = ground (arith, same_text_refl s)

pub bind-ok {ℓ κ μ} :
    {E : Type ℓ} {A : Type κ} {B : Type μ} (m : Result E A) (f : A → Result E B) (b : B)
    → (m >>= f) ≡ ok b
    → (a : A) × (m ≡ ok a) × (f a ≡ ok b)
bind-ok (ok a) f b h = (a, refl, h)
bind-ok (err e) f b h = cc

-- A claim that succeeds adds its entry, where no other team owns the key.
pub claim_from-ok :
    (key id : Text) (found : Option Text) (owners owners' : Entries)
    → claim_from key id found owners ≡ ok owners'
    → (owners' ≡ (key, id) ∷ owners) × ((o : Text) → found ≡ some o → is_empty o ≡ false → o ≡ id)
unfolding claim_from
claim_from-ok key id none owners owners' h = (ground arith, λ o e p. ground arith)
claim_from-ok key id (some o) owners owners' h =
    (ground arith, λ o' e p. ground (arith, same_text-eq o id))

-- What a call with an entry before and after says: a key with an owner keeps it.
abbrev Kept : Entries → Entries → Type 0
Kept owners owners' =
    (key o : Text)
    → owner_of key owners ≡ some o
    → is_empty o ≡ false
    → owner_of key owners' ≡ some o

claim-Kept :
    (key id : Text) (owners owners' : Entries)
    → claim key id owners ≡ ok owners'
    → Kept owners owners'
unfolding claim owner_of
claim-Kept key id owners owners' h k o e p =
    let (added, unowned) = claim_from-ok key id (owner_of key owners) owners owners' h in
    rw (added) (elim (Bool-cases (same_text k key)) [
      | inl same ↦
          let mine = unowned o (rw (← same_text-eq k key same) e) p in
          rw (same) (ap some (sym mine))
      | inr other ↦ rw (other) e
    ])

claim_keys-Kept :
    (id : Text) (keys : List Text) (owners owners' : Entries)
    → claim_keys id keys owners ≡ ok owners'
    → Kept owners owners'
unfolding claim_keys
claim_keys-Kept id [] owners owners' h k o e p = ground arith
claim_keys-Kept id (key ∷ keys) owners owners' h k o e p =
    let (between, first, rest) = bind-ok (claim key id owners) (claim_keys id keys) owners' h in
    claim_keys-Kept id keys between owners' rest k o
      (claim-Kept key id owners between first k o e p) p

claim_keys-owner :
    (id : Text)
    → is_empty id ≡ false
    → (keys : List Text) (owners owners' : Entries) → claim_keys id keys owners ≡ ok owners'
    → (key : Text) → has key keys ≡ true
    → owner_of key owners' ≡ some id
unfolding claim_keys has claim owner_of
claim_keys-owner id p [] owners owners' h k m = ground arith
claim_keys-owner id p (key ∷ keys) owners owners' h k m =
    let (between, first, rest) = bind-ok (claim key id owners) (claim_keys id keys) owners' h in
    let (added, unowned) = claim_from-ok key id (owner_of key owners) owners between first in
    elim (Bool-cases (same_text k key)) [
      | inl same ↦ claim_keys-Kept id keys between owners' rest k id (rw (added, same) refl) p
      | inr other ↦ claim_keys-owner id p keys between owners' rest k (ground arith)
    ]

module _ {M : Type 0} where
  -- A team's keys belong to its id once all the teams are claimed.
  claim_teams-Kept :
      (teams : List (Team M)) (owners owners' : Entries)
      → claim_teams teams owners ≡ ok owners'
      → Kept owners owners'
  unfolding claim_teams
  claim_teams-Kept [] owners owners' h k o e p = ground arith
  claim_teams-Kept (team ∷ teams) owners owners' h k o e p =
      let keys = get_team_lookup_keys team in
      let (between, first, rest) =
        bind-ok (claim_keys team.id keys owners) (claim_teams teams) owners' h in
      claim_teams-Kept teams between owners' rest k o
        (claim_keys-Kept team.id keys owners between first k o e p) p

  -- A team that has an id.
  abbrev pub IsNamed : Team M → Type 0
  IsNamed team = is_empty team.id ≡ false

  pub claim_teams-owner :
      (teams : List (Team M)) (owners owners' : Entries)
      → claim_teams teams owners ≡ ok owners'
      → All IsNamed teams
      → (n : ℕ) (team : Team M) → get_elem? teams n ≡ some team
      → (key : Text) → has key (get_team_lookup_keys team) ≡ true
      → owner_of key owners' ≡ some team.id
  unfolding claim_teams
  claim_teams-owner [] owners owners' h named n team at k m = cc
  claim_teams-owner (t ∷ teams) owners owners' h named zero team at k m =
      let keys = get_team_lookup_keys t in
      let (between, first, rest) =
        bind-ok (claim_keys t.id keys owners) (claim_teams teams) owners' h in
      let same : t ≡ team = ground arith in
      let owned = claim_keys-owner t.id named.0 keys owners between first k (rw (same) m) in
      rw (← same) (claim_teams-Kept teams between owners' rest k t.id owned named.0)
  claim_teams-owner (t ∷ teams) owners owners' h named (suc n) team at k m =
      let keys = get_team_lookup_keys t in
      let (between, first, rest) =
        bind-ok (claim_keys t.id keys owners) (claim_teams teams) owners' h in
      claim_teams-owner teams between owners' rest named.1 n team at k m

  -- The first team that the identifier matches.
  record Found (identifier : Option Text) (teams : List (Team M)) : Type 0 where
    pub first : Team M
    pub place : ℕ
    pub is_found : find_team identifier teams ≡ some first
    pub stands : get_elem? teams place ≡ some first
    pub matches : matches_team_identifier first identifier ≡ true

  find_team-Found :
      (identifier : Option Text) (teams : List (Team M)) (n : ℕ) (team : Team M)
      → get_elem? teams n ≡ some team
      → matches_team_identifier team identifier ≡ true
      → Found identifier teams
  unfolding find_team
  find_team-Found i [] n team at h = cc
  find_team-Found i (t ∷ teams) zero team at h =
      let same : t ≡ team = ground arith in
      let here : matches_team_identifier t i ≡ true = rw (same) h in
      record { first = t; place = zero; is_found = rw (here) refl; stands = refl; matches = here }
  find_team-Found i (t ∷ teams) (suc n) team at h =
      let later = find_team-Found i teams n team at h in
      elim (Bool-cases (matches_team_identifier t i)) [
        | inl here ↦ record {
          first = t;
          place = zero;
          is_found = rw (here) refl;
          stands = refl;
          matches = here;
        }
        | inr other ↦ record {
          first = later.first;
          place = suc later.place;
          is_found = rw (other) later.is_found;
          stands = later.stands;
          matches = later.matches;
        }
      ]

  matches-has :
      (team : Team M) (identifier : Text)
      → matches_team_identifier team (some identifier) ≡ true
      → (is_blank identifier ≡ false)
        × (has (normalize_team_lookup_value identifier) (get_team_lookup_keys team) ≡ true)
  unfolding matches_team_identifier
  matches-has team identifier h = elim (Bool-cases (is_blank identifier)) [
    | inl blank ↦ ground arith
    | inr some_text ↦ (some_text, ground arith)
  ]

  -- In a directory that was made of teams with ids, an identifier that matches a team resolves, and
  -- to a team of that id, wherever the team stands among the others.
  pub resolve_team-id :
      (teams : List (Team M)) (directory : TeamDirectory M)
      → create_team_directory teams ≡ ok directory
      → All IsNamed teams
      → (n : ℕ) (team : Team M) → get_elem? teams n ≡ some team
      → (identifier : Text) → matches_team_identifier team (some identifier) ≡ true
      → (r : Team M) × (resolve_team directory (some identifier) ≡ some r) × (r.id ≡ team.id)
  unfolding create_team_directory resolve_team resolve_team_from_collection is_missing
  resolve_team-id teams directory h named n team at i match =
      let (owners, claimed, made) =
        bind-ok (claim_teams teams []) (λ _. ok (record { list = teams })) directory h in
      let key = normalize_team_lookup_value i in
      let (some_text, has_key) = matches-has team i match in
      let found = find_team-Found (some i) teams n team at match in
      let (_, has_key') = matches-has found.first i found.matches in
      let owned = claim_teams-owner teams [] owners claimed named n team at key has_key in
      let owned' =
        claim_teams-owner teams [] owners claimed named found.place found.first found.stands key
          has_key' in
      let listed : directory.list ≡ teams = ground arith in
      (found.first, rw (listed, some_text) found.is_found, ground arith)
