-- ===== src/Teams/Clashes.antt =====
-- When a directory is refused: two of its teams share a key.
use cavi_api_client.Base.{
  ℕ, zero, suc, ◌≡◌, refl, ◌⊎◌, inl, inr, ◌↔◌, true, false, List, [], ◌∷◌, Option, none, some, ok,
  err, get_elem?, All, arith, Bool-cases, Result-cases,
}
use cavi_api_client.Base.Text.{Text}
use cavi_api_client.Teams.{
  Team, DirectoryError, Entries, same_text, has, owner_of, claim, claim_keys, claim_teams,
  get_team_lookup_keys, create_team_directory, claim_from,
}
use cavi_api_client.Teams.Owners.{
  IsNamed, same_text-eq, same_text_refl, bind-ok, claim_from-ok, claim_teams-owner,
}

module _ {M : Type 0} where
  -- A team of a list that has a key, and its id.
  pub record Holder (teams : List (Team M)) (key id : Text) : Type 0 where
    pub place : ℕ
    pub team : Team M
    pub stands : get_elem? teams place ≡ some team
    pub holds : has key (get_team_lookup_keys team) ≡ true
    pub named : team.id ≡ id

  -- Two teams of a list that have a key in common, and other ids.
  pub record Clash (teams : List (Team M)) : Type 0 where
    pub key : Text
    pub first_id : Text
    pub second_id : Text
    pub first : Holder teams key first_id
    pub second : Holder teams key second_id
    pub differ : same_text first_id second_id ≡ false

  -- Every owner is the id of a team that has the key.
  abbrev Backed : List (Team M) → Entries → Type 0
  Backed teams owners = (key id : Text) → owner_of key owners ≡ some id → Holder teams key id

  Backed-claim :
      (teams : List (Team M)) (key id : Text) (owners : Entries)
      → Holder teams key id
      → Backed teams owners
      → Backed teams ((key, id) ∷ owners)
  unfolding owner_of
  Backed-claim teams key id owners holder b k o e = elim (Bool-cases (same_text k key)) [
    | inl same ↦ let mine : id ≡ o = ground arith in rw (same_text-eq k key same, ← mine) holder
    | inr other ↦ b k o (ground arith)
  ]

  -- What a claim does, by the owner of its key.
  claim_from-Clash :
      (teams : List (Team M)) (key id : Text) (found : Option Text) (owners : Entries)
      (e : DirectoryError)
      → ((o : Text) → found ≡ some o → Holder teams key o)
      → Holder teams key id
      → claim_from key id found owners ≡ err e
      → Clash teams
  unfolding claim_from
  claim_from-Clash teams key id none owners e b holder h = ground arith
  claim_from-Clash teams key id (some o) owners e b holder h = record {
    key = key;
    first_id = o;
    second_id = id;
    first = b o refl;
    second = holder;
    differ = ground arith;
  }

  -- The claims of one team's keys.
  claim_keys-Clash :
      (teams : List (Team M)) (id : Text) (keys : List Text) (owners : Entries)
      → ((key : Text) → has key keys ≡ true → Holder teams key id)
      → Backed teams owners
      → ((owners' : Entries) × (claim_keys id keys owners ≡ ok owners') × Backed teams owners')
        ⊎ Clash teams
  unfolding claim_keys has claim
  claim_keys-Clash teams id [] owners holds b = inl (owners, refl, b)
  claim_keys-Clash teams id (key ∷ keys) owners holds b =
      let holder = holds key (rw (same_text_refl key) refl) in
      elim (Result-cases (claim key id owners)) [
        | inl (between, e) ↦
            let (added, _) = claim_from-ok key id (owner_of key owners) owners between e in
            let b' : Backed teams between =
              rw (added) (Backed-claim teams key id owners holder b) in
            elim (claim_keys-Clash teams id keys between (λ k m. holds k (ground arith)) b') [
              | inl (owners', e', b'') ↦ inl (owners', rw (e) e', b'')
              | inr clash ↦ inr clash
            ]
        | inr (e, refused) ↦
            inr
              (claim_from-Clash teams key id (owner_of key owners) owners e (b key) holder refused)
      ]

  -- The claims of teams that are all in a list.
  claim_teams-Clash :
      (all : List (Team M)) (teams : List (Team M)) (owners : Entries)
      → ((n : ℕ) (team : Team M)
          → get_elem? teams n ≡ some team
          → (m : ℕ) × (get_elem? all m ≡ some team))
      → Backed all owners
      → ((owners' : Entries) × (claim_teams teams owners ≡ ok owners')) ⊎ Clash all
  unfolding claim_teams
  claim_teams-Clash all [] owners in_all b = inl (owners, refl)
  claim_teams-Clash all (team ∷ teams) owners in_all b =
      let (place, stands) = in_all zero team refl in
      let holds : (key : Text)
          → has key (get_team_lookup_keys team) ≡ true
          → Holder all key team.id =
        λ k m. record { place = place; team = team; stands = stands; holds = m; named = refl } in
      elim (claim_keys-Clash all team.id (get_team_lookup_keys team) owners holds b) [
        | inl (between, e, b') ↦
            elim (claim_teams-Clash all teams between (λ n. in_all (suc n)) b') [
              | inl (owners', e') ↦ inl (owners', rw (e) e')
              | inr clash ↦ inr clash
            ]
        | inr clash ↦ inr clash
      ]

  Holder-owner :
      (teams : List (Team M))
      → All IsNamed teams
      → (owners : Entries) → claim_teams teams [] ≡ ok owners
      → (key id : Text) → Holder teams key id
      → owner_of key owners ≡ some id
  Holder-owner teams named owners claimed key id holder = rw (← holder.named) (
      claim_teams-owner teams [] owners claimed named holder.place holder.team holder.stands key
        holder.holds)

  -- Of two teams with ids that share a key, both cannot own it.
  Clash-refused :
      (teams : List (Team M))
      → All IsNamed teams
      → Clash teams
      → (owners : Entries) → ¬ (claim_teams teams [] ≡ ok owners)
  Clash-refused teams named clash owners claimed =
      let first = Holder-owner teams named owners claimed clash.key clash.first_id clash.first in
      let second = Holder-owner teams named owners claimed clash.key clash.second_id clash.second in
      let same : clash.first_id ≡ clash.second_id = ground arith in
      let differ = clash.differ in
      let alike : same_text clash.first_id clash.second_id ≡ true =
        rw (← same) (same_text_refl clash.first_id) in
      ground arith

  none_owned : (teams : List (Team M)) → Backed teams []
  unfolding owner_of
  none_owned teams k o e = ground arith

  -- Teams with ids make a directory exactly when no two of them share a key and have other ids.
  pub create_team_directory-ok_iff :
      (teams : List (Team M))
      → All IsNamed teams
      → (create_team_directory teams ≡ ok (record { list = teams })) ↔ (¬ Clash teams)
  unfolding create_team_directory
  create_team_directory-ok_iff teams named =
      elim (claim_teams-Clash teams teams [] (λ n team at. (n, at)) (none_owned teams)) [
        | inl (owners, e) ↦ (λ _ clash. Clash-refused teams named clash owners e, λ _. rw (e) refl)
        | inr clash ↦ (
          λ made.
              let (owners, e, _) =
                bind-ok (claim_teams teams []) (λ _. ok (record { list = teams }))
                  (record { list = teams }) made in
              absurd (Clash-refused teams named clash owners e),
          λ none_clash. absurd (none_clash clash),
        )
      ]
