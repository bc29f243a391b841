-- ===== src/Teams/Normalizing.antt =====
-- The normal form of an identifier is a fixed point of the normalization, so a team is found by the
-- keys that are listed for it.
use cavi_api_client.Base.{
  ℕ, ◌≡◌, refl, ap, inl, inr, Bool, true, false, ◌||◌, not, List, [], ◌∷◌, map, Option, none, some,
  get_elem?, ok, Option-cases, All, All-append, any, arith, Bool-cases, ◌∙◌,
}
use mathlib.Core.List.{reverse, reverse-cons, reverse-reverse, ◌++◌}
use cavi_api_client.Base.Text.{Text, trim, trim_start, is_blank, is_empty, is_space, to_lower}
use cavi_api_client.Teams.Owners.{IsNamed, same_text-eq, resolve_team-id}
use cavi_api_client.Teams.{
  Team, TeamDirectory, create_team_directory, resolve_team, hyphenate, dash_spaces,
  normalize_team_lookup_value, has, key_of, uniq_from, uniq_normalized, get_team_lookup_keys,
  matches_team_identifier, same_text,
}

-- A character that the normalization keeps.
record IsPlain (c : ℕ) : Type 0 where
  pub no_space : is_space c ≡ false
  pub no_upper : to_lower c ≡ c
  pub no_underscore : hyphenate c ≡ c

-- The characters of a normal form.
IsPlain-dash : IsPlain b'-'
unfolding is_space to_lower hyphenate
IsPlain-dash = record { no_space = refl; no_upper = refl; no_underscore = refl }

IsPlain-lowered :
    (c : ℕ) → is_space (hyphenate (to_lower c)) ≡ false → IsPlain (hyphenate (to_lower c))
unfolding to_lower hyphenate
IsPlain-lowered c h = record { no_space = h; no_upper = ground arith; no_underscore = ground arith }

dash_spaces-IsPlain :
    (s : Text) (in_run : Bool) → All IsPlain (dash_spaces in_run (map hyphenate (map to_lower s)))
unfolding dash_spaces
dash_spaces-IsPlain [] in_run = tt
dash_spaces-IsPlain (c ∷ s) true = elim (Bool-cases (is_space (hyphenate (to_lower c)))) [
  | inl space ↦ rw (space) (dash_spaces-IsPlain s true)
  | inr other ↦ rw (other) (IsPlain-lowered c other, dash_spaces-IsPlain s false)
]
dash_spaces-IsPlain (c ∷ s) false = elim (Bool-cases (is_space (hyphenate (to_lower c)))) [
  | inl space ↦ rw (space) (IsPlain-dash, dash_spaces-IsPlain s true)
  | inr other ↦ rw (other) (IsPlain-lowered c other, dash_spaces-IsPlain s false)
]

normalize_team_lookup_value-IsPlain :
    (value : Text) → All IsPlain (normalize_team_lookup_value value)
unfolding normalize_team_lookup_value
normalize_team_lookup_value-IsPlain value = dash_spaces-IsPlain (trim value) false

-- What a text of kept characters is to the steps of the normalization.
dash_spaces-fixed :
    (s : Text) → All IsPlain s → dash_spaces false (map hyphenate (map to_lower s)) ≡ s
unfolding dash_spaces
dash_spaces-fixed [] p = refl
dash_spaces-fixed (c ∷ s) p =
    rw (p.0.no_upper, p.0.no_underscore, p.0.no_space) (ap (c ∷◌) (dash_spaces-fixed s p.1))

trim_start-fixed : (s : Text) → All IsPlain s → trim_start s ≡ s
unfolding trim_start
trim_start-fixed [] p = refl
trim_start-fixed (c ∷ s) p = rw (p.0.no_space) refl

All-reverse : (s : Text) → All IsPlain s → All IsPlain (reverse s)
All-reverse [] p = tt
All-reverse (c ∷ s) p =
    rw (reverse-cons c s) (All-append IsPlain (reverse s) (c ∷ []) (All-reverse s p.1) (p.0, tt))

trim-fixed : (s : Text) → All IsPlain s → trim s ≡ s
unfolding trim
trim-fixed s p =
    rw (trim_start-fixed s p, trim_start-fixed (reverse s) (All-reverse s p)) (reverse-reverse s)

normalize_team_lookup_value-fixed : (s : Text) → All IsPlain s → normalize_team_lookup_value s ≡ s
unfolding normalize_team_lookup_value
normalize_team_lookup_value-fixed s p = rw (trim-fixed s p) (dash_spaces-fixed s p)

-- A character that is no white space.
abbrev ink : ℕ → Bool
ink c = not (is_space c)

any-append : (s t : Text) → any ink (s ++ t) ≡ (any ink s || any ink t)
any-append [] t = refl
any-append (c ∷ s) t = rw (any-append s t) (ground arith)

any-reverse : (s : Text) → any ink (reverse s) ≡ any ink s
any-reverse [] = refl
any-reverse (c ∷ s) =
    rw (reverse-cons c s, any-append (reverse s) (c ∷ []), any-reverse s) (ground arith)

any-trim_start : (s : Text) → any ink (trim_start s) ≡ any ink s
unfolding trim_start
any-trim_start [] = refl
any-trim_start (c ∷ s) = ground (arith, any-trim_start s)

any-trim : (s : Text) → any ink (trim s) ≡ any ink s
unfolding trim
any-trim s =
    any-reverse (trim_start (reverse (trim_start s)))
    ∙ any-trim_start (reverse (trim_start s))
    ∙ any-reverse (trim_start s)
    ∙ any-trim_start s

is_blank-ink : (s : Text) → is_blank s ≡ not (any ink s)
unfolding is_blank trim_start
is_blank-ink [] = refl
is_blank-ink (c ∷ s) = ground (arith, is_blank-ink s)

is_empty-dash_spaces :
    (s : Text)
    → any ink s ≡ true
    → is_empty (dash_spaces false (map hyphenate (map to_lower s))) ≡ false
unfolding dash_spaces
is_empty-dash_spaces [] h = ground arith
is_empty-dash_spaces (c ∷ s) h = ground arith

is_empty-normalize_team_lookup_value :
    (value : Text)
    → any ink (trim value) ≡ true
    → is_empty (normalize_team_lookup_value value) ≡ false
unfolding normalize_team_lookup_value
is_empty-normalize_team_lookup_value value h = is_empty-dash_spaces (trim value) h

-- What a list of keys has.
record IsKey (key : Text) : Type 0 where
  pub plain : All IsPlain key
  pub filled : is_empty key ≡ false

key_of-IsKey : (value : Option Text) (key : Text) → key_of value ≡ some key → IsKey key
unfolding key_of
key_of-IsKey none key e = ground arith
key_of-IsKey (some value) key e = elim (Bool-cases (is_blank value)) [
  | inl blank ↦ ground arith
  | inr filled ↦
      let made : normalize_team_lookup_value (trim value) ≡ key = ground arith in
      let inked : any ink (trim (trim value)) ≡ true =
        any-trim (trim value) ∙ any-trim value ∙ ground (arith, is_blank-ink value) in
      rw (← made) (record {
        plain = normalize_team_lookup_value-IsPlain (trim value);
        filled = is_empty-normalize_team_lookup_value (trim value) inked;
      })
]

uniq_from-IsKey :
    (seen : List Text) (values : List (Option Text)) → All IsKey (uniq_from seen values)
unfolding uniq_from
uniq_from-IsKey seen [] = tt
uniq_from-IsKey seen (value ∷ values) = elim (Option-cases (key_of value)) [
  | inl none_here ↦ rw (All, none_here) (uniq_from-IsKey seen values)
  | inr (key, e) ↦ elim (Bool-cases (has key seen)) [
    | inl known ↦ rw (All, e, known) (uniq_from-IsKey seen values)
    | inr new ↦ rw (All, e, new) (key_of-IsKey value key e, uniq_from-IsKey (key ∷ seen) values)
  ]
]

has-IsKey : (keys : List Text) (key : Text) → All IsKey keys → has key keys ≡ true → IsKey key
unfolding has
has-IsKey [] key all h = ground arith
has-IsKey (k ∷ keys) key all h = elim (Bool-cases (same_text key k)) [
  | inl same ↦ rw (same_text-eq key k same) all.0
  | inr other ↦ has-IsKey keys key all.1 (ground arith)
]

module _ {M : Type 0} where
  -- A team is matched by the keys that are listed for it.
  matches-lookup_key :
      (team : Team M) (key : Text)
      → has key (get_team_lookup_keys team) ≡ true
      → matches_team_identifier team (some key) ≡ true
  unfolding matches_team_identifier get_team_lookup_keys uniq_normalized is_blank
  matches-lookup_key team key h =
      let is_key = has-IsKey (get_team_lookup_keys team) key (uniq_from-IsKey [] _) h in
      rw
        (
          trim_start-fixed key is_key.plain,
          is_key.filled,
          normalize_team_lookup_value-fixed key is_key.plain,
        )
        h

  -- In a directory that was made of teams with ids, each key that is listed for a team resolves, and
  -- to a team of that id.
  pub resolve_team-lookup_key :
      (teams : List (Team M)) (directory : TeamDirectory M)
      → create_team_directory teams ≡ ok directory
      → All IsNamed teams
      → (n : ℕ) (team : Team M) → get_elem? teams n ≡ some team
      → (key : Text) → has key (get_team_lookup_keys team) ≡ true
      → (r : Team M) × (resolve_team directory (some key) ≡ some r) × (r.id ≡ team.id)
  resolve_team-lookup_key teams directory made named n team at key h =
      resolve_team-id teams directory made named n team at key (matches-lookup_key team key h)
