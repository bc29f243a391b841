-- ===== src/Transport/SseStream/Blocks.antt =====
-- The boundary search against a scan from left to right, which more text does not disturb.
use cavi_api_client.Base.{
  ℕ, zero, suc, ◌+◌, ◌≤◌, ◌⊎◌, ◌≡◌, refl, ap, sym, Bool, true, false, Option, none, some, [], ◌∷◌,
  ◌++◌, length, take, drop, if◌then◌else◌, arith, inl, inr, Option-cases,
}
use cavi_api_client.Base.Text.{Text, starts_with, index_of}
use cavi_api_client.Transport.SseStream.{lf_boundary, crlf_boundary, pick, take_next_sse_block}

abbrev before : ℕ → Option (Text × Text) → Option (Text × Text)
before c none = none
before c (some (block, rest)) = some (c ∷ block, rest)

abbrev here_or_later : Bool → Bool → ℕ → Text → Option (Text × Text) → Option (Text × Text)
here_or_later true crlf c s found = some ([], drop 1 s)
here_or_later false true c s found = some ([], drop 3 s)
here_or_later false false c s found = before c found

-- The first place where a boundary starts, read off directly.
unfoldable pub scan : Text → Option (Text × Text)
scan [] = none
scan (c ∷ s) =
    here_or_later (starts_with lf_boundary (c ∷ s)) (starts_with crlf_boundary (c ∷ s)) c s (scan s)

abbrev later : Option ℕ → Option ℕ
later none = none
later (some i) = some (suc i)

drop-later : (n c : ℕ) (s : Text) (k : ℕ) → drop (suc n + k) (c ∷ s) ≡ drop (n + k) s
drop-later n c s k =
    let shift : suc n + k ≡ suc (n + k) = omega arith in ap (λ m. drop m (c ∷ s)) shift

pick-later :
    (lf crlf : Option ℕ) (c : ℕ) (s : Text)
    → pick (later lf) (later crlf) (c ∷ s) ≡ before c (pick lf crlf s)
unfolding pick
pick-later none none c s = refl
pick-later none (some j) c s = ap (λ r. some (c ∷ take j s, r)) (drop-later j c s 4)
pick-later (some i) none c s = ap (λ r. some (c ∷ take i s, r)) (drop-later i c s 2)
pick-later (some i) (some j) c s =
    let drop-i = drop-later i c s 2 in let drop-j = drop-later j c s 4 in ground arith

pick-step :
    (here_lf here_crlf : Bool) (lf crlf : Option ℕ) (c : ℕ) (s : Text)
    → pick (if here_lf then some 0 else later lf) (if here_crlf then some 0 else later crlf) (c ∷ s)
      ≡ here_or_later here_lf here_crlf c s (pick lf crlf s)
unfolding pick
pick-step true true lf crlf c s = refl
pick-step true false lf none c s = refl
pick-step true false lf (some j) c s = ground arith
pick-step false true none crlf c s = refl
pick-step false true (some i) crlf c s = ground arith
pick-step false false lf crlf c s = pick-later lf crlf c s

index_of-step :
    (part : Text) (c : ℕ) (s : Text)
    → index_of part (c ∷ s) ≡ (if starts_with part (c ∷ s) then some 0 else later (index_of part s))
unfolding index_of
index_of-step part c s = elim (Option-cases (index_of part s)) [ inl e ↦ rw e | inr (i, e) ↦ rw e ]

pub no_block : take_next_sse_block [] ≡ none
unfolding take_next_sse_block index_of
no_block = refl

-- Taking the earlier of the two boundaries is the scan from left to right.
pub take_next_sse_block-eq-scan : (s : Text) → take_next_sse_block s ≡ scan s
unfolding take_next_sse_block scan
take_next_sse_block-eq-scan [] = no_block
take_next_sse_block-eq-scan (c ∷ s) =
    let ih = take_next_sse_block-eq-scan s in
    rw (index_of-step lf_boundary c s, index_of-step crlf_boundary c s, sym ih)
      (pick-step (starts_with lf_boundary (c ∷ s)) (starts_with crlf_boundary (c ∷ s))
        (index_of lf_boundary s) (index_of crlf_boundary s) c s)

step-append :
    (here_lf here_crlf : Bool) (c d e f : ℕ) (s t block rest : Text)
    (found more : Option (Text × Text))
    → ((block rest : Text) → found ≡ some (block, rest) → more ≡ some (block, rest ++ t))
    → here_or_later here_lf here_crlf c (d ∷ e ∷ f ∷ s) found ≡ some (block, rest)
    → here_or_later here_lf here_crlf c (d ∷ e ∷ f ∷ s ++ t) more ≡ some (block, rest ++ t)
step-append true here_crlf c d e f s t block rest found more ih h = ground arith
step-append false true c d e f s t block rest found more ih h = ground arith
step-append false false c d e f s t block rest none more ih h = ground arith
step-append false false c d e f s t block rest (some (b, r)) more ih h =
    let found-more = ih b r refl in rw found-more (ground arith)

pub scan-append :
    (s t block rest : Text) → scan s ≡ some (block, rest) → scan (s ++ t) ≡ some (block, rest ++ t)
unfolding scan starts_with
scan-append [] t block rest h = ground arith
scan-append (c ∷ []) t block rest h = ground arith
scan-append (c ∷ d ∷ []) t block rest h = ground arith
scan-append (c ∷ d ∷ e ∷ []) t block rest h = ground arith
scan-append (c ∷ d ∷ e ∷ f ∷ s) t block rest h =
    step-append (starts_with lf_boundary (c ∷ d ∷ e ∷ f ∷ s))
      (starts_with crlf_boundary (c ∷ d ∷ e ∷ f ∷ s)) c d e f s t block rest (scan (d ∷ e ∷ f ∷ s))
      (scan (d ∷ e ∷ f ∷ s ++ t)) (scan-append (d ∷ e ∷ f ∷ s) t) h

drop-shorter : (n : ℕ) (s : Text) → length (drop n s) ≤ length s
drop-shorter zero s = omega arith
drop-shorter (suc n) [] = omega arith
drop-shorter (suc n) (c ∷ s) = let rest = drop-shorter n s in omega arith

step-shorter :
    (here_lf here_crlf : Bool) (c : ℕ) (s block rest : Text) (found : Option (Text × Text))
    → ((block rest : Text) → found ≡ some (block, rest) → suc (length rest) ≤ length s)
    → here_or_later here_lf here_crlf c s found ≡ some (block, rest)
    → suc (length rest) ≤ suc (length s)
step-shorter true here_crlf c s block rest found ih h = let d = drop-shorter 1 s in ground arith
step-shorter false true c s block rest found ih h = let d = drop-shorter 3 s in ground arith
step-shorter false false c s block rest none ih h = ground arith
step-shorter false false c s block rest (some (b, r)) ih h = let d = ih b r refl in ground arith

-- A block and its boundary are taken off the front.
pub scan-shorter :
    (s block rest : Text) → scan s ≡ some (block, rest) → suc (length rest) ≤ length s
unfolding scan
scan-shorter [] block rest h = ground arith
scan-shorter (c ∷ s) block rest h =
    step-shorter (starts_with lf_boundary (c ∷ s)) (starts_with crlf_boundary (c ∷ s)) c s block
      rest (scan s) (λ b r. scan-shorter s b r) h

-- A text is a block, one of the boundaries, and a rest.
abbrev pub Parts : Text → Text → Text → Type 0
Parts s block rest = (s ≡ block ++ 10 ∷ 10 ∷ rest) ⊎ (s ≡ block ++ 13 ∷ 10 ∷ 13 ∷ 10 ∷ rest)

lf-parts : (s : Text) → starts_with lf_boundary s ≡ true → s ≡ 10 ∷ 10 ∷ drop 2 s
unfolding starts_with
lf-parts [] h = ground arith
lf-parts (c ∷ []) h = ground arith
lf-parts (c ∷ d ∷ s) h = ground arith

crlf-parts : (s : Text) → starts_with crlf_boundary s ≡ true → s ≡ 13 ∷ 10 ∷ 13 ∷ 10 ∷ drop 4 s
unfolding starts_with
crlf-parts [] h = ground arith
crlf-parts (c ∷ []) h = ground arith
crlf-parts (c ∷ d ∷ []) h = ground arith
crlf-parts (c ∷ d ∷ e ∷ []) h = ground arith
crlf-parts (c ∷ d ∷ e ∷ f ∷ s) h = ground arith

step-Parts :
    (here_lf here_crlf : Bool) (c : ℕ) (s block rest : Text) (found : Option (Text × Text))
    → (here_lf ≡ true → c ∷ s ≡ 10 ∷ 10 ∷ drop 1 s)
    → (here_crlf ≡ true → c ∷ s ≡ 13 ∷ 10 ∷ 13 ∷ 10 ∷ drop 3 s)
    → ((block rest : Text) → found ≡ some (block, rest) → Parts s block rest)
    → here_or_later here_lf here_crlf c s found ≡ some (block, rest)
    → Parts (c ∷ s) block rest
step-Parts true here_crlf c s block rest found lf crlf ih h = let e = lf refl in ground arith
step-Parts false true c s block rest found lf crlf ih h = let e = crlf refl in ground arith
step-Parts false false c s block rest none lf crlf ih h = ground arith
step-Parts false false c s block rest (some (b, r)) lf crlf ih h =
    let parts = ih b r refl in ground arith

pub scan-Parts : (s block rest : Text) → scan s ≡ some (block, rest) → Parts s block rest
unfolding scan
scan-Parts [] block rest h = ground arith
scan-Parts (c ∷ s) block rest h =
    step-Parts (starts_with lf_boundary (c ∷ s)) (starts_with crlf_boundary (c ∷ s)) c s block rest
      (scan s) (lf-parts (c ∷ s)) (crlf-parts (c ∷ s)) (λ b r. scan-Parts s b r) h
