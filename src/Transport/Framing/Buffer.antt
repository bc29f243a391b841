-- ===== src/Transport/Framing/Buffer.antt =====
-- The frame buffer holds what was appended to it, whatever storage it has.
use native.Mathlib.Numerals.{unary_clauses}
use cavi_api_client.Base.{
  ℕ, zero, suc, ◌+◌, ◌*◌, ◌≤◌, min, max, ◌≡◌, refl, ◌∙◌, ap, sym, true, false, List, [], ◌∷◌, ◌++◌,
  ltb, length, take, ok, err, arith, Bool-cases, inl, inr,
}
use cavi_api_client.Transport.Framing.{FrameBuffer, oversized, zeros, write, bytes, grow, append}

length-zeros : (n : ℕ) → length (zeros n) ≡ n
length-zeros zero = refl
length-zeros (suc n) = ap suc (length-zeros n)

length-write : (xs : List ℕ) (n : ℕ) (ys : List ℕ) → length (write xs n ys) ≡ length xs
length-write [] n ys = refl
length-write (x ∷ xs) (suc n) ys = ap suc (length-write xs n ys)
length-write (x ∷ xs) zero [] = refl
length-write (x ∷ xs) zero (y ∷ ys) = ap suc (length-write xs zero ys)

length-take : (n : ℕ) (xs : List ℕ) → n ≤ length xs → length (take n xs) ≡ n
length-take zero xs h = refl
length-take (suc n) [] h = ground arith
length-take (suc n) (x ∷ xs) h = ap suc (length-take n xs (omega arith))

-- What is written just past a prefix extends it.
take-write :
    (xs : List ℕ) (n : ℕ) (ys : List ℕ)
    → n + length ys ≤ length xs
    → take (n + length ys) (write xs n ys) ≡ take n xs ++ ys
take-write [] zero [] h = refl
take-write [] zero (y ∷ ys) h = ground arith
take-write [] (suc n) ys h = ground arith
take-write (x ∷ xs) (suc n) ys h =
    let shift : suc n + length ys ≡ suc (n + length ys) = omega arith in
    rw (shift) (ap (x ∷◌) (take-write xs n ys (omega arith)))
take-write (x ∷ xs) zero [] h = refl
take-write (x ∷ xs) zero (y ∷ ys) h =
    simp unary_clauses (ap (y ∷◌) (take-write xs zero ys (omega arith)))

-- What is written past a prefix leaves the prefix.
take-write_prefix :
    (xs : List ℕ) (n : ℕ) (ys : List ℕ) → n ≤ length xs → take n (write xs n ys) ≡ take n xs
take-write_prefix xs zero ys h = refl
take-write_prefix [] (suc n) ys h = refl
take-write_prefix (x ∷ xs) (suc n) ys h = ap (x ∷◌) (take-write_prefix xs n ys (omega arith))

pub record IsValid (b : FrameBuffer) : Type 0 where
  pub fits : b.used ≤ length b.storage

pub length-bytes : (b : FrameBuffer) → IsValid b → length (bytes b) ≡ b.used
unfolding bytes
length-bytes b v = length-take b.used b.storage v.fits

-- A new storage begins with the bytes it is given.
take-write-zeros :
    (capacity : ℕ) (ys : List ℕ)
    → length ys ≤ capacity
    → take (length ys) (write (zeros capacity) 0 ys) ≡ ys
take-write-zeros capacity [] h = refl
take-write-zeros zero (y ∷ ys) h = ground arith
take-write-zeros (suc capacity) (y ∷ ys) h = ap (y ∷◌) (take-write-zeros capacity ys (omega arith))

bytes_lem : (b : FrameBuffer) → bytes b ≡ take b.used b.storage
unfolding bytes
bytes_lem b = refl

new_storage :
    (capacity needed : ℕ) (b : FrameBuffer)
    → IsValid b
    → b.used ≤ needed
    → needed ≤ capacity
    → (needed ≤ length (write (zeros capacity) 0 (bytes b)))
      × (take b.used (write (zeros capacity) 0 (bytes b)) ≡ bytes b)
new_storage capacity needed b v h k =
    let size = length-write (zeros capacity) 0 (bytes b) in
    let room = length-zeros capacity in
    let used = length-bytes b v in
    let kept = take-write-zeros capacity (bytes b) (omega (arith, used, v.fits)) in
    (omega (arith, size, room), rw used at kept)

-- Storage that grows still begins with the bytes in use, and has room for what is needed.
grow-bytes :
    (limit needed : ℕ) (b : FrameBuffer)
    → IsValid b
    → b.used ≤ needed
    → needed ≤ limit
    → (needed ≤ length (grow limit needed b)) × (take b.used (grow limit needed b) ≡ bytes b)
unfolding grow
grow-bytes limit needed b v h k = elim (Bool-cases (ltb (length b.storage) needed)) [
  | inl e ↦ rw e (
      new_storage (min limit (max needed (max 256 (length b.storage * 2)))) needed b v h
        (omega arith))
  | inr e ↦ rw e ((ground arith, sym (bytes_lem b)))
]

-- What is appended within the limit is held after what was held.
pub append-bytes :
    (chunk : List ℕ) (limit : ℕ) (b : FrameBuffer)
    → IsValid b
    → ltb limit (b.used + length chunk) ≡ false
    → (b' : FrameBuffer) × (append chunk limit b ≡ ok b')
      × IsValid b'
      × (bytes b' ≡ bytes b ++ chunk)
unfolding append bytes
append-bytes chunk limit b v e =
    let g = grow-bytes limit (b.used + length chunk) b v (omega arith) (ground arith) in
    (
      record {
        storage = write (grow limit (b.used + length chunk) b) b.used chunk;
        used = b.used + length chunk;
      },
      rw e refl,
      record { fits = rw (length-write (grow limit (b.used + length chunk) b) b.used chunk) (g.0) },
      take-write (grow limit (b.used + length chunk) b) b.used chunk (g.0) ∙ ap (◌++ chunk) (g.1),
    )

append-oversized :
    (chunk : List ℕ) (limit : ℕ) (b : FrameBuffer)
    → ltb limit (b.used + length chunk) ≡ true
    → append chunk limit b ≡ err oversized
unfolding append
append-oversized chunk limit b e = rw e refl

pub append-IsValid :
    (chunk : List ℕ) (limit : ℕ) (b b' : FrameBuffer)
    → IsValid b
    → append chunk limit b ≡ ok b'
    → IsValid b'
append-IsValid chunk limit b b' v e = elim (Bool-cases (ltb limit (b.used + length chunk))) [
  | inl f ↦ let refused = append-oversized chunk limit b f in ground arith
  | inr f ↦ let (held, done, v', same) = append-bytes chunk limit b v f in ground arith
]
