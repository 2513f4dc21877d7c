-- ===== src/TaxId/Matching.antt =====
-- The masks and the comparison of documents in src/lib/pix-key-owner.ts.
use udv_shop_api.Prelude.{
  ℕ, zero, suc, ◌+◌, ◌-◌, ◌≤◌, ◌≡◌, ◌≢◌, refl, true, ◌⊎◌, inl, inr, List, [], ◌∷◌, ◌++◌, ◌==◌,
  if◌then◌else◌, length, take, drop, arith, get_elem?, some, ==_refl, Bool-cases, length-append,
  sum_of, sum_of-append, All, ap, ◌∙◌, length-take,
}
use mathlib.Core.Path.{subst}
use udv_shop_api.Table.{find_many}
use udv_shop_api.TaxId.{
  agrees, stars, star, visible, compare_reduced, compare_tax_id, same, digits, pattern_of,
  mask_tax_id, is_digit,
}

-- What the loop decides: each position that the mask shows has the payer's digit.
agrees-at :
    (owner payer : List ℕ) (i k p : ℕ)
    → agrees owner payer ≡ true
    → get_elem? owner i ≡ some k
    → get_elem? payer i ≡ some p
    → k ≢ star
    → k ≡ p
unfolding agrees
agrees-at [] payer i k p h a b n = ground arith
agrees-at (x ∷ owner) [] i k p h a b n = ground arith
agrees-at (x ∷ owner) (y ∷ payer) zero k p h a b n = ground arith
agrees-at (x ∷ owner) (y ∷ payer) (suc i) k p h a b n =
    agrees-at owner payer i k p (ground arith) a b n

compare_reduced-same :
    (owner payer : List ℕ)
    → compare_reduced owner payer ≡ same
    → (agrees owner payer ≡ true) × (5 ≤ visible owner) × (length owner ≡ length payer)
unfolding compare_reduced
compare_reduced-same owner payer h = ground arith

-- A key passes only on evidence: when the comparison says that owner and payer are the same, the
-- documents have the same length, at least five digits of the owner's are shown, and each digit
-- that is shown stands at the same place in the payer's.
pub compare_tax_id-same :
    (owner payer : List ℕ)
    → compare_tax_id owner payer ≡ same
    → (length (pattern_of owner) ≡ length (digits payer))
      × (5 ≤ visible (pattern_of owner))
      × ((i k p : ℕ)
          → get_elem? (pattern_of owner) i ≡ some k
          → get_elem? (digits payer) i ≡ some p
          → k ≢ star
          → k ≡ p)
unfolding compare_tax_id
compare_tax_id-same owner payer h =
    let (a, v, l) = compare_reduced-same (pattern_of owner) (digits payer) h in
    (l, v, λ i k p. agrees-at (pattern_of owner) (digits payer) i k p a)

agrees_refl : (xs : List ℕ) → agrees xs xs ≡ true
unfolding agrees
agrees_refl [] = refl
agrees_refl (x ∷ xs) = ground (arith, agrees_refl xs)

agrees-stars :
    (xs ys : List ℕ) (n : ℕ) (zs : List ℕ)
    → length ys ≡ n
    → agrees xs zs ≡ true
    → agrees (stars n ++ xs) (ys ++ zs) ≡ true
unfolding agrees stars
agrees-stars xs [] zero zs h a = a
agrees-stars xs [] (suc n) zs h a = ground arith
agrees-stars xs (y ∷ ys) zero zs h a = ground arith
agrees-stars xs (y ∷ ys) (suc n) zs h a = agrees-stars xs ys n zs (omega arith) a

-- A mask that hides the middle agrees with what it was made of.
agrees-mask :
    (a b : ℕ) (ds : List ℕ)
    → a + b ≤ length ds
    → agrees (take a ds ++ (stars b ++ drop (a + b) ds)) ds ≡ true
unfolding agrees stars
agrees-mask zero zero ds h = agrees_refl ds
agrees-mask zero (suc b) [] h = ground arith
agrees-mask zero (suc b) (x ∷ ds) h =
    subst (λ n. agrees (stars b ++ drop n (x ∷ ds)) ds ≡ true) {x = suc (0 + b)} {y = 0 + suc b}
      (omega arith) (agrees-mask zero b ds (omega arith))
agrees-mask (suc a) b [] h = ground arith
agrees-mask (suc a) b (x ∷ ds) h =
    subst (λ n. agrees (x ∷ (take a ds ++ (stars b ++ drop n (x ∷ ds)))) (x ∷ ds) ≡ true)
      {x = suc (a + b)} {y = suc a + b} (omega arith)
      (ground (arith, ==_refl x, agrees-mask a b ds (omega arith)))

abbrev shown : ℕ → ℕ
shown c = if c == star then 0 else 1

visible-sum_of : (xs : List ℕ) → visible xs ≡ sum_of shown xs
unfolding visible find_many
visible-sum_of [] = refl
visible-sum_of (x ∷ xs) = ground (arith, visible-sum_of xs)

sum_of-stars : (n : ℕ) → sum_of shown (stars n) ≡ 0
unfolding stars
sum_of-stars zero = refl
sum_of-stars (suc n) = omega (arith, sum_of-stars n)

length-stars : (n : ℕ) → length (stars n) ≡ n
unfolding stars
length-stars zero = refl
length-stars (suc n) = omega (arith, length-stars n)

-- Digits are shown, all of them.
Digits : List ℕ → Type 0
Digits xs = All (λ c. is_digit c ≡ true) xs

shown-Digits : (xs : List ℕ) → Digits xs → sum_of shown xs ≡ length xs
unfolding Digits
shown-Digits [] h = refl
shown-Digits (x ∷ xs) (d, h) = ground (arith, shown-Digits xs h)

Digits-take : (n : ℕ) (xs : List ℕ) → Digits xs → Digits (take n xs)
unfolding Digits
Digits-take zero xs h = tt
Digits-take (suc n) [] h = tt
Digits-take (suc n) (x ∷ xs) (d, h) = (d, Digits-take n xs h)

Digits-drop : (n : ℕ) (xs : List ℕ) → Digits xs → Digits (drop n xs)
unfolding Digits
Digits-drop zero xs h = h
Digits-drop (suc n) [] h = tt
Digits-drop (suc n) (x ∷ xs) (d, h) = Digits-drop n xs h

length-drop : (n : ℕ) (xs : List ℕ) → length (drop n xs) ≡ length xs - n
length-drop zero xs = omega arith
length-drop (suc n) [] = omega arith
length-drop (suc n) (x ∷ xs) = omega (arith, length-drop n xs)

Digits-digits : (xs : List ℕ) → Digits (digits xs)
unfolding Digits digits find_many
Digits-digits [] = tt
Digits-digits (x ∷ xs) = elim (Bool-cases (is_digit x)) [
  | inl e ↦ rw e (e, Digits-digits xs)
  | inr e ↦ rw e (Digits-digits xs)
]

-- What a mask and a document leave to compare is all of them.
pattern_of-Digits : (xs ys : List ℕ) → Digits xs → pattern_of (xs ++ ys) ≡ xs ++ pattern_of ys
unfolding Digits pattern_of find_many
pattern_of-Digits [] ys h = refl
pattern_of-Digits (x ∷ xs) ys (d, h) = rw d (ap (◌∷◌ x) (pattern_of-Digits xs ys h))

pattern_of-stars : (n : ℕ) (ys : List ℕ) → pattern_of (stars n ++ ys) ≡ stars n ++ pattern_of ys
unfolding pattern_of find_many stars
pattern_of-stars zero ys = refl
pattern_of-stars (suc n) ys = ap (◌∷◌ star) (pattern_of-stars n ys)

pattern_of-all : (xs : List ℕ) → Digits xs → pattern_of xs ≡ xs
unfolding Digits pattern_of find_many
pattern_of-all [] h = refl
pattern_of-all (x ∷ xs) (d, h) = rw d (ap (◌∷◌ x) (pattern_of-all xs h))

-- The mask of a document: its first three digits, stars, and its last two digits.
abbrev middle : List ℕ → List ℕ
middle ds = take 3 ds ++ (stars (length ds - 5) ++ drop (length ds - 2) ds)

pattern_of-middle : (ds : List ℕ) → Digits ds → pattern_of (middle ds) ≡ middle ds
pattern_of-middle ds h =
    pattern_of-Digits (take 3 ds) _ (Digits-take 3 ds h)
    ∙ ap (λ xs. take 3 ds ++ xs)
        (pattern_of-stars (length ds - 5) (drop (length ds - 2) ds)
          ∙ ap (λ xs. stars (length ds - 5) ++ xs)
              (pattern_of-all (drop (length ds - 2) ds) (Digits-drop (length ds - 2) ds h)))

length-middle : (ds : List ℕ) → 5 ≤ length ds → length (middle ds) ≡ length ds
length-middle ds h = omega (
  arith,
  length-append (take 3 ds) (stars (length ds - 5) ++ drop (length ds - 2) ds),
  length-append (stars (length ds - 5)) (drop (length ds - 2) ds),
  length-take 3 ds,
  length-stars (length ds - 5),
  length-drop (length ds - 2) ds,
)

visible-middle : (ds : List ℕ) → Digits ds → 5 ≤ length ds → visible (middle ds) ≡ 5
visible-middle ds d h = omega (
  arith,
  visible-sum_of (middle ds),
  sum_of-append shown (take 3 ds) (stars (length ds - 5) ++ drop (length ds - 2) ds),
  sum_of-append shown (stars (length ds - 5)) (drop (length ds - 2) ds),
  shown-Digits (take 3 ds) (Digits-take 3 ds d),
  shown-Digits (drop (length ds - 2) ds) (Digits-drop (length ds - 2) ds d),
  sum_of-stars (length ds - 5),
  length-take 3 ds,
  length-drop (length ds - 2) ds,
)

agrees-middle : (ds : List ℕ) → 5 ≤ length ds → agrees (middle ds) ds ≡ true
agrees-middle ds h =
    subst (λ n. agrees (take 3 ds ++ (stars (length ds - 5) ++ drop n ds)) ds ≡ true)
      {x = 3 + (length ds - 5)} {y = length ds - 2} (omega arith)
      (agrees-mask 3 (length ds - 5) ds (omega arith))

compare_reduced-intro :
    (owner payer : List ℕ)
    → (length payer ≡ 11) ⊎ (length payer ≡ 14)
    → length owner ≡ length payer
    → visible owner ≡ 5
    → agrees owner payer ≡ true
    → compare_reduced owner payer ≡ same
unfolding compare_reduced
compare_reduced-intro owner payer (inl h) l v a = ground arith
compare_reduced-intro owner payer (inr h) l v a = ground arith

compare-middle :
    (ds : List ℕ)
    → Digits ds
    → (length ds ≡ 11) ⊎ (length ds ≡ 14)
    → 5 ≤ length ds
    → compare_reduced (pattern_of (middle ds)) ds ≡ same
compare-middle ds d h n = rw (pattern_of-middle ds d) (
    compare_reduced-intro (middle ds) ds h (length-middle ds n) (visible-middle ds d n)
      (agrees-middle ds n))

mask_tax_id-middle : (t : List ℕ) → 5 ≤ length (digits t) → mask_tax_id t ≡ middle (digits t)
unfolding mask_tax_id
mask_tax_id-middle t h = ground arith

long : (n : ℕ) → (n ≡ 11) ⊎ (n ≡ 14) → 5 ≤ n
long n (inl h) = omega arith
long n (inr h) = omega arith

-- The mask that is stored of a payer's document always recognises that document: a CPF or a CNPJ
-- compared with its own mask is the same.
pub compare_tax_id-mask_tax_id :
    (tax_id : List ℕ)
    → (length (digits tax_id) ≡ 11) ⊎ (length (digits tax_id) ≡ 14)
    → compare_tax_id (mask_tax_id tax_id) tax_id ≡ same
unfolding compare_tax_id
compare_tax_id-mask_tax_id tax_id h =
    let n = long (length (digits tax_id)) h in
    rw (mask_tax_id-middle tax_id n) (compare-middle (digits tax_id) (Digits-digits tax_id) h n)
