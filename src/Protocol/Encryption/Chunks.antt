-- ===== src/Protocol/Encryption/Chunks.antt =====
-- Blockwise maps and the padding of encryption.rs.
use nautilus_futu.Prelude.{
  ℕ, zero, suc, ◌+◌, ◌-◌, ◌*◌, ◌/◌, ◌%◌, ◌≤◌, ◌<◌, ◌≡◌, refl, sym, ap, ap₂, ◌∙◌, List, [], ◌∷◌,
  ◌++◌, true, some, none, ok, arith, length, take, drop, replicate, length-append, length-take,
  length-drop, length-replicate, take-append-drop, take-append_eq, drop-append_eq, Option-cases,
  inl, inr,
}
use nautilus_futu.Protocol.Encryption.{
  block_size, each_chunk, pad, get_last?, all_equal, unpad_by, unpad,
}

module _ (f : List ℕ → List ℕ) (length-f : (b : List ℕ) → length b ≡ 16 → length (f b) ≡ 16) where
  first_block : (n : ℕ) (xs : List ℕ) → length xs ≡ 16 * suc n → length (take block_size xs) ≡ 16
  first_block n xs h = omega (arith, length-take block_size xs)

  other_blocks :
      (n : ℕ) (xs : List ℕ) → length xs ≡ 16 * suc n → length (drop block_size xs) ≡ 16 * n
  other_blocks n xs h = omega (arith, length-drop block_size xs)

  pub length-each_chunk :
      (n : ℕ) (xs : List ℕ) → length xs ≡ 16 * n → length (each_chunk f n xs) ≡ 16 * n
  unfolding each_chunk
  length-each_chunk zero xs h = h
  length-each_chunk (suc n) xs h =
      let block = take block_size xs in
      omega (
        arith,
        length-append (f block) (each_chunk f n (drop block_size xs)),
        length-f block (first_block n xs h),
        length-each_chunk n (drop block_size xs) (other_blocks n xs h),
      )

  -- If `g` undoes `f` on a block, then blockwise on whole blocks.
  pub each_chunk-each_chunk :
      (g : List ℕ → List ℕ)
      → ((b : List ℕ) → length b ≡ 16 → g (f b) ≡ b)
      → (n : ℕ) (xs : List ℕ) → length xs ≡ 16 * n
      → each_chunk g n (each_chunk f n xs) ≡ xs
  unfolding each_chunk
  each_chunk-each_chunk g undo zero xs h = refl
  each_chunk-each_chunk g undo (suc n) xs h =
      let block = take block_size xs in
      let rest = drop block_size xs in
      let size = length-f block (first_block n xs h) in
      ap₂ (λ a b. g a ++ each_chunk g n b) (take-append_eq 16 (f block) (each_chunk f n rest) size)
        (drop-append_eq 16 (f block) (each_chunk f n rest) size)
      ∙ ap₂ (λ a b. a ++ b) (undo block (first_block n xs h))
          (each_chunk-each_chunk g undo n rest (other_blocks n xs h))
      ∙ take-append-drop block_size xs

pub length-pad : (xs : List ℕ) → length (pad xs) ≡ 16 * (length xs / 16 + 1)
unfolding pad
length-pad xs =
    let p = block_size - length xs % block_size in
    omega (arith, length-append xs (replicate p (p % 256)), length-replicate p (p % 256))

get_last?-replicate : (xs : List ℕ) (n a : ℕ) → get_last? (xs ++ replicate (suc n) a) ≡ some a
unfolding get_last?
get_last?-replicate [] zero a = refl
get_last?-replicate [] (suc n) a = get_last?-replicate [] n a
get_last?-replicate (x ∷ []) n a = get_last?-replicate [] n a
get_last?-replicate (x ∷ y ∷ xs) n a = get_last?-replicate (y ∷ xs) n a

all_equal-replicate : (n a : ℕ) → all_equal a (replicate n a) ≡ true
unfolding all_equal
all_equal-replicate zero a = refl
all_equal-replicate (suc n) a = ground (arith, all_equal-replicate n a)

all_equal→eq : (p : ℕ) (xs : List ℕ) → all_equal p xs ≡ true → xs ≡ replicate (length xs) p
unfolding all_equal
all_equal→eq p [] h = refl
all_equal→eq p (x ∷ xs) h = ground (arith, all_equal→eq p xs)

unpad-last : (xs : List ℕ) (p : ℕ) → get_last? xs ≡ some p → unpad xs ≡ unpad_by p xs
unfolding unpad
unpad-last xs p e = rw (e, unpad)

unpad_by_lem :
    (p : ℕ) (xs : List ℕ)
    → 0 < p
    → p ≤ 16
    → p ≤ length xs
    → all_equal p (drop (length xs - p) xs) ≡ true
    → unpad_by p xs ≡ ok (take (length xs - p) xs)
unfolding unpad_by
unpad_by_lem p xs h0 h16 hl same = ground arith

unpad-append : (xs : List ℕ) (k : ℕ) → suc k ≤ 16 → unpad (xs ++ replicate (suc k) (suc k)) ≡ ok xs
unpad-append xs k h =
    let p = suc k in
    let padding = replicate p p in
    let all = xs ++ padding in
    let size : length all ≡ length xs + p =
      omega (arith, length-append xs padding, length-replicate p p) in
    let cut : length xs ≡ length all - p = omega (arith, size) in
    unpad-last all p (get_last?-replicate xs k p)
    ∙ unpad_by_lem p all (omega arith) h (omega (arith, size)) (
        ap (all_equal p) (drop-append_eq (length all - p) xs padding cut) ∙ all_equal-replicate p p)
    ∙ ap ok (take-append_eq (length all - p) xs padding cut)

pub unpad-pad : (xs : List ℕ) → unpad (pad xs) ≡ ok xs
unfolding pad
unpad-pad xs =
    let k = 15 - length xs % 16 in
    let p : block_size - length xs % block_size ≡ suc k = omega arith in
    ap (λ p. unpad (xs ++ replicate p (p % 256))) p
    ∙ ap (λ b. unpad (xs ++ replicate (suc k) b)) (omega arith)
    ∙ unpad-append xs k (omega arith)

unpad_by-inv :
    (p : ℕ) (xs ys : List ℕ)
    → unpad_by p xs ≡ ok ys
    → (0 < p)
      × (p ≤ 16)
      × (p ≤ length xs)
      × (all_equal p (drop (length xs - p) xs) ≡ true)
      × (ys ≡ take (length xs - p) xs)
unfolding unpad_by
unpad_by-inv p xs ys h = ground arith

some_unpad_by : (xs ys : List ℕ) → unpad xs ≡ ok ys → (p : ℕ) × (unpad_by p xs ≡ ok ys)
unfolding unpad
some_unpad_by xs ys h = elim (Option-cases (get_last? xs)) [
  | inl e ↦ absurd (no_last e)
  | inr (p, e) ↦ (p, sym (unpad-last xs p e) ∙ h)
]
  where
    no_last : get_last? xs ≡ none → ⊥
    no_last e = ground arith

-- What `unpad` accepts is a text followed by its padding.
pub unpad-inv :
    (xs ys : List ℕ)
    → unpad xs ≡ ok ys
    → (p : ℕ) × (0 < p) × (p ≤ 16) × (p + length ys ≡ length xs) × (xs ≡ ys ++ replicate p p)
unpad-inv xs ys h =
    let (p, e) = some_unpad_by xs ys h in
    let (h0, h16, hl, same, cut) = unpad_by-inv p xs ys e in
    let n = length xs - p in
    let tail : drop n xs ≡ replicate p p =
      all_equal→eq p (drop n xs) same ∙ ap (λ k. replicate k p) (omega (arith, length-drop n xs)) in
    (
      p,
      h0,
      h16,
      omega (arith, ap length cut, length-take n xs),
      sym (take-append-drop n xs) ∙ ap₂ (λ a b. a ++ b) (sym cut) tail,
    )
