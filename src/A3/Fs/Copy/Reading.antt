-- ===== src/A3/Fs/Copy/Reading.antt =====
-- About the loop over `fread` in `copy_in` of a3/fs/fsutil2.c.
use mock_os.Prelude.{
  ℕ, zero, suc, ◌+◌, ◌-◌, ◌*◌, ◌/◌, ◌≤◌, ◌<◌, ◌≡◌, refl, sym, ap, ◌∙◌, subst, lt→ltb, false, List,
  [], ◌∷◌, ◌++◌, ltb, if◌then◌else◌, length, take, drop, replicate, length-append, length-take,
  length-drop, length-replicate, take-append-drop, arith,
}
use mathlib.Core.List.{append_assoc}
use mock_os.A3.Fs.Copy.{Outcome, at_end, failed, fread_loop, read_all}

take-prefix : (xs ys : List ℕ) → take (length xs) (xs ++ ys) ≡ xs
take-prefix [] ys = refl
take-prefix (x ∷ xs) ys = ap (λ zs. x ∷ zs) (take-prefix xs ys)

drop-prefix : (xs ys : List ℕ) → drop (length xs) (xs ++ ys) ≡ ys
drop-prefix [] ys = refl
drop-prefix (x ∷ xs) ys = drop-prefix xs ys

take-all : (n : ℕ) (xs : List ℕ) → length xs ≤ n → take n xs ≡ xs
take-all zero [] h = refl
take-all (suc n) [] h = refl
take-all zero (x ∷ xs) h = ground arith
take-all (suc n) (x ∷ xs) h = ap (λ zs. x ∷ zs) (take-all n xs (omega arith))

lt-false : (a b : ℕ) → b ≤ a → ltb a b ≡ false
lt-false a b h = ground arith

-- A round of the loop that gets all of its 64 bytes.
fread_loop_full :
    (fuel : ℕ) (buffer block rest : List ℕ)
    → length block ≡ 64
    → 64 ≤ length buffer
    → fread_loop (suc fuel) buffer (block ++ rest) ≡ fread_loop fuel (block ++ drop 64 buffer) rest
unfolding fread_loop
fread_loop_full fuel buffer block rest full room =
    let taken : take 64 (block ++ rest) ≡ block =
      subst (λ n. take n (block ++ rest) ≡ block) full (take-prefix block rest) in
    let dropped : drop 64 (block ++ rest) ≡ rest =
      subst (λ n. drop n (block ++ rest) ≡ rest) full (drop-prefix block rest) in
    rw (taken, dropped, full, lt-false (length buffer) 64 room)

-- The last round, that meets the end of the file.
fread_loop_last :
    (fuel : ℕ) (buffer last : List ℕ)
    → length last < 64
    → 64 ≤ length buffer
    → fread_loop (suc fuel) buffer last
      ≡ (if ltb (length last) 8 then failed else at_end (last ++ drop (length last) buffer))
unfolding fread_loop
fread_loop_last fuel buffer last short room = rw (
  take-all 64 last (omega arith),
  lt-false (length buffer) (length last) (omega arith),
  lt→ltb _ _ short,
)

drop-append : (n : ℕ) (xs ys : List ℕ) → n ≤ length xs → drop n (xs ++ ys) ≡ drop n xs ++ ys
drop-append zero xs ys h = refl
drop-append (suc n) [] ys h = ground arith
drop-append (suc n) (x ∷ xs) ys h = drop-append n xs ys (omega arith)

drop-block : (block rest : List ℕ) → length block ≡ 64 → drop 64 (block ++ rest) ≡ rest
drop-block block rest full =
    subst (λ n. drop n (block ++ rest) ≡ rest) full (drop-prefix block rest)

abbrev outcome : List ℕ → List ℕ → List ℕ → Outcome
outcome block last zeros =
    if ltb (length last) 8 then failed else at_end (last ++ (drop (length last) block ++ zeros))

length-block : (block rest : List ℕ) → length block ≡ 64 → 64 ≤ length (block ++ rest)
length-block block rest full = omega (arith, length-append block rest)

-- The rounds over `k` blocks, one more block and what follows it.
fread_loop-blocks :
    (k fuel : ℕ) (buffer front block last : List ℕ)
    → k + 2 ≤ fuel
    → length front ≡ 64 * k
    → length block ≡ 64
    → length last < 64
    → 64 ≤ length buffer
    → fread_loop fuel buffer (front ++ (block ++ last)) ≡ outcome block last (drop 64 buffer)
fread_loop-blocks k zero buffer front block last h size full short room = ground arith
fread_loop-blocks zero (suc zero) buffer front block last h size full short room = ground arith
fread_loop-blocks zero (suc (suc fuel)) buffer [] block last h size full short room =
    fread_loop_full (suc fuel) buffer block last full room
    ∙ (fread_loop_last fuel (block ++ drop 64 buffer) last short
          (length-block block (drop 64 buffer) full)
        ∙ ap (λ zs. if ltb (length last) 8 then failed else at_end (last ++ zs))
            (drop-append (length last) block (drop 64 buffer) (omega arith)))
fread_loop-blocks zero (suc (suc fuel)) buffer (x ∷ front) block last h size full short room =
    ground arith
fread_loop-blocks (suc k) (suc fuel) buffer front block last h size full short room =
    let first : length (take 64 front) ≡ 64 = omega (arith, length-take 64 front) in
    let buffer' = take 64 front ++ drop 64 buffer in
    ap (λ f. fread_loop (suc fuel) buffer (f ++ (block ++ last))) (sym (take-append-drop 64 front))
    ∙ (ap (fread_loop (suc fuel) buffer)
          (append_assoc (take 64 front) (drop 64 front) (block ++ last))
        ∙ (fread_loop_full fuel buffer (take 64 front) (drop 64 front ++ (block ++ last)) first room
            ∙ (fread_loop-blocks k fuel buffer' (drop 64 front) block last (omega arith)
                  (omega (arith, length-drop 64 front)) full short
                  (length-block _ (drop 64 buffer) first)
                ∙ ap (outcome block last) (drop-block (take 64 front) (drop 64 buffer) first))))

drop-replicate : (n m : ℕ) → drop n (replicate {A = ℕ} m 0) ≡ replicate (m - n) 0
drop-replicate zero m = ap (λ k. replicate k 0) {x = m} {y = m - 0} (omega arith)
drop-replicate (suc n) zero = ap (λ k. replicate k 0) {x = 0} {y = 0 - suc n} (omega arith)
drop-replicate (suc n) (suc m) =
    drop-replicate n m ∙ ap (λ k. replicate k 0) {x = m - n} {y = suc m - suc n} (omega arith)

-- For a file of some whole blocks of 64 bytes, one more such block and a last part of less than
-- 64 bytes, the loop of copy_in over the file ends: with a read error where the last part has
-- less than 8 bytes, and else with the buffer that has the last part, the rest of the block in
-- front of it and zeros, whatever stands further in front in the file.
pub read_all-Overwritten :
    (k : ℕ) (front block last : List ℕ)
    → length front ≡ 64 * k
    → length block ≡ 64
    → length last < 64
    → read_all (length (front ++ (block ++ last))) (front ++ (block ++ last)) ≡ (
        if ltb (length last) 8
        then failed
        else at_end (last ++ (drop (length last) block ++ replicate (64 * k + length last + 1) 0)))
unfolding read_all
read_all-Overwritten k front block last size full short =
    let file = front ++ (block ++ last) in
    let n : length file ≡ 64 * k + 64 + length last =
      omega (arith, length-append front (block ++ last), length-append block last) in
    fread_loop-blocks k (length file / 64 + 2) (replicate (length file + 1) 0) front block last
      (omega (arith, n)) size full short
      (omega (arith, n, length-replicate {A = ℕ} (length file + 1) 0))
    ∙ ap (outcome block last)
        (drop-replicate 64 (length file + 1) ∙ ap (λ m. replicate m 0) (omega (arith, n)))
