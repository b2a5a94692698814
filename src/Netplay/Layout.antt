-- ===== src/Netplay/Layout.antt =====
-- Arrays that are written part by part, each behind the one before, and slices of them.
use proto_time.Base.{
  ℕ, zero, suc, ◌+◌, ◌-◌, ◌≤◌, ◌<◌, ◌≡◌, refl, sym, ap, ◌∙◌, List, [], ◌∷◌, ◌++◌, arith, length,
  get_or, take, drop, replicate, length-append, take-append, length-take, get_or-drop, get_or-take,
}
use mathlib.Core.List.{append_assoc, append-nil}
use proto_time.Netplay.Wire.{slice, put}

abbrev pub parts_total : List (List ℕ) → ℕ
parts_total [] = 0
parts_total (p ∷ ps) = length p + parts_total ps

abbrev pub concat : List (List ℕ) → List ℕ
concat [] = []
concat (p ∷ ps) = p ++ concat ps

abbrev pub nth : List (List ℕ) → ℕ → List ℕ
nth [] k = []
nth (p ∷ ps) zero = p
nth (p ∷ ps) (suc k) = nth ps k

abbrev pub offset : List (List ℕ) → ℕ → ℕ
offset [] k = 0
offset (p ∷ ps) zero = 0
offset (p ∷ ps) (suc k) = length p + offset ps k

pub length-concat : (ps : List (List ℕ)) → length (concat ps) ≡ parts_total ps
length-concat [] = refl
length-concat (p ∷ ps) = omega (arith, length-append p (concat ps), length-concat ps)

drop-append_past : (xs ys : List ℕ) (n : ℕ) → drop (length xs + n) (xs ++ ys) ≡ drop n ys
drop-append_past [] ys n = ap (λ k. drop k ys) (omega arith)
drop-append_past (x ∷ xs) ys n =
    ap (λ k. drop k (x ∷ xs ++ ys)) (the_suc (length xs) n) ∙ drop-append_past xs ys n
  where
    the_suc : (a b : ℕ) → suc a + b ≡ suc (a + b)
    the_suc a b = omega arith

-- A slice at the place of a part is the part.
slice-concat :
    (ps : List (List ℕ)) (k : ℕ) → slice (concat ps) (offset ps k) (length (nth ps k)) ≡ nth ps k
slice-concat [] k = refl
slice-concat (p ∷ ps) zero = take-append p (concat ps)
slice-concat (p ∷ ps) (suc k) =
    ap (take (length (nth ps k))) (drop-append_past p (concat ps) (offset ps k)) ∙ slice-concat ps k

concat-snoc : (ps : List (List ℕ)) (v : List ℕ) → concat (ps ++ (v ∷ [])) ≡ concat ps ++ v
concat-snoc [] v = append-nil v
concat-snoc (p ∷ ps) v = ap (λ r. p ++ r) (concat-snoc ps v) ∙ sym (append_assoc p (concat ps) v)

unfoldable pub zeros : ℕ → List ℕ
zeros n = replicate n 0

-- An array that is written so far, with `n` bytes of zero behind.
unfoldable pub Written : List ℕ → List (List ℕ) → ℕ → Type 0
Written w ps n = w ≡ concat ps ++ zeros n

pub start-Written : Written (replicate 196 0) [] 196
unfolding Written zeros
start-Written = refl

drop-zeros : (m n : ℕ) → m ≤ n → drop m (zeros n) ≡ zeros (n - m)
unfolding zeros
drop-zeros zero n h = ap (λ k. replicate k 0) (omega arith)
drop-zeros (suc m) zero h = absurd (omega arith)
drop-zeros (suc m) (suc n) h = drop-zeros m n (omega arith) ∙ ap (λ k. replicate k 0) (omega arith)

pub put-Written :
    (w : List ℕ) (ps : List (List ℕ)) (v : List ℕ) (at n m : ℕ)
    → Written w ps n
    → parts_total ps ≡ at
    → length v ≡ m
    → m ≤ n
    → Written (put w at v) (ps ++ (v ∷ [])) (n - m)
unfolding Written
put-Written w ps v at n m e t l h =
    let c = concat ps in
    let total : length c ≡ at = length-concat ps ∙ t in
    rw (e, sym total, l)
      (rw
        (
          take-append c (zeros n),
          drop-append_past c (zeros n) m,
          drop-zeros m n h,
          concat-snoc ps v,
        )
        (sym (append_assoc c v (zeros (n - m)))))

zeros-add : (m n : ℕ) → zeros (m + n) ≡ zeros m ++ zeros n
unfolding zeros
zeros-add zero n = ap (λ k. replicate k 0) (omega arith)
zeros-add (suc m) n = ap (λ k. replicate k 0) (suc_add m n) ∙ ap (λ r. 0 ∷ r) (zeros-add m n)
  where
    suc_add : (a b : ℕ) → suc a + b ≡ suc (a + b)
    suc_add a b = omega arith

pub pad-Written :
    (w : List ℕ) (ps : List (List ℕ)) (m n : ℕ)
    → Written w ps (m + n)
    → Written w (ps ++ (zeros m ∷ [])) n
unfolding Written
pad-Written w ps m n e =
    rw (e, zeros-add m n, concat-snoc ps (zeros m))
      (sym (append_assoc (concat ps) (zeros m) (zeros n)))

pub field-at :
    (w : List ℕ) (ps : List (List ℕ)) (k at n : ℕ)
    → w ≡ concat ps
    → offset ps k ≡ at
    → length (nth ps k) ≡ n
    → slice w at n ≡ nth ps k
field-at w ps k at n e o l = rw (e, sym o, sym l) (slice-concat ps k)

-- A byte of a part.
pub byte-at :
    (w : List ℕ) (ps : List (List ℕ)) (k at n i : ℕ)
    → w ≡ concat ps
    → offset ps k ≡ at
    → length (nth ps k) ≡ n
    → i < n
    → get_or w (at + i) 0 ≡ get_or (nth ps k) i 0
byte-at w ps k at n i e o l h =
    sym (get_or-drop {A = ℕ} at w i 0)
    ∙ sym (get_or-take {A = ℕ} n (drop at w) i 0 h)
    ∙ ap (λ s. get_or s i 0) (field-at w ps k at n e o l)

pub take-put :
    (w : List ℕ) (at : ℕ) (v : List ℕ) → at ≤ length w → slice (put w at v) 0 at ≡ slice w 0 at
take-put w at v h =
    let t : length (take at w) ≡ at = omega (arith, length-take at w) in
    ap (λ n. take n (put w at v)) (sym t) ∙ take-append (take at w) (v ++ drop (at + length v) w)
