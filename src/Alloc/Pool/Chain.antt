-- ===== src/Alloc/Pool/Chain.antt =====
-- The list of free objects in memory, for source/alloc/pool.c.
use raspberry_pi_os.Base.{
  ℕ, ◌+◌, ◌≡◌, ◌≢◌, arith, false, List, [], ◌∷◌, ◌++◌, ◌==◌, if◌then◌else◌, eq→==, suc,
}
use raspberry_pi_os.Alloc.Pool.{write_word}

-- The objects that are linked from p on, up to the end of the list.
abbrev pub Chain : (ℕ → ℕ) → ℕ → List ℕ → Type 0
Chain word p [] = p ≡ 0
Chain word p (x ∷ xs) = (p ≡ x) × (x ≢ 0) × Chain word (word x) xs

-- How often an object stands in a list.
abbrev pub occurrences : ℕ → List ℕ → ℕ
occurrences object [] = 0
occurrences object (head ∷ rest) = occurrences object rest + (if object == head then 1 else 0)

pub occurrences-append :
    (object : ℕ) (front back : List ℕ)
    → occurrences object (front ++ back) ≡ occurrences object front + occurrences object back
occurrences-append object [] back = omega arith
occurrences-append object (head ∷ rest) back =
    let tail = occurrences-append object rest back in omega arith

pub occurrences-head :
    (a x : ℕ) (xs : List ℕ) → a ≡ x → occurrences a (x ∷ xs) ≡ suc (occurrences a xs)
occurrences-head a x xs e = rw (eq→== a x e) (omega arith)

-- A write to an object that is not in the list leaves the list.
pub Chain-write_word :
    (word : ℕ → ℕ) (p : ℕ) (xs : List ℕ) (a v : ℕ)
    → occurrences a xs ≡ 0
    → Chain word p xs
    → Chain (write_word word a v) p xs
Chain-write_word word p [] a v out c = c
Chain-write_word word p (x ∷ xs) a v out (e, ne, c) =
    let other : (x == a) ≡ false = ground arith in
    let rest : occurrences a xs ≡ 0 = omega arith in
    (e, ne, rw other (Chain-write_word word (word x) xs a v rest c))
