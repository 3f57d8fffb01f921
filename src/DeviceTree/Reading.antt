-- ===== src/DeviceTree/Reading.antt =====
-- What source/dev/device_tree.c reads at a place of the flattened tree, from the bytes that stand there.
use raspberry_pi_os.Base.{
  ℕ, zero, suc, ◌+◌, ◌-◌, ◌*◌, ◌/◌, ◌%◌, ◌≤◌, ◌<◌, ◌≡◌, refl, ap, ◌∙◌, arith, List, [], ◌∷◌, ◌++◌,
  length, drop, ne→==,
}
use raspberry_pi_os.Text.Number.{c_string}
use raspberry_pi_os.Fs.Bytes.{u8_at}
use raspberry_pi_os.DeviceTree.{be32_at, bytes_at}
use raspberry_pi_os.DeviceTree.Format.{be32, zeros, AllNonzero}

drop-add : (xs : List ℕ) (i k q : ℕ) → q ≡ i + k → drop q xs ≡ drop k (drop i xs)
drop-add xs zero k q e = ap (λ t. drop t xs) (omega (arith, e))
drop-add [] (suc i) zero q e = drop_nil q
  where
    drop_nil : (q : ℕ) → drop {A = ℕ} q [] ≡ []
    drop_nil zero = refl
    drop_nil (suc q) = refl
drop-add [] (suc i) (suc k) zero e = absurd (omega arith)
drop-add [] (suc i) (suc k) (suc q) e = refl
drop-add (x ∷ xs) (suc i) k zero e = absurd (omega arith)
drop-add (x ∷ xs) (suc i) k (suc q) e = drop-add xs i k q (omega arith)

u8_at-drop : (xs : List ℕ) (i k q : ℕ) → q ≡ i + k → u8_at xs q ≡ u8_at (drop i xs) k
u8_at-drop xs zero k q e = ap (λ t. u8_at xs t) (omega (arith, e))
u8_at-drop [] (suc i) k q e = refl
u8_at-drop (x ∷ xs) (suc i) k zero e = absurd (omega arith)
u8_at-drop (x ∷ xs) (suc i) k (suc q) e = u8_at-drop xs i k q (omega arith)

-- What stands at a place, from what stands before it.
pub drop-at :
    (xs : List ℕ) (i k q : ℕ) {ys : List ℕ} → drop i xs ≡ ys → q ≡ i + k → drop q xs ≡ drop k ys
drop-at xs i k q here e = drop-add xs i k q e ∙ ap (drop k) here

be32-value :
    (v : ℕ)
    → v < 4294967296
    → 16777216 * (v / 16777216 % 256) + 65536 * (v / 65536 % 256) + 256 * (v / 256 % 256) + v % 256
      ≡ v
be32-value v fits = omega arith

pub be32_at-drop :
    (xs : List ℕ) (i v : ℕ) (rest : List ℕ)
    → drop i xs ≡ be32 v rest
    → v < 4294967296
    → be32_at xs i ≡ v
be32_at-drop xs i v rest here fits =
    rw
      (
        u8_at-drop xs i 0 i (omega arith),
        u8_at-drop xs i 1 (i + 1) refl,
        u8_at-drop xs i 2 (i + 2) refl,
        u8_at-drop xs i 3 (i + 3) refl,
        here,
      )
      (be32-value v fits)

pub bytes_at-drop :
    (xs : List ℕ) (i : ℕ) (value rest : List ℕ)
    → drop i xs ≡ value ++ rest
    → bytes_at xs i (length value) ≡ value
bytes_at-drop xs i [] rest here = refl
bytes_at-drop xs i (b ∷ value) rest here =
    let first : u8_at xs i ≡ b = u8_at-drop xs i 0 i (omega arith) ∙ ap (λ t. u8_at t 0) here in
    ap (λ t. t ∷ bytes_at xs (i + 1) (length value)) first
    ∙ ap (λ t. b ∷ t) (bytes_at-drop xs (i + 1) value rest (drop-at xs i 1 (i + 1) here refl))

pub drop-length : (xs rest : List ℕ) (k : ℕ) → drop (length xs + k) (xs ++ rest) ≡ drop k rest
drop-length [] rest k = ap (λ t. drop t rest) (omega arith)
drop-length (x ∷ xs) rest k =
    drop-add (x ∷ (xs ++ rest)) 1 (length xs + k) (suc (length xs) + k) (omega arith)
    ∙ drop-length xs rest k

pub drop-zeros : (k : ℕ) (rest : List ℕ) → drop k (zeros k rest) ≡ rest
drop-zeros zero rest = refl
drop-zeros (suc k) rest = drop-zeros k rest

pub c_string-name :
    (name : List ℕ) (k : ℕ) (rest : List ℕ)
    → AllNonzero name
    → 1 ≤ k
    → c_string (name ++ zeros k rest) ≡ name
unfolding c_string
c_string-name [] zero rest all positive = absurd (omega arith)
c_string-name [] (suc k) rest all positive = refl
c_string-name (c ∷ name) k rest (nonzero, all) positive =
    rw (ne→== c 0 nonzero, c_string-name name k rest all positive) refl

-- Behind bytes that are padded to some room.
pub drop-padded :
    (bytes rest : List ℕ) (room : ℕ)
    → length bytes ≤ room
    → drop room (bytes ++ zeros (room - length bytes) rest) ≡ rest
drop-padded bytes rest room fits =
    let k = room - length bytes in
    ap (λ t. drop t (bytes ++ zeros k rest)) (omega (arith, fits))
    ∙ drop-length bytes (zeros k rest) k
    ∙ drop-zeros k rest
