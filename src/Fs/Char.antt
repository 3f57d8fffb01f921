-- ===== src/Fs/Char.antt =====
-- source/dev/char.c: the calls of a character device go to the driver if it has them. `State` is the
-- state of the driver with the device; a call returns a count, the bytes that it reads, and the state.
use raspberry_pi_os.Base.{
  ℕ, suc, ◌+◌, ◌-◌, ◌^◌, Option, none, some, List, [], ◌∷◌, take, ◌≡◌, refl, ap, ◌∙◌, arith,
  Bool-cases, inl, inr, ◌==◌,
}
use raspberry_pi_os.Text.Number.{c_string}
use raspberry_pi_os.Text.Strings.{strlen}

pub record CharDev (State : Type 0) : Type 0 where
  pub driver_read : Option (State → (count : ℕ) → ℕ × List ℕ × State)
  pub driver_write : Option (State → (buf : List ℕ) → ℕ × State)

take-strlen : (buf : List ℕ) → take (strlen buf) buf ≡ c_string buf
unfolding strlen c_string
take-strlen [] = refl
take-strlen (c ∷ buf) = elim (Bool-cases (c == 0)) [
  | inl here ↦ rw here refl
  | inr more ↦
      let one_more : 1 + strlen buf ≡ suc (strlen buf) = omega arith in
      rw more (ap (λ t. take t (c ∷ buf)) one_more ∙ ap (λ t. c ∷ t) (take-strlen buf))
]

module _ {State : Type 0} where
  -- −1, of 64 bits, when the driver cannot read.
  unfoldable pub read_with :
      Option (State → (count : ℕ) → ℕ × List ℕ × State) → State → (count : ℕ) → ℕ × List ℕ × State
  read_with none s count = (2 ^ 64 - 1, [], s)
  read_with (some f) s count = f s count

  unfoldable pub read_char : CharDev State → State → (count : ℕ) → ℕ × List ℕ × State
  read_char dev s count = read_with dev.driver_read s count

  unfoldable pub write_with :
      Option (State → (buf : List ℕ) → ℕ × State) → State → (buf : List ℕ) → ℕ × State
  write_with none s buf = (2 ^ 64 - 1, s)
  write_with (some f) s buf = f s buf

  -- The first bytes of the buffer.
  unfoldable pub write_char : CharDev State → State → (buf : List ℕ) (count : ℕ) → ℕ × State
  write_char dev s buf count = write_with dev.driver_write s (take count buf)

  unfoldable pub write_string_char : CharDev State → State → (buf : List ℕ) → ℕ × State
  write_string_char dev s buf = write_char dev s buf (strlen buf)

  -- A text in a buffer reaches a driver that can write without its zero and what stands behind it.
  pub write_string_char_lem :
      (dev : CharDev State) (f : State → (buf : List ℕ) → ℕ × State) (s : State) (buf : List ℕ)
      → dev.driver_write ≡ some f
      → write_string_char dev s buf ≡ f s (c_string buf)
  unfolding write_string_char write_char write_with
  write_string_char_lem dev f s buf e = rw e (ap (f s) (take-strlen buf))
