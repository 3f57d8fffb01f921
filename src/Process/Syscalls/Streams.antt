-- ===== src/Process/Syscalls/Streams.antt =====
-- `syscall_write` of source/syscalls/write.c and the numbers of the streams.
use raspberry_pi_os.Base.{
  ℕ, zero, suc, ◌-◌, ◌≡◌, refl, arith, List, [], ◌∷◌, ltb, ◌==◌, if◌then◌else◌, Bool-cases, inl,
  inr, eq→==, ==→eq, ==→ne, ltb→lt, ltb→le, lt→ltb, le→ltb,
}
use raspberry_pi_os.Process.Structs.{StreamDescriptor}
use raspberry_pi_os.Process.Lifecycle.Create.{AreNumbered}
use raspberry_pi_os.Process.Syscalls.{syscall_write}

abbrev pub AreCharDevices : List StreamDescriptor → Type 0
AreCharDevices [] = Unit {0}
AreCharDevices (i ∷ rest) = (i.dev_type ≡ 2) × AreCharDevices rest

-- The device at a place of the list.
abbrev pub dev_at : List StreamDescriptor → ℕ → ℕ
dev_at [] n = 0
dev_at (i ∷ rest) zero = i.dev
dev_at (i ∷ rest) (suc n) = dev_at rest n

-- With streams numbered from 0 in the order in which they were opened, all of them character devices,
-- a write goes once to the device that was opened as the one with the number of the file, the last one
-- being the first of the list, and returns the length; a number that no stream has writes nothing and
-- returns 0.
pub syscall_write_lem :
    {State : Type 0} (write_char : (dev ptr len : ℕ) → State → State)
    (streams : List StreamDescriptor) (count file ptr len : ℕ) (s : State)
    → AreNumbered streams count
    → AreCharDevices streams
    → syscall_write write_char streams file ptr len s ≡ (
        if ltb file count
        then (len, write_char (dev_at streams (count - 1 - file)) ptr len s)
        else (0, s))
unfolding syscall_write
syscall_write_lem write_char [] count file ptr len s numbered chars =
    rw (le→ltb file count (omega (arith, numbered))) refl
syscall_write_lem write_char (i ∷ rest) count file ptr len s (number, numbered) (char, chars) =
    elim (Bool-cases (i.id == file)) [
      | inl here ↦
          let e = ==→eq i.id file here in
          let at : count - 1 - file ≡ 0 = omega arith in
          rw (here, eq→== i.dev_type 2 char, lt→ltb file count (omega arith), at) refl
      | inr other ↦
          let ne = ==→ne i.id file other in
          let later = syscall_write_lem write_char rest i.id file ptr len s numbered chars in
          elim (Bool-cases (ltb file i.id)) [
            | inl below ↦
                let lt = ltb→lt file i.id below in
                let at : count - 1 - file ≡ suc (i.id - 1 - file) = omega arith in
                let later' : syscall_write write_char rest file ptr len s
                    ≡ (len, write_char (dev_at rest (i.id - 1 - file)) ptr len s) =
                  rw below at later in
                rw (other, lt→ltb file count (omega arith), at) later'
            | inr above ↦
                let le = ltb→le file i.id above in
                let later' : syscall_write write_char rest file ptr len s ≡ (0, s) =
                  rw above at later in
                rw (other, le→ltb file count (omega arith)) later'
          ]
    ]
