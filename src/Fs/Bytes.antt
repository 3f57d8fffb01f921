-- ===== src/Fs/Bytes.antt =====
-- How the code reads numbers from a buffer of bytes, by casts of pointers: the lowest byte first.
use raspberry_pi_os.Base.{ℕ, zero, suc, ◌+◌, ◌*◌, List, [], ◌∷◌, get_or}

abbrev pub u8_at : List ℕ → ℕ → ℕ
u8_at bytes i = get_or bytes i 0

abbrev pub u16_at : List ℕ → ℕ → ℕ
u16_at bytes i = u8_at bytes i + 256 * u8_at bytes (i + 1)

abbrev pub u32_at : List ℕ → ℕ → ℕ
u32_at bytes i = u16_at bytes i + 65536 * u16_at bytes (i + 2)

-- Bytes written from some place of a buffer on; what does not fit is lost.
abbrev pub write_from : List ℕ → List ℕ → List ℕ
write_from buffer [] = buffer
write_from [] (b ∷ bytes) = []
write_from (c ∷ buffer) (b ∷ bytes) = b ∷ write_from buffer bytes

abbrev pub write_at : List ℕ → ℕ → List ℕ → List ℕ
write_at buffer zero bytes = write_from buffer bytes
write_at [] (suc i) bytes = []
write_at (c ∷ buffer) (suc i) bytes = c ∷ write_at buffer i bytes

abbrev pub u64_at : List ℕ → ℕ → ℕ
u64_at bytes i = u32_at bytes i + 4294967296 * u32_at bytes (i + 4)
