-- ===== src/Kernel/Devices/Lines.antt =====
-- The priorities of phase2/interrupts.c: `getLineNumber` and `getDeviceNumber` give the lowest line
-- and the lowest device, and the indices of the device semaphores.
use kaya_project.Base.{
  ℕ, zero, suc, ◌+◌, ◌-◌, ◌*◌, ◌≤◌, ◌<◌, ◌≡◌, refl, ◌⊎◌, inl, inr, Bool, true, false, arith,
  if◌then◌else◌, Bool-cases, ◌==◌,
}
use kaya_project.Base.Words.{check_bit}
use kaya_project.Machine.{Word, null}
use kaya_project.Kernel.Access.{clock_index}
use kaya_project.Kernel.Syscalls.{get_sem_array_num}
use kaya_project.Kernel.Devices.{get_line_number, lowest_device, get_dev_reg_index}

-- `r` is the first of `n` bits that is set, or NULL where none is.
abbrev pub Lowest : (ℕ → Bool) → ℕ → ℕ → Type 0
Lowest bit n r =
    ((r ≡ null) × ((j : ℕ) → j < n → bit j ≡ false))
    ⊎ ((r < n) × (bit r ≡ true) × ((j : ℕ) → j < r → bit j ≡ false))

-- The ladder of tests as a loop.
first_bit : ℕ → (ℕ → Bool) → ℕ → ℕ
first_bit zero bit i = null
first_bit (suc n) bit i = if bit i then i else first_bit n bit (suc i)

first_bit-Lowest :
    (n i m : ℕ) (bit : ℕ → Bool)
    → i + n ≡ m
    → ((j : ℕ) → j < i → bit j ≡ false)
    → Lowest bit m (first_bit n bit i)
unfolding first_bit
first_bit-Lowest zero i m bit e low = inl (refl, λ j lt. low j (omega arith))
first_bit-Lowest (suc n) i m bit e low = elim (Bool-cases (bit i)) [
  | inl hit ↦ rw hit (inr (omega arith, hit, low))
  | inr miss ↦ rw miss (
      first_bit-Lowest n (suc i) m bit (omega arith)
        λ j lt. elim (Bool-cases (j == i)) [ inl q ↦ ground arith | inr q ↦ low j (ground arith) ])
]

get_line_number-first_bit :
    (c : Word) → get_line_number c ≡ first_bit 8 (λ i. check_bit c (8 + i)) 0
unfolding get_line_number first_bit check_bit
get_line_number-first_bit c = refl

lowest_device-first_bit : (m : Word) → lowest_device m ≡ first_bit 8 (check_bit m) 0
unfolding lowest_device first_bit check_bit
lowest_device-first_bit m = refl

-- `getLineNumber` of a cause register is the lowest interrupt line with its bit set, and NULL where
-- none of the eight bits is set.
pub get_line_number-Lowest : (c : Word) → Lowest (λ i. check_bit c (8 + i)) 8 (get_line_number c)
get_line_number-Lowest c =
    rw (get_line_number-first_bit c)
      (first_bit-Lowest 8 0 8 (λ i. check_bit c (8 + i)) refl (λ j lt. absurd (omega arith)))

-- The ladder of `getDeviceNumber` gives the lowest bit that is set in the low eight bits of a line's
-- bit map, and NULL where none is.
pub lowest_device-Lowest : (m : Word) → Lowest (check_bit m) 8 (lowest_device m)
lowest_device-Lowest m =
    rw (lowest_device-first_bit m)
      (first_bit-Lowest 8 0 8 (check_bit m) refl (λ j lt. absurd (omega arith)))

-- The index of a device's semaphore is the one that the C means, without wrap-around.
pub get_sem_array_num-eq :
    (l d o : Word) → 3 ≤ l → l < 8 → d < 8 → o ≤ 8 → get_sem_array_num l d o ≡ (l - 3) * 8 + d + o
unfolding get_sem_array_num
get_sem_array_num-eq l d o lo hi dev off = ground arith

-- Where a terminal's receiver, and nothing else, has the offset 8.
abbrev pub IsDevice : (l d o : Word) → Type 0
IsDevice l d o = (3 ≤ l) × (d < 8) × (((l < 8) × (o ≡ 0)) ⊎ ((l ≡ 7) × (o ≡ 8)))

-- The 48 device semaphores are told apart by their indices.
pub get_sem_array_num-injective :
    (l d o l' d' o' : Word)
    → IsDevice l d o
    → IsDevice l' d' o'
    → get_sem_array_num l d o ≡ get_sem_array_num l' d' o'
    → (l ≡ l') × (d ≡ d') × (o ≡ o')
get_sem_array_num-injective l d o l' d' o' p q e =
    omega (arith, index_of l d o p, index_of l' d' o' q)
  where
    index_of : (l d o : Word) → IsDevice l d o → get_sem_array_num l d o ≡ (l - 3) * 8 + d + o
    index_of l d o p = get_sem_array_num-eq l d o p.0 (omega arith) p.1 (omega arith)

-- None of them is the pseudo clock's, 48.
pub get_sem_array_num-lt_clock :
    (l d o : Word) → IsDevice l d o → get_sem_array_num l d o < clock_index
get_sem_array_num-lt_clock l d o p =
    omega (arith, get_sem_array_num-eq l d o p.0 (omega arith) p.1 (omega arith))

pub get_dev_reg_index-eq :
    (l d : Word) → 3 ≤ l → l < 8 → d < 8 → get_dev_reg_index l d ≡ (l - 3) * 8 + d
unfolding get_dev_reg_index
get_dev_reg_index-eq l d lo hi dev = ground arith
