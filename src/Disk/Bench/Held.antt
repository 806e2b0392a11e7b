-- ===== src/Disk/Bench/Held.antt =====
-- The descriptors that are open after some calls; filling the file leaves none of its own.
use llm_river.Base.Int.{ℤ, pos, negsuc, pos_part, ltb_ℤ, leb_ℤ}
use llm_river.Base.{
  ℕ, zero, suc, ◌+◌, ◌-◌, ◌^◌, ◌%◌, ◌≤◌, ◌<◌, Bool, true, false, ◌&&◌, some, List, [], ◌∷◌, ◌≡◌,
  refl, ap, ◌∙◌, arith, Bool-cases, inl, inr, if◌then◌else◌, ltb, Bytes,
}
use llm_river.Disk.Bench.{write_loop, create_file, is_size, is_negative, prepare_file}
use llm_river.Disk.{
  System, Call, stat, open_write, open_direct, open_read, write, close, pread, fadvise, chunk_bytes,
}

abbrev eq_ℤ : ℤ → ℤ → Bool
eq_ℤ a b = leb_ℤ a b && leb_ℤ b a

-- The list without the first `fd` in it.
abbrev pub without : ℤ → List ℤ → List ℤ
without fd [] = []
without fd (x ∷ xs) = if eq_ℤ x fd then xs else x ∷ without fd xs

abbrev pub gained : ℤ → List ℤ → List ℤ
gained fd others = if is_negative fd then others else fd ∷ others

-- The descriptors that the calls have opened and not closed.
abbrev pub held : System → List Call → List ℤ
held system [] = []
held system (open_write path ∷ h) = gained (system h (open_write path)) (held system h)
held system (open_direct path ∷ h) = gained (system h (open_direct path)) (held system h)
held system (open_read path ∷ h) = gained (system h (open_read path)) (held system h)
held system (close fd ∷ h) = without fd (held system h)
held system (stat path ∷ h) = held system h
held system (write fd count ∷ h) = held system h
held system (pread fd count offset ∷ h) = held system h
held system (fadvise fd offset len ∷ h) = held system h

eq_ℤ_self : (v : ℤ) → eq_ℤ v v ≡ true
eq_ℤ_self (pos n) = ground arith
eq_ℤ_self (negsuc n) = ground arith

pub without_first : (fd : ℤ) (xs : List ℤ) → without fd (fd ∷ xs) ≡ xs
without_first fd xs = rw (eq_ℤ_self fd) refl

-- What a call returns is an `ssize_t`.
pub record FitsLong (system : System) : Type 0 where
  pub fits : (h : List Call) (c : Call) → pos_part (system h c) < 2 ^ 63

module _ (system : System) (long : FitsLong system) where
  write_loop-held :
      (f : ℕ) (fd : ℤ) (size written : ℕ) (calls : List Call)
      → size < 2 ^ 63
      → size - written < f
      → (calls' : List Call) × (write_loop f system fd size written calls ≡ some calls')
        × (held system calls' ≡ held system calls)
  unfolding write_loop
  write_loop-held zero fd size written calls small h = elim h [ ]
  write_loop-held (suc f) fd size written calls small h = elim (Bool-cases (ltb written size)) [
    | inr e ↦ (calls, rw e refl, refl)
    | inl e ↦
        let n = system calls (write fd chunk_bytes) in
        let calls' = write fd chunk_bytes ∷ calls in
        elim (Bool-cases (ltb_ℤ (pos 0) n)) [
          | inr e' ↦ (calls', rw (e, e') refl, refl)
          | inl e' ↦
              let le = long.fits calls (write fd chunk_bytes) in
              let below : written < size = ground arith in
              let some_bytes : 1 ≤ pos_part n = positive n e' in
              let (done, ran, same) =
                write_loop-held f fd size ((written + pos_part n) % 2 ^ 64) calls' small
                  (omega arith) in
              (done, rw (e, e', ran) refl, same)
        ]
  ]
    where
      positive : (n : ℤ) → ltb_ℤ (pos 0) n ≡ true → 1 ≤ pos_part n
      positive (pos n) e = ground arith
      positive (negsuc n) e = ground arith

  create_file-held :
      (fuel : ℕ) (room : Bool) (path : Bytes) (size : ℕ) (calls : List Call)
      → size < 2 ^ 63
      → size < fuel
      → (calls' : List Call) × (create_file fuel system room path size calls ≡ some calls')
        × (held system calls' ≡ held system calls)
  unfolding create_file
  create_file-held fuel room path size calls small enough =
      let fd = system calls (open_write path) in
      let opened = open_write path ∷ calls in
      elim (Bool-cases (is_negative fd)) [
        | inl e ↦ (opened, rw e refl, rw e refl)
        | inr e ↦
            let (c, ran, same) = filled room in
            (
              close fd ∷ c,
              rw (e, ran) refl,
              ap (without fd) (same ∙ kept e) ∙ without_first fd (held system calls),
            )
      ]
    where
      kept :
          is_negative (system calls (open_write path)) ≡ false
          → held system (open_write path ∷ calls)
            ≡ system calls (open_write path) ∷ held system calls
      kept e = rw e refl

      filled :
          (b : Bool)
          → (c : List Call) × ((if b
                then write_loop fuel system
                    (system calls (open_write path))
                    size
                    0
                    (open_write path ∷ calls)
                else some (open_write path ∷ calls))
              ≡ some c)
            × (held system c ≡ held system (open_write path ∷ calls))
      filled true =
          write_loop-held fuel (system calls (open_write path)) size 0 (open_write path ∷ calls)
            small (omega arith)
      filled false = (open_write path ∷ calls, refl, refl)

  pub prepare_file-held :
      (fuel : ℕ) (room : Bool) (path : Bytes) (size : ℕ) (calls : List Call)
      → size < 2 ^ 63
      → size < fuel
      → (calls' : List Call) × (prepare_file fuel system room path size calls ≡ some calls')
        × (held system calls' ≡ held system calls)
  unfolding prepare_file
  prepare_file-held fuel room path size calls small enough =
      elim (Bool-cases (is_size (system calls (stat path)) size)) [
        | inl e ↦ (stat path ∷ calls, rw e refl, refl)
        | inr e ↦
            let (c, ran, same) =
              create_file-held fuel room path size (stat path ∷ calls) small enough in
            (c, rw (e, ran) refl, same)
      ]
