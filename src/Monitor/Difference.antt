-- ===== src/Monitor/Difference.antt =====
-- DiffTime as a subtraction.
use cmsc_624_spring.Common.{
  ◌+◌, ◌*◌, ◌<◌, ◌≡◌, true, false, arith, Bool-cases, inl, inr, ℤ, pos, ◌+ℤ◌, ◌-ℤ◌, is_negative,
  above_zero, below_zero, difference, +ℤ_lem, -ℤ_lem, one_part, negative_part, same_balance,
  difference_lem, -ℤ_positive, +ℤ_positive,
}
use cmsc_624_spring.Monitor.{Timespec, billion, diff_time}

-- A time in nanoseconds.
unfoldable pub nanoseconds : Timespec → ℤ
nanoseconds t =
    difference (above_zero t.tv_sec * billion + above_zero t.tv_nsec)
      (below_zero t.tv_sec * billion + below_zero t.tv_nsec)

nanoseconds_lem :
    (t : Timespec)
    → above_zero (nanoseconds t) + (below_zero t.tv_sec * billion + below_zero t.tv_nsec)
      ≡ below_zero (nanoseconds t) + (above_zero t.tv_sec * billion + above_zero t.tv_nsec)
unfolding nanoseconds
nanoseconds_lem t =
    difference_lem (above_zero t.tv_sec * billion + above_zero t.tv_nsec)
      (below_zero t.tv_sec * billion + below_zero t.tv_nsec)

-- The nanoseconds count up to a second.
pub record IsNormal (t : Timespec) : Type 0 where
  pub positive : is_negative t.tv_nsec ≡ false
  pub small : above_zero t.tv_nsec < billion

module _ (end start : Timespec) (e : IsNormal end) (s : IsNormal start) where
  abbrev plain : Timespec
  plain = record { tv_sec = end.tv_sec -ℤ start.tv_sec; tv_nsec = end.tv_nsec -ℤ start.tv_nsec }

  abbrev borrowed : Timespec
  borrowed = record {
    tv_sec = end.tv_sec -ℤ start.tv_sec -ℤ pos 1;
    tv_nsec = pos billion +ℤ end.tv_nsec -ℤ start.tv_nsec;
  }

  nsec_lem :
      above_zero (end.tv_nsec -ℤ start.tv_nsec) + above_zero start.tv_nsec
      ≡ below_zero (end.tv_nsec -ℤ start.tv_nsec) + above_zero end.tv_nsec
  nsec_lem = omega (
    arith,
    one_part end.tv_nsec e.positive,
    one_part start.tv_nsec s.positive,
    -ℤ_lem end.tv_nsec start.tv_nsec,
  )

  plain-IsNormal : is_negative plain.tv_nsec ≡ false → IsNormal plain
  plain-IsNormal h = record {
    positive = h;
    small = omega (arith, nsec_lem, one_part plain.tv_nsec h, e.small);
  }

  plain_lem : nanoseconds plain ≡ nanoseconds end -ℤ nanoseconds start
  plain_lem = same_balance (nanoseconds plain) (nanoseconds end -ℤ nanoseconds start) (
      omega (
        arith,
        nanoseconds_lem plain,
        nanoseconds_lem end,
        nanoseconds_lem start,
        -ℤ_lem (nanoseconds end) (nanoseconds start),
        -ℤ_lem end.tv_sec start.tv_sec,
        -ℤ_lem end.tv_nsec start.tv_nsec,
      ))

  sum_lem :
      (above_zero (pos billion +ℤ end.tv_nsec) ≡ billion + above_zero end.tv_nsec)
      × (below_zero (pos billion +ℤ end.tv_nsec) ≡ 0)
  sum_lem =
      let positive =
        +ℤ_positive (pos billion) end.tv_nsec (omega (arith, one_part end.tv_nsec e.positive)) in
      let whole = one_part (pos billion +ℤ end.tv_nsec) positive in
      (
        omega (arith, +ℤ_lem (pos billion) end.tv_nsec, one_part end.tv_nsec e.positive, whole),
        whole,
      )

  borrowed-IsNormal : is_negative plain.tv_nsec ≡ true → IsNormal borrowed
  borrowed-IsNormal h =
      let nonneg =
        -ℤ_positive (pos billion +ℤ end.tv_nsec) start.tv_nsec
          (omega (arith, sum_lem.0, sum_lem.1, s.small)) in
      record {
        positive = nonneg;
        small = omega (
          arith,
          nsec_lem,
          negative_part plain.tv_nsec h,
          one_part borrowed.tv_nsec nonneg,
          -ℤ_lem (pos billion +ℤ end.tv_nsec) start.tv_nsec,
          sum_lem.0,
          sum_lem.1,
          one_part start.tv_nsec s.positive,
        );
      }

  borrowed_lem : nanoseconds borrowed ≡ nanoseconds end -ℤ nanoseconds start
  borrowed_lem = same_balance (nanoseconds borrowed) (nanoseconds end -ℤ nanoseconds start) (
      omega (
        arith,
        nanoseconds_lem borrowed,
        nanoseconds_lem end,
        nanoseconds_lem start,
        -ℤ_lem (nanoseconds end) (nanoseconds start),
        -ℤ_lem end.tv_sec start.tv_sec,
        -ℤ_lem (end.tv_sec -ℤ start.tv_sec) (pos 1),
        +ℤ_lem (pos billion) end.tv_nsec,
        -ℤ_lem (pos billion +ℤ end.tv_nsec) start.tv_nsec,
      ))

-- The difference of two normal times is normal, and its nanoseconds are those of the end less those
-- of the start, whichever of the two is later.
pub diff_time_lem :
    (end start : Timespec)
    → IsNormal end
    → IsNormal start
    → IsNormal (diff_time end start)
      × (nanoseconds (diff_time end start) ≡ nanoseconds end -ℤ nanoseconds start)
unfolding diff_time
diff_time_lem end start e s = elim (Bool-cases (is_negative (end.tv_nsec -ℤ start.tv_nsec))) [
  | inl h ↦ rw h (borrowed-IsNormal end start e s h, borrowed_lem end start e s)
  | inr h ↦ rw h (plain-IsNormal end start e s h, plain_lem end start e s)
]
