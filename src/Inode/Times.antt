-- ===== src/Inode/Times.antt =====
-- The timestamps of an inode in libfsxfs_inode.c: what the code does to a time before 1970.
use libfsxfs.Prelude.{
  ℕ, ◌<◌, ◌≡◌, ◌↔◌, arith, Bool, true, false, ltb, ◌==◌, ◌||◌, ◌&&◌, if◌then◌else◌, refl,
}
use libfsxfs.Word.{u32_mod, u64_mod, add64, sub64, mul64, int_bits}
use libfsxfs.Inode.{timestamp_of, is_positive, is_nonzero}

-- The nanoseconds since 1970 of a signed count of seconds and the nanoseconds behind it.
abbrev pub nanoseconds_of : ℕ → ℕ → ℕ
nanoseconds_of seconds nano_seconds = add64 (mul64 (int_bits seconds) 1000000000) nano_seconds

-- A time moved by less than 2^32 up and down is the same only where it is not moved.
moved_apart : (t n : ℕ) → t < u64_mod → n < u32_mod → sub64 t n ≡ add64 t n → n ≡ 0
moved_apart t n h k e = omega arith

not_moved : (t n : ℕ) → t < u64_mod → n ≡ 0 → sub64 t n ≡ add64 t n
not_moved t n h e = omega arith

-- The seconds are positive exactly where their nanoseconds are.
positive-seconds :
    (s : ℕ)
    → s < u32_mod
    → is_positive (mul64 (int_bits s) 1000000000) ≡ (ltb 0 s && ltb s 2147483648)
positive-seconds s h = ground arith

-- `moved` is the test of the code, `after` what the seconds have to satisfy.
by_test :
    (moved after : Bool) (t n : ℕ)
    → moved ≡ after
    → t < u64_mod
    → n < u32_mod
    → ((if moved then add64 t n else sub64 t n) ≡ add64 t n) ↔ ((after || n == 0) ≡ true)
by_test true true t n e h k = ((λ _. refl), λ _. refl)
by_test true false t n e h k = absurd (let x : ⊥ = cc in x)
by_test false true t n e h k = absurd (let x : ⊥ = cc in x)
by_test false false t n e h k =
    ((λ g. let z = moved_apart t n h k g in ground arith), λ g. not_moved t n h (ground arith))

-- For a time of 32-bit seconds and nanoseconds, the modification, inode change and creation time
-- are the nanoseconds since 1970 exactly when the seconds are from 1 to 2^31 - 1 or there are no
-- nanoseconds.
pub timestamp_of_iff :
    (seconds nano_seconds : ℕ)
    → seconds < u32_mod
    → nano_seconds < u32_mod
    → (timestamp_of is_positive seconds nano_seconds ≡ nanoseconds_of seconds nano_seconds)
      ↔ ((ltb 0 seconds && ltb seconds 2147483648 || nano_seconds == 0) ≡ true)
unfolding timestamp_of
timestamp_of_iff s n h k =
    let t = mul64 (int_bits s) 1000000000 in
    by_test (is_positive t) (ltb 0 s && ltb s 2147483648) t n (positive-seconds s h) (omega arith) k

-- The seconds are not 0 exactly where their nanoseconds are not 0.
nonzero-seconds : (s : ℕ) → s < u32_mod → is_nonzero (mul64 (int_bits s) 1000000000) ≡ ltb 0 s
nonzero-seconds s h = ground arith

-- The access time is wrong only in the second 0.
pub access_time_iff :
    (seconds nano_seconds : ℕ)
    → seconds < u32_mod
    → nano_seconds < u32_mod
    → (timestamp_of is_nonzero seconds nano_seconds ≡ nanoseconds_of seconds nano_seconds)
      ↔ ((ltb 0 seconds || nano_seconds == 0) ≡ true)
unfolding timestamp_of
access_time_iff s n h k =
    let t = mul64 (int_bits s) 1000000000 in
    by_test (is_nonzero t) (ltb 0 s) t n (nonzero-seconds s h) (omega arith) k
