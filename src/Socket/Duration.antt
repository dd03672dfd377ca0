-- ===== src/Socket/Duration.antt =====
-- `to_timeval` and `to_duration` of socket.cpp and socket.h. A duration is its count of
-- microseconds, a signed number, and `duration_cast` cuts towards zero.
use sockpp.Prelude.{
  ℤ, pos, negsuc, ℕ, ◌+◌, ◌*◌, ◌/◌, ◌<◌, ◌≡◌, suc, pos_part, neg_part, arith, sub_ℕ, negate,
}

pub record Timeval : Type 0 where
  pub tv_sec : ℤ
  pub tv_usec : ℤ

-- `duration_cast` to a unit `k` times as long
abbrev pub cast_down : ℕ → ℤ → ℤ
cast_down k (pos n) = pos (n / k)
cast_down k (negsuc n) = negate (suc n / k)

-- `duration_cast` to a unit `k` times as short
abbrev pub cast_up : ℕ → ℤ → ℤ
cast_up k (pos n) = pos (n * k)
cast_up k (negsuc n) = negate (suc n * k)

-- `a - b` on counts
abbrev pub minus : ℤ → ℤ → ℤ
minus a b = sub_ℕ (pos_part a + neg_part b) (neg_part a + pos_part b)

unfoldable pub to_timeval : ℤ → Timeval
to_timeval dur =
    let sec = cast_down 1_000_000 dur in
    record { tv_sec = sec; tv_usec = minus dur (cast_up 1_000_000 sec) }

pub to_duration : Timeval → ℤ
to_duration tv =
    let sec = cast_up 1_000_000 tv.tv_sec in
    sub_ℕ (pos_part sec + pos_part tv.tv_usec) (neg_part sec + neg_part tv.tv_usec)

-- A duration comes back from its `timeval` exactly, the negative ones too, and the microseconds are
-- less than a second in size.
pub to_duration-to_timeval :
    (dur : ℤ)
    → (to_duration (to_timeval dur) ≡ dur)
      × (pos_part (to_timeval dur).tv_usec + neg_part (to_timeval dur).tv_usec < 1_000_000)
unfolding to_duration to_timeval
to_duration-to_timeval (pos n) = ground arith
to_duration-to_timeval (negsuc n) = ground arith
