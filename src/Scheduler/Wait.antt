-- ===== src/Scheduler/Wait.antt =====
-- core/src/addon/scheduler.cpp: the order of wait states.
use fenestra_voli_edition.Base.{ℕ, ◌+◌, ◌%◌, ◌^◌, ◌<◌, ◌≡◌, ◌&&◌, leb, arith}
use fenestra_voli_edition.Scheduler.{is_due, size_t_mod}

-- A task that waits for the k-th frame from a frame on is due in the j-th exactly if its time has
-- come and k is at most j, also where the frame counter wraps around between them. Both are below
-- half the counter's range.
pub is_due_window :
    (t now f k j : ℕ)
    → f < size_t_mod
    → k < 2 ^ 31
    → j < 2 ^ 31
    → is_due
        (record { time = t; frame = (f + k) % size_t_mod })
        (record { time = now; frame = (f + j) % size_t_mod })
      ≡ (leb t now && leb k j)
unfolding is_due
is_due_window t now f k j hf hk hj = ground (arith, hf, hk, hj)
