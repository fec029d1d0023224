-- ===== src/Operations/Waiting.antt =====
-- The wait of `stopService` for a process that is told to stop.
use netflix_pbrd.Base.{
  ℕ, zero, suc, ◌+◌, ◌*◌, ◌≤◌, ◌≡◌, refl, inl, inr, false, Result, ok, err, arith, ltb, Bool-cases,
}
use netflix_pbrd.Operations.Machine.{Machine, Signal, sent, no_process, refused}
use netflix_pbrd.Operations.Uninstall.{wait_gone, did_not_stop, poll_again}

module _ {W : Type 0} (m : Machine W) where
  -- A clock that does not go back, and that a sleep takes forward at least as long as it was asked
  -- to.
  pub record Clock : Type 0 where
    pub time : W → ℕ
    pub reads :
        (w : W) → (time w ≤ (m.system.now w).1) × ((m.system.now w).1 ≤ time (m.system.now w).0)
    pub kills : (pid signal : ℕ) (w : W) → time w ≤ time (m.kill pid signal w).0
    pub sleeps : (d : ℕ) (w : W) → time w + d ≤ time (m.sleep d w)

  module _ (clock : Clock) (pid deadline : ℕ) where
    open clock use {time}

    -- The number of rounds that the deadline leaves.
    abbrev Leaves : ℕ → W → Type 0
    Leaves rounds w = deadline ≤ time w + rounds * 100000000

    abbrev next_world : W → W
    next_world w = m.sleep 100000000 (m.kill pid 0 (m.system.now w).0).0

    Leaves-sleep : (rounds : ℕ) (w : W) → Leaves (suc rounds) w → Leaves rounds (next_world w)
    Leaves-sleep rounds w h =
        let (read, passed) = clock.reads w in
        let killed = clock.kills pid 0 (m.system.now w).0 in
        let slept = clock.sleeps 100000000 (m.kill pid 0 (m.system.now w).0).0 in omega arith

    -- What the wait ends in: the kernel knows no such process, or the deadline has come.
    abbrev pub Ends : W × Result (Unit {0}) → Type 0
    Ends (w, ok u) = (v : W) × (m.kill pid 0 v ≡ (w, no_process))
    Ends (w, err e) = (e ≡ did_not_stop m pid) × (deadline ≤ time w)

    again :
        (f g : W → W × Result (Unit {0})) (v : W) (r : W × Signal)
        → m.kill pid 0 v ≡ r
        → f (m.sleep 100000000 r.0) ≡ g (m.sleep 100000000 r.0)
        → Ends (g (m.sleep 100000000 r.0))
        → (poll_again m f r ≡ poll_again m g r) × Ends (poll_again m g r)
    again f g v (w, sent) k h e = (h, e)
    again f g v (w, no_process) k h e = (refl, (v, k))
    again f g v (w, refused x) k h e = (h, e)

    -- With a clock that does not go back, and for as many rounds as the deadline leaves, and any
    -- number more, the wait of `stopService` has the same result: it succeeds when the kernel has
    -- answered that there is no such process, or fails once the deadline has come.
    pub wait_gone-Ends :
        (rounds more : ℕ) (w : W)
        → deadline ≤ time w + rounds * 100000000
        → rounds ≤ more
        → (wait_gone m (suc more) pid deadline w ≡ wait_gone m (suc rounds) pid deadline w)
          × Ends (wait_gone m (suc rounds) pid deadline w)
    unfolding wait_gone
    wait_gone-Ends zero more w h le =
        let (read, passed) = clock.reads w in
        let late : ltb (m.system.now w).1 deadline ≡ false = ground arith in
        rw late (refl, (refl, omega arith))
    wait_gone-Ends (suc rounds) zero w h le = absurd (omega arith)
    wait_gone-Ends (suc rounds) (suc more) w h le =
        elim (Bool-cases (ltb (m.system.now w).1 deadline)) [
          | inr late ↦ rw late (refl, (refl, let (read, passed) = clock.reads w in ground arith))
          | inl early ↦
              let (same, ends) =
                wait_gone-Ends rounds more (next_world w) (Leaves-sleep rounds w h) (omega arith) in
              rw early (
                again (wait_gone m (suc more) pid deadline) (wait_gone m (suc rounds) pid deadline)
                  (m.system.now w).0 (m.kill pid 0 (m.system.now w).0) refl same ends)
        ]
