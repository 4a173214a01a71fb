-- ===== src/Qmp/Balloon.antt =====
-- The wait for the balloon ends, and why.
use user_mode_nixos.Prelude.{
  ℕ, zero, suc, ◌+◌, ◌*◌, ◌/◌, ◌≤◌, ◌<◌, true, false, if◌then◌else◌, ltb, leb, nat_eq, leb→le,
  subst, ◌-◌, ◌≡◌, ◌≢◌, inl, inr, Bool-cases, arith,
}
use user_mode_nixos.Machine.Memory.{Delta}
use user_mode_nixos.Qmp.{slack, stall, distance, Query, Ballooned, target_of, wait_loop, balloon}

wait_loop-ends :
    (rounds : ℕ) (queries : ℕ → Query) (now deadline target last moved_at : ℕ)
    → deadline ≤ now + rounds * 200
    → wait_loop (suc rounds) queries now deadline target last moved_at ≢ Ballooned.out_of_rounds
unfolding wait_loop
wait_loop-ends zero queries now deadline target last moved_at h e = ground arith
wait_loop-ends (suc rounds) queries now deadline target last moved_at h e =
    let then_at = (now + 200) + (queries 0).took in
    let later = λ (l m : ℕ).
      wait_loop-ends rounds (λ k. queries (suc k)) then_at deadline target l m (omega arith) in
    ground (arith, later (queries 0).actual then_at, later (queries 0).actual moved_at)

wait_loop-saw :
    (rounds : ℕ) (queries : ℕ → Query) (now deadline target last moved_at n : ℕ)
    → (wait_loop rounds queries now deadline target last moved_at ≡ Ballooned.arrived n
        → (k : ℕ) × ((queries k).actual ≡ n) × (distance n target ≤ slack))
      × (wait_loop rounds queries now deadline target last moved_at ≡ Ballooned.stalled n
          → (k : ℕ) × ((queries k).actual ≡ n) × (slack < distance n target))
unfolding wait_loop
wait_loop-saw zero queries now deadline target last moved_at n = (λ h. cc, λ h. cc)
wait_loop-saw (suc rounds) queries now deadline target last moved_at n =
    let seen = (queries 0).actual in
    let then_at = (now + 200) + (queries 0).took in
    let moved = if nat_eq seen last then false else true in
    let later =
      wait_loop-saw rounds (λ k. queries (suc k)) then_at deadline target seen
        (if moved then then_at else moved_at) n in
    elim (Bool-cases (leb (distance seen target) slack)) [
      | inl near ↦ (
        λ h.
            let e : seen ≡ n = ground arith in
            (0, e, subst (λ a. distance a target ≤ slack) (e) (leb→le _ _ near)),
        λ h. ground arith,
      )
      | inr far ↦ (
        λ h. let (k, e, d) = later.0 (ground arith) in (suc k, e, d),
        λ h. elim (Bool-cases (if moved then false else ltb stall (then_at - moved_at))) [
          | inl still ↦
              let e : seen ≡ n = ground arith in
              (0, e, subst (λ a. slack < distance a target) (e) (ground arith))
          | inr going ↦ let (k, e, d) = later.1 (ground arith) in (suc k, e, d)
        ],
      )
    ]

-- If each query is answered, whatever its answer and however late, `balloon` returns after no more
-- rounds than there are fifths of a second in its timeout, and two; the time of a query itself has no
-- bound. Where it returns because the guest
-- arrived, the guest had in some round what it reports, within the slack of the target; and where
-- because the guest stalled, further off than that.
pub balloon_returns :
    (queries : ℕ → Query) (now timeout actual : ℕ) (delta : Delta)
    → let end = balloon (suc (suc (timeout / 200))) queries now timeout actual delta in
      let target = target_of actual delta in
      (end ≢ Ballooned.out_of_rounds)
      × ((n : ℕ)
          → end ≡ Ballooned.arrived n
          → (k : ℕ) × ((queries k).actual ≡ n) × (distance n target ≤ slack))
      × ((n : ℕ)
          → end ≡ Ballooned.stalled n
          → (k : ℕ) × ((queries k).actual ≡ n) × (slack < distance n target))
unfolding balloon
balloon_returns queries now timeout actual delta =
    let rounds = suc (timeout / 200) in
    let deadline = now + timeout in
    let target = target_of actual delta in
    let saw = wait_loop-saw (suc rounds) queries now deadline target actual now in
    (
      wait_loop-ends rounds queries now deadline target actual now (omega arith),
      λ n. (saw n).0,
      λ n. (saw n).1,
    )
