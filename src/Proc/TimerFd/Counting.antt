-- ===== src/Proc/TimerFd/Counting.antt =====
-- One refresh of a timer of kernel/src/proc/timerfd.rs: what it counts, and the next deadline.
use roanix.Prelude.{
  ℕ, zero, suc, ◌+◌, ◌-◌, ◌*◌, ◌/◌, ◌≤◌, ◌<◌, ◌≡◌, refl, ap, ◌∙◌, ◌||◌, false, ◌⊎◌, inl, inr, ltb,
  ltb→lt, ◌==◌, saturating_add, saturating_mul, u64_max, arith, Bool-cases,
}
use native.Mathlib.Nat.{div-add-mod, mod-lt}
use roanix.Proc.TimerFd.{TimerState, refresh}

-- The timer was armed for `first` and every `interval` from there on, `count` expirations have
-- been counted until the instant `last`, and the next one is due at the deadline.
pub record Counts (first interval count last : ℕ) (s : TimerState) : Type 0 where
  pub period : s.interval_ns ≡ interval
  pub due : s.deadline_ns ≡ first + interval * count
  pub later : (count ≡ 0) ⊎ (s.deadline_ns ≤ last + interval)
  pub armed : 0 < s.deadline_ns

le-times : (k n : ℕ) → 0 < k → n ≤ k * n
le-times zero n h = elim h [ ]
le-times (suc k) n h = omega arith

-- The number of periods of length `k` that fit into `n`, the last of them begun.
periods :
    (k n : ℕ)
    → 0 < k
    → (k * (n / k + 1) ≤ n + k) × (n < k * (n / k + 1)) × (n / k + 1 ≤ k * (n / k + 1))
periods k n h =
    let e : k * (n / k + 1) ≡ k * (n / k) + k = omega arith in
    (
      omega (arith, div-add-mod n k),
      omega (arith, div-add-mod n k, mod-lt n h),
      le-times k (n / k + 1) h,
    )

-- The timer's next instants while no bound of its words is reached.
module _ (s : TimerState) (now : ℕ) (armed : 0 < s.deadline_ns) (periodic : 0 < s.interval_ns) where
  refresh-early : now < s.deadline_ns → refresh s now ≡ s
  unfolding refresh
  refresh-early early = ground arith

  steps :
      s.deadline_ns ≤ now
      → let count = saturating_add ((now - s.deadline_ns) / s.interval_ns) 1 in
        refresh s now ≡ record s {
          deadline_ns = saturating_add s.deadline_ns (saturating_mul s.interval_ns count);
          expirations = saturating_add s.expirations count;
        }
  unfolding refresh
  steps passed =
      let due : (s.deadline_ns == 0 || ltb now s.deadline_ns) ≡ false = ground arith in
      let period : (s.interval_ns == 0) ≡ false = ground arith in simp (due, period) refl

  refresh-fires :
      s.deadline_ns ≤ now
      → now + s.interval_ns ≤ u64_max
      → s.expirations ≤ s.deadline_ns
      → let more = (now - s.deadline_ns) / s.interval_ns + 1 in
        (refresh s now).deadline_ns ≡ s.deadline_ns + s.interval_ns * more
        × (refresh s now).expirations ≡ s.expirations + more
        × (refresh s now).interval_ns ≡ s.interval_ns
  refresh-fires passed fits known =
      let p = periods s.interval_ns (now - s.deadline_ns) periodic in
      let more = (now - s.deadline_ns) / s.interval_ns + 1 in
      let m : saturating_add ((now - s.deadline_ns) / s.interval_ns) 1 ≡ more = omega arith in
      let w : saturating_mul s.interval_ns more ≡ s.interval_ns * more = omega arith in
      let d : saturating_add s.deadline_ns (s.interval_ns * more)
          ≡ s.deadline_ns + s.interval_ns * more =
        omega arith in
      let x : saturating_add s.expirations more ≡ s.expirations + more = omega arith in
      let e = steps passed in
      (
        ap (λ t. t.deadline_ns) e
            ∙ ap (λ n. saturating_add s.deadline_ns (saturating_mul s.interval_ns n)) m
            ∙ ap (saturating_add s.deadline_ns) w
            ∙ d,
        ap (λ t. t.expirations) e ∙ ap (saturating_add s.expirations) m ∙ x,
        ap (λ t. t.interval_ns) e,
      )

-- A refresh counts what is due up to `now`, whatever part of the count has been handed out, and
-- the next expiration is due after `now`.
pub refresh-Counts :
    (first interval given last now : ℕ) (s : TimerState)
    → 0 < interval
    → Counts first interval (given + s.expirations) last s
    → last ≤ now
    → now + interval ≤ u64_max
    → Counts first interval (given + (refresh s now).expirations) now (refresh s now)
      × (now < (refresh s now).deadline_ns)
refresh-Counts first interval given last now s periodic v order fits =
    elim (Bool-cases (ltb now s.deadline_ns)) [
      | inl early ↦
          rw
            (refresh-early s now (v.armed) (omega (arith, v.period))
              (ltb→lt now s.deadline_ns early))
            (
              record { period = v.period; due = v.due; later = still v.later; armed = v.armed },
              ltb→lt now s.deadline_ns early,
            )
      | inr passed ↦ fires (ground arith)
    ]
  where
    still :
        (given + s.expirations ≡ 0) ⊎ (s.deadline_ns ≤ last + interval)
        → (given + s.expirations ≡ 0) ⊎ (s.deadline_ns ≤ now + interval)
    still (inl z) = inl z
    still (inr h) = inr (omega arith)

    fires :
        s.deadline_ns ≤ now
        → Counts first interval (given + (refresh s now).expirations) now (refresh s now)
          × (now < (refresh s now).deadline_ns)
    fires passed =
        let known : s.expirations ≤ s.deadline_ns =
          omega (arith, v.due, le-times interval (given + s.expirations) periodic) in
        let p = periods s.interval_ns (now - s.deadline_ns) (omega (arith, v.period)) in
        let (d, x, i) =
          refresh-fires s now (v.armed) (omega (arith, v.period)) passed (omega (arith, v.period))
            known in
        let more = (now - s.deadline_ns) / s.interval_ns + 1 in
        let a : s.interval_ns * more ≡ interval * more = ap (λ k. k * more) v.period in
        let b : interval * (given + (refresh s now).expirations)
            ≡ interval * (given + s.expirations) + interval * more =
          ap (λ k. interval * (given + k)) x ∙ omega arith in
        (
          record {
            period = i ∙ v.period;
            due = omega (arith, v.due, d, a, b);
            later = inr (omega (arith, d, p.0, v.period));
            armed = omega (arith, d, v.armed);
          },
          omega (arith, d, p.1),
        )
