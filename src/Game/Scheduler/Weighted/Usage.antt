-- ===== src/Game/Scheduler/Weighted/Usage.antt =====
-- What crates/rnet-game/src/scheduler.rs keeps of the bytes that each session uses.
use rnetlib.Prelude.{
  ℕ, ◌+◌, ◌-◌, ◌<◌, ◌≡◌, ◌≢◌, refl, sym, ap, arith, Option, none, some, ◌==◌, if◌then◌else◌, put,
  put_self, put_other, same-or-not, neq-test, ==_refl, inl, inr, Map,
}
use rnetlib.Game.Scheduler.Weighted.{usage, release_usage}

abbrev pub share : ℕ → ℕ → ℕ → ℕ
share key s bytes = if key == s then bytes else 0

pub usage-added :
    (m : Map ℕ) (key bytes s : ℕ)
    → usage (put m key (some (usage (m key) + bytes)) s) ≡ usage (m s) + share key s bytes
usage-added m key bytes s = elim (same-or-not s key) [
  | inl e ↦ rw (e, put_self m key (some (usage (m key) + bytes)), ==_refl key) refl
  | inr ne ↦
      rw (put_other m key (some (usage (m key) + bytes)) s ne, neq-test key s (λ e. ne (sym e)))
        (omega arith)
]

left_over : ℕ → Option ℕ
left_over n = if n == 0 then none else some n

usage-left_over : (n : ℕ) → usage (left_over n) ≡ n
unfolding left_over
usage-left_over n = ground arith

left_over-ne-zero : (n : ℕ) → left_over n ≢ some 0
unfolding left_over
left_over-ne-zero n h = ground arith

release_from :
    (m : Map ℕ) (key bytes s : ℕ) (o : Option ℕ)
    → m key ≡ o
    → usage (release_usage m key bytes o s) ≡ usage (m s) - share key s bytes
unfolding left_over
release_from m key bytes s none e = elim (same-or-not s key) [
  | inl same ↦ rw (same, e, ==_refl key) (omega arith)
  | inr ne ↦ rw (neq-test key s (λ e. ne (sym e))) (omega arith)
]
release_from m key bytes s (some used) e = elim (same-or-not s key) [
  | inl same ↦ rw (same, e, ==_refl key) (usage-left_over (used - bytes))
  | inr ne ↦
      rw (neq-test key s (λ e. ne (sym e)))
        (omega (arith, ap usage (put_other m key (left_over (used - bytes)) s ne)))
]

pub usage-released :
    (m : Map ℕ) (key bytes s : ℕ)
    → usage (release_usage m key bytes (m key) s) ≡ usage (m s) - share key s bytes
usage-released m key bytes s = release_from m key bytes s (m key) refl

release-ne-zero :
    (m : Map ℕ) (key bytes s : ℕ) (o : Option ℕ)
    → m s ≢ some 0
    → release_usage m key bytes o s ≢ some 0
unfolding left_over
release-ne-zero m key bytes s none used = used
release-ne-zero m key bytes s (some n) used = elim (same-or-not s key) [
  | inl same ↦ rw (same, put_self m key (left_over (n - bytes))) (left_over-ne-zero (n - bytes))
  | inr ne ↦ rw (put_other m key (left_over (n - bytes)) s ne) used
]

pub released-ne-zero :
    (m : Map ℕ) (key bytes s : ℕ) → m s ≢ some 0 → release_usage m key bytes (m key) s ≢ some 0
released-ne-zero m key bytes s used = release-ne-zero m key bytes s (m key) used

pub added-ne-zero :
    (m : Map ℕ) (key bytes s : ℕ)
    → 0 < bytes
    → m s ≢ some 0
    → put m key (some (usage (m key) + bytes)) s ≢ some 0
added-ne-zero m key bytes s positive used = elim (same-or-not s key) [
  | inl same ↦
      rw (same, put_self m key (some (usage (m key) + bytes))) (λ h. omega (arith, ap usage h))
  | inr ne ↦ rw (put_other m key (some (usage (m key) + bytes)) s ne) used
]

pub forgotten-ne-zero : (m : Map ℕ) (key s : ℕ) → m s ≢ some 0 → put m key none s ≢ some 0
forgotten-ne-zero m key s used = elim (same-or-not s key) [
  | inl same ↦ rw (same, put_self m key none) (λ h. cc)
  | inr ne ↦ rw (put_other m key none s ne) used
]

pub usage-forgotten :
    (m : Map ℕ) (key s : ℕ) → usage (put m key none s) ≡ (if key == s then 0 else usage (m s))
usage-forgotten m key s = elim (same-or-not s key) [
  | inl same ↦ rw (same, put_self m key none, ==_refl key) refl
  | inr ne ↦ rw (put_other m key none s ne, neq-test key s (λ e. ne (sym e))) refl
]
