-- ===== src/Cephfs/Source/Rsync/Retries.antt =====
-- How often the rsync of a volume is tried.
use ceph_volsync_plugin.Base.{
  ℕ, zero, suc, ◌+◌, ◌*◌, ◌≤◌, ◌<◌, ◌≡◌, refl, ap, ◌∙◌, inl, inr, true, false, not, ltb, ◌&&◌, List,
  [], ◌∷◌, Bool-cases, arith,
}
use ceph_volsync_plugin.Base.Int.{ℤ, pos, negsuc, ◌+ℤ◌}
use ceph_volsync_plugin.Cephfs.Source.Rsync.{
  Attempt, return_code, is_zero, Rsynced, rsync, rsync_loop, backoff_factor, initial_delay,
  max_retries, create_file_list_and_sync, sync_for_deletion, hundred_times,
}

-- The attempts from `first` on, `n` of them, failed.
abbrev pub AllFail : (ℕ → Attempt) → ℕ → ℕ → Type 0
AllFail attempts first zero = Unit
AllFail attempts first (suc n) =
    (is_zero (return_code (attempts first)) ≡ false) × AllFail attempts (first + 1) n

-- `n` delays, each twice as long as the one before.
abbrev pub backoffs : ℕ → ℕ → List ℕ
backoffs zero delay = []
backoffs (suc n) delay = delay ∷ backoffs n (delay * 2)

-- The attempts from `first` on: `failures` of them were bad, and the next one was the last.
pub record Retries (attempts : ℕ → Attempt) (first delay : ℕ) (r : Rsynced) : Type 0 where
  pub failures : ℕ
  pub tries_is : r.tries ≡ first + failures + 1
  pub few : r.tries ≤ 5
  pub before : AllFail attempts first failures
  pub rc_is : r.rc ≡ return_code (attempts (first + failures))
  pub gives_up : is_zero r.rc ≡ false → r.tries ≡ 5
  pub delays_is : r.delays ≡ backoffs failures delay

abbrev ended : ℕ → ℤ → Rsynced
ended retry rc = record { tries = retry; delays = []; rc = rc }

loop_ends :
    (fuel : ℕ) (attempts : ℕ → Attempt) (retry delay : ℕ) (rc : ℤ)
    → not (is_zero rc) && ltb retry max_retries ≡ false
    → rsync_loop fuel attempts retry delay rc ≡ ended retry rc
unfolding rsync_loop
loop_ends zero attempts retry delay rc h = refl
loop_ends (suc fuel) attempts retry delay rc h = simp h refl

last_try :
    (fuel : ℕ) (attempts : ℕ → Attempt) (retry delay : ℕ) (rc : ℤ)
    → not (is_zero rc) && ltb retry max_retries ≡ true
    → not (is_zero (return_code (attempts retry))) && ltb (retry + 1) max_retries ≡ false
    → rsync_loop (suc fuel) attempts retry delay rc
      ≡ ended (retry + 1) (return_code (attempts retry))
unfolding rsync_loop
last_try fuel attempts retry delay rc h e =
    simp (h, e) (loop_ends fuel attempts (retry + 1) delay _ e)

delay_first : ℕ → Rsynced → Rsynced
delay_first delay r = record r { delays = delay ∷ r.delays }

bad_try :
    (fuel : ℕ) (attempts : ℕ → Attempt) (retry delay : ℕ) (rc : ℤ)
    → not (is_zero rc) && ltb retry max_retries ≡ true
    → not (is_zero (return_code (attempts retry))) && ltb (retry + 1) max_retries ≡ true
    → rsync_loop (suc fuel) attempts retry delay rc
      ≡ delay_first delay (
          rsync_loop fuel attempts
            (retry + 1)
            (delay * backoff_factor)
            (return_code (attempts retry)))
unfolding rsync_loop delay_first
bad_try fuel attempts retry delay rc h e = simp (h, e) refl

ended-Retries :
    (attempts : ℕ → Attempt) (retry delay : ℕ)
    → retry < max_retries
    → not (is_zero (return_code (attempts retry))) && ltb (retry + 1) max_retries ≡ false
    → Retries attempts retry delay (ended (retry + 1) (return_code (attempts retry)))
ended-Retries attempts retry delay h e = record {
  failures = 0;
  tries_is = omega arith;
  few = omega arith;
  before = tt;
  rc_is = ap (λ n. return_code (attempts n)) same;
  gives_up = λ k. ground (arith, k, e);
  delays_is = refl;
}
  where
    same : retry ≡ retry + 0
    same = omega arith

later-Retries :
    (attempts : ℕ → Attempt) (retry delay : ℕ) {r : Rsynced}
    → is_zero (return_code (attempts retry)) ≡ false
    → Retries attempts (retry + 1) (delay * backoff_factor) r
    → Retries attempts retry delay (delay_first delay r)
unfolding delay_first
later-Retries attempts retry delay e h = record {
  failures = suc h.failures;
  tries_is = omega (arith, h.tries_is);
  few = h.few;
  before = (e, h.before);
  rc_is = h.rc_is ∙ ap (λ n. return_code (attempts n)) (same h.failures);
  gives_up = h.gives_up;
  delays_is = ap (◌∷◌ delay) h.delays_is;
}
  where
    same : (n : ℕ) → retry + 1 + n ≡ retry + suc n
    same n = omega arith

rsync_loop-Retries :
    (fuel : ℕ) (attempts : ℕ → Attempt) (retry delay : ℕ) (rc : ℤ)
    → retry < max_retries
    → max_retries ≤ fuel + retry
    → is_zero rc ≡ false
    → Retries attempts retry delay (rsync_loop fuel attempts retry delay rc)
rsync_loop-Retries zero attempts retry delay rc h f n = absurd (omega (arith, h, f))
rsync_loop-Retries (suc fuel) attempts retry delay rc h f n =
    let go : not (is_zero rc) && ltb retry max_retries ≡ true = ground arith in
    elim (Bool-cases
      (not (is_zero (return_code (attempts retry))) && ltb (retry + 1) max_retries)) [
        | inr e ↦
            rw (last_try fuel attempts retry delay rc go e) (ended-Retries attempts retry delay h e)
        | inl e ↦
            let bad : is_zero (return_code (attempts retry)) ≡ false = ground (arith, e) in
            rw (bad_try fuel attempts retry delay rc go e) (
              later-Retries attempts retry delay bad (
                rsync_loop-Retries fuel attempts (retry + 1) (delay * backoff_factor)
                  (return_code (attempts retry)) (ground (arith, e)) (omega (arith, f)) bad))
      ]

-- The rsync of a volume is tried until an attempt ends with code zero, at most five times; between
-- two tries it waits, for 2 seconds at first and then for twice as long as before; its code is that
-- of the last attempt, and only after five failures is it not zero. This holds for any bound on the
-- rounds of the loop from five on: the number of tries does not come from that bound.
pub rsync-Retries :
    (fuel : ℕ) (attempts : ℕ → Attempt) → 5 ≤ fuel → Retries attempts 0 2 (rsync fuel attempts)
unfolding rsync
rsync-Retries fuel attempts h =
    rsync_loop-Retries fuel attempts 0 initial_delay (pos 1) (omega arith) (omega arith) refl

-- -1 for a process that a signal ended, or a small number.
abbrev pub IsExitCode : ℤ → Type 0
IsExitCode (pos n) = n < 100
IsExitCode (negsuc n) = n ≡ 0

combined :
    (x y : ℤ)
    → IsExitCode x
    → IsExitCode y
    → is_zero (hundred_times x +ℤ y) ≡ is_zero x && is_zero y
unfolding ◌+ℤ◌
combined (pos zero) (pos zero) h k = refl
combined (pos zero) (pos (suc m)) h k = ground arith
combined (pos zero) (negsuc m) h k = ground arith
combined (pos (suc n)) (pos m) h k = ground arith
combined (pos (suc n)) (negsuc m) h k = ground arith
combined (negsuc n) (pos m) h k = ground arith
combined (negsuc n) (negsuc m) h k = ground arith

-- Where both passes end with a code of -1 to 99, an attempt has code zero exactly if both of its
-- passes have.
pub return_code_zero :
    (a : Attempt) {x y : ℤ}
    → create_file_list_and_sync a.list_pass ≡ x
    → sync_for_deletion a.deletion ≡ y
    → IsExitCode x
    → IsExitCode y
    → is_zero (return_code a) ≡ is_zero x && is_zero y
unfolding return_code
return_code_zero a {x} {y} h k cx cy = rw h (rw k (combined x y cx cy))
