-- ===== src/Cephfs/Source/Rsync.antt =====
-- The rsync of a whole volume in internal/worker/cephfs/source.go: rsync with
-- createFileListAndSync and syncForDeletion. How the commands end is an input; times are seconds.
pub mod Retries
use ceph_volsync_plugin.Base.{
  ℕ, zero, suc, ◌+◌, ◌*◌, Bool, true, false, not, ◌&&◌, List, [], ◌∷◌, Option, none, some, ltb,
  ◌==◌, if◌then◌else◌,
}
use ceph_volsync_plugin.Base.Int.{ℤ, pos, negsuc, ◌+ℤ◌}

abbrev pub max_retries : ℕ
max_retries = 5

abbrev pub initial_delay : ℕ
initial_delay = 2

abbrev pub backoff_factor : ℕ
backoff_factor = 2

-- cmd.Run: no error, an ExitError with its code (-1 for a signal), another error.
pub data CommandEnd : Type 0 where
  exited not_run : CommandEnd
  exit_code : ℤ → CommandEnd

abbrev pub code_of : CommandEnd → ℤ
code_of exited = pos 0
code_of (exit_code c) = c
code_of not_run = pos 1

-- What the first pass meets: find, WriteFile, Stat with the size of the list, and rsync.
pub record ListPass : Type 0 where
  pub finds : Bool
  pub writes : Bool
  pub size : Option ℕ
  pub rsync : CommandEnd

abbrev pub after_stat : Option ℕ → CommandEnd → ℤ
after_stat none end = pos 1
after_stat (some n) end = if n == 0 then pos 0 else code_of end

-- The error of createFileListAndSync is only logged; its code is returned.
unfoldable pub create_file_list_and_sync : ListPass → ℤ
create_file_list_and_sync p =
    if p.finds then if p.writes then after_stat p.size p.rsync else pos 1 else pos 1

abbrev pub sync_for_deletion : CommandEnd → ℤ
sync_for_deletion end = code_of end

pub record Attempt : Type 0 where
  pub list_pass : ListPass
  pub deletion : CommandEnd

abbrev pub hundred_times : ℤ → ℤ
hundred_times (pos n) = pos (n * 100)
hundred_times (negsuc n) = negsuc (n * 100 + 99)

unfoldable pub return_code : Attempt → ℤ
unfolding create_file_list_and_sync ◌+ℤ◌
return_code a =
    hundred_times (create_file_list_and_sync a.list_pass) +ℤ sync_for_deletion a.deletion

abbrev pub is_zero : ℤ → Bool
is_zero (pos zero) = true
is_zero _ = false

-- How often it was tried, the delays before another try, and the last code.
pub record Rsynced : Type 0 where
  pub tries : ℕ
  pub delays : List ℕ
  pub rc : ℤ

-- The loop; `fuel` bounds its rounds, and is not what ends it: five rounds are enough, and more make
-- no difference.
unfoldable pub rsync_loop : ℕ → (ℕ → Attempt) → ℕ → ℕ → ℤ → Rsynced
unfolding return_code
rsync_loop zero attempts retry delay rc = record { tries = retry; delays = []; rc = rc }
rsync_loop (suc fuel) attempts retry delay rc =
    let code = return_code (attempts retry) in
    let waits = not (is_zero code) && ltb (retry + 1) max_retries in
    let rest =
      rsync_loop fuel attempts (retry + 1) (if waits then delay * backoff_factor else delay) code in
    if not (is_zero rc) && ltb retry max_retries
    then if waits then record rest { delays = delay ∷ rest.delays } else rest
    else record { tries = retry; delays = []; rc = rc }

-- rsync; it returns an error unless the last code is zero.
unfoldable pub rsync : ℕ → (ℕ → Attempt) → Rsynced
unfolding rsync_loop
rsync fuel attempts = rsync_loop fuel attempts 0 initial_delay (pos 1)
