-- ===== src/Types/SpinLock/Guards.antt =====
-- The scope of a guard.
use tklb.Base.{◌≡◌, refl, Bool, true, false, if◌then◌else◌}
use tklb.Types.SpinLock.{guard_try, end_guard_try, try_lock_flag, unlock_flag}

-- A `LockGuardTry` leaves the lock as it was at the end of its scope, whether or not it got it; it gets
-- it just where the lock was free, and in its scope the lock is taken.
pub end_guard_try-guard_try :
    (flag : Bool)
    → (end_guard_try (guard_try flag) ≡ flag)
      × ((guard_try flag).0 ≡ (if flag then false else true))
      × ((guard_try flag).1 ≡ true)
unfolding guard_try end_guard_try try_lock_flag unlock_flag
end_guard_try-guard_try true = (refl, refl, refl)
end_guard_try-guard_try false = (refl, refl, refl)
