-- ===== src/Kernel/Tests.antt =====
-- Lock functions by name.
use study_uafx.Base.{◌≡◌, refl, true, some}
use study_uafx.Kernel.{is_lock_function}

-- A suffix that the table does not list: a lock function without a pair.
unpaired :
    is_lock_function (record { is_declaration = true; name = some "mutex_lock_killable" }) ≡ true
unfolding is_lock_function
unpaired = refl
