-- ===== src/Recording/Tests.antt =====
-- The recording guard on a running cycle and on an idle queue.
use testbed_services.Common.{◌≡◌, refl}
use testbed_services.Recording.{in_phase, blocking_reason, guard_code}

held_back : guard_code (blocking_reason (in_phase "running" "F01-R")) ≡ 3
unfolding guard_code blocking_reason
held_back = refl
