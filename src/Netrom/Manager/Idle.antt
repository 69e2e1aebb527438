-- ===== src/Netrom/Manager/Idle.antt =====
-- The idle-crosslink reaper of NetromCircuitManager.
use bbs.Prelude.{true, false, ◌||◌, not, if◌then◌else◌, ◌==◌}
use bbs.Dict.{is_empty}
use bbs.Netrom.Circuit.{Link}
use bbs.Netrom.Manager.{Manager}

-- The timer runs on the event loop; there always is one on the dispatch path.
unfoldable pub arm_idle_timer : Manager → Manager
arm_idle_timer m =
    if m.closed || m.link_idle_timeout == 0 || not (is_empty m.by_local_key) || m.idle_handle
    then m
    else record m { idle_handle = true }

unfoldable pub cancel_idle_timer : Manager → Manager
cancel_idle_timer m = record m { idle_handle = false }

-- `if not writer.is_closing(): writer.close()`
unfoldable pub close_link : Link → Link
close_link link = record link { closing = true }

-- The timer fires.
unfoldable pub reap_idle : Manager → Manager
unfolding close_link
reap_idle m =
    let m' = record m { idle_handle = false } in
    if m.closed || not (is_empty m.by_local_key) then m' else record m' { link = close_link m.link }

unfoldable pub reap_now_if_idle : Manager → Manager
unfolding close_link cancel_idle_timer
reap_now_if_idle m =
    if m.closed || not (is_empty m.by_local_key)
    then m
    else record (cancel_idle_timer m) { link = close_link m.link }
