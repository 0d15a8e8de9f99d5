-- ===== src/Scheduler/Lock.antt =====
-- src/mineru_gateway/scheduler/lock.py: the ownership of the scheduler. PostgreSQL's answers are
-- arguments.
use mineru_gateway.Base.{Bool, true, false, ◌&&◌, if◌then◌else◌}

-- `_NoOpLock`, or `PostgresAdvisoryLock` with whether it has a connection and its flag `_held`.
pub data Lock : Type 0 where
  no_op : Lock
  advisory : (connected held : Bool) → Lock

-- The property `held`.
unfoldable pub is_held : Lock → Bool
is_held no_op = true
is_held (advisory connected held) = held && connected

-- `acquire`, after what `pg_try_advisory_lock` answered: whether the lock is held now.
unfoldable pub acquire : (got : Bool) → Lock → Bool × Lock
acquire got no_op = (true, no_op)
acquire got (advisory connected held) =
    if held then (true, advisory connected held) else (got, advisory got got)

unfoldable pub release : Lock → Lock
release no_op = no_op
release (advisory connected held) =
    if connected then advisory false false else advisory connected held

-- `verify`, with whether the connection is alive.
unfoldable pub verify : (alive : Bool) → Lock → Bool × Lock
verify alive no_op = (true, no_op)
verify alive (advisory connected held) =
    if held && connected
    then (if alive then (true, advisory connected held) else (false, advisory connected false))
    else (false, advisory connected held)
