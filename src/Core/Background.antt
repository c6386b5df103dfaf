-- ===== src/Core/Background.antt =====
-- The two background tasks of core_ops.c, started and stopped. A result of an adapter call is an
-- argument; that of the post that asks a task to stop is discarded.
use ant_chain_trust_sdk.Prelude.{◌+◌, ◌-◌, true, false, not, if◌then◌else◌}
use ant_chain_trust_sdk.Errno.{Err, actrust_ok, is_ok}
use ant_chain_trust_sdk.Core.Context.{Context}

-- `core_downlink_start`: the semaphore, and the task.
unfoldable pub downlink_start : Err → Err → Context → Err × Context
downlink_start sem task c =
    if not (is_ok sem)
    then (sem, c)
    else if not (is_ok task)
    then (task, record c { downlink_stop_sem = false })
    else (
      actrust_ok,
      record c {
        downlink_stop_sem = true;
        downlink_task = true;
        downlink_tasks = c.downlink_tasks + 1;
      },
    )

-- The end of `core_downlink_stop`, from destroying the semaphore on.
unfoldable pub downlink_clear : Err → Context → Err × Context
downlink_clear destroy c =
    if c.downlink_stop_sem
    then (if not (is_ok destroy)
        then (destroy, c)
        else (actrust_ok, record c { downlink_stop_sem = false }))
    else (actrust_ok, c)

-- `core_downlink_stop`: the join, and the semaphore's end.
unfoldable pub downlink_stop : Err → Err → Context → Err × Context
downlink_stop join destroy c =
    if c.downlink_task
    then (if not (is_ok join)
        then (join, c)
        else downlink_clear destroy
            (record c { downlink_task = false; downlink_tasks = c.downlink_tasks - 1 }))
    else downlink_clear destroy c

-- `core_ntp_start`
unfoldable pub ntp_start : Err → Err → Context → Err × Context
ntp_start sem task c =
    if not (is_ok sem)
    then (sem, c)
    else if not (is_ok task)
    then (task, record c { ntp_stop_sem = false })
    else (
      actrust_ok,
      record c { ntp_stop_sem = true; ntp_task = true; ntp_tasks = c.ntp_tasks + 1 },
    )

unfoldable pub ntp_clear : Err → Context → Err × Context
ntp_clear destroy c =
    if c.ntp_stop_sem
    then (if not (is_ok destroy)
        then (destroy, c)
        else (actrust_ok, record c { ntp_stop_sem = false }))
    else (actrust_ok, c)

-- `core_ntp_stop`
unfoldable pub ntp_stop : Err → Err → Context → Err × Context
ntp_stop join destroy c =
    if c.ntp_task
    then (if not (is_ok join)
        then (join, c)
        else ntp_clear destroy (record c { ntp_task = false; ntp_tasks = c.ntp_tasks - 1 }))
    else ntp_clear destroy c
