-- ===== src/Examples/Clocks.antt =====
-- Timeouts and the cleanup at some times.
use packamal.Tasks.Timeouts.Laws.{TimesOut, check_timeouts_lem}
use packamal.World.{World}
use packamal.Tasks.Timeouts.{
  check_timeouts, on_timed_out, handle_timed_out_tasks, handle_timed_out_task, stop_container,
  timed_out_tasks,
}
use packamal.Models.{is_timed_out, minute, queued}
use packamal.Examples.{sorting, in_container, world, row, docker, env}
use packamal.Prelude.{ℕ, Text, ◌*◌, [], ◌∷◌, refl, arith}

abbrev late : ℕ
late = 31 * minute

abbrev no_digits : ℕ → Text
no_digits n = []

abbrev one_late : World
one_late = world (in_container 1 ∷ row 2 queued ∷ [])

check_timeouts_example :
    TimesOut docker no_digits late 1
      (timed_out_tasks late one_late.tasks)
      one_late.tasks
      (check_timeouts docker no_digits env.accepts late one_late).1.tasks
unfolding check_timeouts on_timed_out handle_timed_out_tasks handle_timed_out_task stop_container
    is_timed_out
check_timeouts_example =
    check_timeouts_lem docker no_digits late env.accepts one_late 1 (ground arith) refl
