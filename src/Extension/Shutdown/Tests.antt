-- ===== src/Extension/Shutdown/Tests.antt =====
-- A process that gets a signal while it answers two requests.
use mindorr.Prelude.{◌≤◌, ◌+◌, true, false, some, ◌≡◌, ◌⊎◌}
use mindorr.Extension.Shutdown.{
  at_start, shutting, Process, ProcessStep, Reaches, answers_late, expires, Reaches-dropped,
}
use mindorr.Extension.Shutdown.Ending.{none_yet, one_more, Takes-ends}

two_end :
    (2 ≤ 2 + 2)
    × (((shutting 1 true).exit ≡ some 0) ⊎ ((r : Process) × ProcessStep (shutting 1 true) r))
two_end = Takes-ends 2 2 (shutting 1 true) (one_more (one_more none_yet answers_late) expires)

three_dropped : Reaches at_start (record (shutting 3 false) { exit = some 0 })
three_dropped = Reaches-dropped 3
