-- ===== src/Job/Dispatch/Terminal.antt =====
-- Every run of internal/job/dispatcher.go ends in a stored terminal state.
use waterfall.Provider.Env.{Env}
use waterfall.Job.Types.{Job}
