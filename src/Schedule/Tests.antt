-- ===== src/Schedule/Tests.antt =====
-- The schedule on two intervals: the machine each 200 ms, the processes each second.
use uniproc_windows_agent.Base.{ℕ, ◌*◌, ◌<◌, List, [], ◌∷◌, some, All, ◌≡◌, refl}
use uniproc_windows_agent.Sample.Metrics.{MachineMetric, ProcessMetric}
use uniproc_windows_agent.Sample.{MetricSpec, milli, period}
use uniproc_windows_agent.Sample.ListSet.{sets}
use uniproc_windows_agent.Schedule.{
  Schedule, due, take, also, by_interval, first_due, go_on, group, group_all, take_groups,
  take_known,
}
use uniproc_windows_agent.Schedule.Groups.{Any}
use uniproc_windows_agent.Schedule.Serve.{IsServed, take_serves}
use uniproc_windows_agent.Schedule.Sampled.{IsCurrent, take-IsCurrent, due-take}

abbrev machine_each : ℕ → MetricSpec sets
machine_each ms = record { interval = ms * milli; processes = []; machine = MachineMetric.cpu ∷ [] }

abbrev processes_each : ℕ → MetricSpec sets
processes_each ms = record {
  interval = ms * milli;
  processes = ProcessMetric.handles ∷ [];
  machine = [];
}

abbrev demand : List (MetricSpec sets)
demand = machine_each 200 ∷ processes_each 1000 ∷ []

abbrev idle_schedule : Schedule sets
idle_schedule = record { cadences = [] }

abbrev started : Schedule sets
started = (take demand 0 idle_schedule).1

take_serves_example :
    All (λ x. Any (IsServed (200 * milli) x) (take demand (200 * milli) started).1.cadences) demand
take_serves_example = take_serves demand (200 * milli) started

take-IsCurrent_example :
    let r = take demand (200 * milli) started in
    All (IsCurrent (200 * milli) started.cadences r.0) r.1.cadences
take-IsCurrent_example = take-IsCurrent demand (200 * milli) started

abbrev due_at_200 : due started ≡ some (200 * milli)
unfolding due take also by_interval first_due go_on group group_all take_groups take_known period
due_at_200 = refl

due-take_example : 0 < 200 * milli
due-take_example = due-take demand 0 idle_schedule (200 * milli) due_at_200
