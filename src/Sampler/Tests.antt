-- ===== src/Sampler/Tests.antt =====
-- Two subscribers of the sample of the tests.
use mathlib.Core.Bool.{decide}
use uniproc_windows_agent.Base.{
  ◌*◌, true, List, [], ◌∷◌, none, some, All, ◌≡◌, ◌⊎◌, refl, nat_beq, inr, arith,
}
use uniproc_windows_agent.Base.Map.{get, insert}
use uniproc_windows_agent.Sample.{milli, covers, idle}
use uniproc_windows_agent.Sample.ListSet.{sets}
use uniproc_windows_agent.Sample.TestData.{narrow, wide, sample}
use uniproc_windows_agent.Feed.{Published}
use uniproc_windows_agent.Schedule.{Schedule, take}
use uniproc_windows_agent.Schedule.Groups.{Any}
use uniproc_windows_agent.Schedule.Serve.{IsServed}
use uniproc_windows_agent.Sampler.{
  Subscriptions, any_reads, deliver, deliver_all, deliver_one, handle, handle_request, is_next, new,
  subscribe, takes, unsubscribe,
}
use uniproc_windows_agent.Sampler.Serve.{Asks, handle_reads, handle_serves}
use uniproc_windows_agent.Sampler.Deliver.{IsSuited, deliver_hands}
use uniproc_windows_agent.Sampler.Run.{Step, IsFreshRun, publishes, requests, run, run-IsSuited}

abbrev published : Published sets
published = record {
  snapshot = record {
    services = record { etag = 1; value = [] };
    processes = record { etag = 1; value = [] };
    states = record { etag = 1; value = record { passport_etag = 1; states = [] } };
  };
  sample = sample;
  dropped_by_sink = 0;
  sessions = [];
  snapshot_error = none;
  reported_at = none;
}

abbrev nobody : Subscriptions sets
nobody = new (2_000 * milli)

abbrev one : Subscriptions sets
one = handle (subscribe wide 1) published nobody

abbrev idle_schedule : Schedule sets
idle_schedule = record { cadences = [] }

handle_serves_example :
    let subs = handle (subscribe narrow 2) published one in
    Any (IsServed 5 narrow) (take subs.demand 5 idle_schedule).1.cadences
    × All (λ y. Asks (subscribe narrow 2) one.subscribers y ⊎ (y ≡ idle one.idle)) subs.demand
handle_serves_example =
    handle_serves (subscribe narrow 2) published one 5 idle_schedule narrow (inr refl)

handle_reads_example : any_reads (handle (subscribe narrow 2) published one).demand ≡ true
handle_reads_example = handle_reads (subscribe narrow 2) published one

abbrev waiting : Subscriptions sets
waiting = record nobody { subscribers = record { spec = narrow; slot = 1; delivered = none } ∷ [] }

narrow_covered : covers sample.wanted narrow ≡ true
unfolding covers decide
narrow_covered = refl

deliver_hands_example : get 1 (deliver published waiting).slots ≡ some published
deliver_hands_example =
    deliver_hands published waiting [] [] (record { spec = narrow; slot = 1; delivered = none })
      refl (tt, tt) narrow_covered (inr (ground arith)) (ground arith) tt

abbrev history : List (Step sets)
history =
    requests (subscribe wide 1) published
    ∷ publishes published
    ∷ requests (subscribe narrow 2) published
    ∷ requests (unsubscribe 1) published
    ∷ []

history_fresh : IsFreshRun history nobody
unfolding new handle handle_request deliver deliver_all deliver_one takes covers is_next get insert
    decide
history_fresh = ((refl, tt), (tt, ((refl, ((λ h. ground (arith, h)), tt)), (tt, tt))))

run-IsSuited_example :
    let after = run history nobody in All (IsSuited after.slots) after.subscribers
run-IsSuited_example = run-IsSuited (2_000 * milli) history history_fresh

first_delivered :
    (deliver published waiting).subscribers
    ≡ record { spec = narrow; slot = 1; delivered = some sample } ∷ []
unfolding deliver deliver_all deliver_one takes covers is_next decide
first_delivered = refl
