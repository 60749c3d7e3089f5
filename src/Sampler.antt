-- ===== src/Sampler.antt =====
-- src/sampler.rs: the live subscriptions. A slot is known by its number, as by its address in the
-- source, and `slots` is what the slots hold; whoever waits for a slot is told by its change. How
-- often `wake` was called is counted.
pub mod Serve
pub mod Deliver
pub mod Run
mod Tests
use uniproc_windows_agent.Base.{
  ℕ, suc, ◌+◌, ◌-◌, ◌/◌, ◌%◌, min, Bool, true, false, negb, List, [], ◌∷◌, ◌++◌, map, Option, none,
  some, ◌&&◌, ◌||◌, ◌==◌, nat_beq, leb, length, if◌then◌else◌,
}
use uniproc_windows_agent.Base.Map.{insert}
use uniproc_windows_agent.Base.Words.{add64, u64_mod}
use uniproc_windows_agent.Sample.Metrics.{Sets}
use uniproc_windows_agent.Sample.{MetricSpec, Sample, covers, idle, period, reads_processes}
use uniproc_windows_agent.Feed.{Published}

pub data Request (S : Sets) : Type 0 where
  subscribe : (spec : MetricSpec S) → (slot : ℕ) → Request S
  unsubscribe : (slot : ℕ) → Request S
  idle_every : (interval : ℕ) → Request S

pub record Subscriber (S : Sets) : Type 0 where
  pub spec : MetricSpec S
  pub slot : ℕ
  pub delivered : Option (Sample S)

abbrev pub Slots : Sets → Type 0
Slots S = List (ℕ × Published S)

pub record Subscriptions (S : Sets) : Type 0 where
  pub demand : List (MetricSpec S)
  pub idle : ℕ
  pub subscribers : List (Subscriber S)
  pub slots : Slots S
  pub wakes : ℕ

module _ {S : Sets} where
  unfoldable pub due_after : Subscriber S → Sample S → ℕ
  due_after s sample =
      let interval = period s.spec in
      let slack = min interval sample.period / 2 in ((interval - slack) / 100) % u64_mod

  unfoldable pub is_next : Subscriber S → Sample S → Option (Sample S) → Bool
  is_next s sample none = true
  is_next s sample (some held) =
      negb (held.snapshot == sample.snapshot)
      && leb (add64 held.sampled_at (due_after s sample)) sample.sampled_at

  unfoldable pub takes : Subscriber S → Sample S → Bool
  takes s sample =
      let lists_only = S.process.is_empty s.spec.processes && S.machine.is_empty s.spec.machine in
      covers sample.wanted s.spec
      && (negb lists_only || negb (length sample.pids == 0))
      && is_next s sample s.delivered

  unfoldable pub deliver_one : Published S → Subscriber S → Slots S → Subscriber S × Slots S
  deliver_one published s slots =
      if takes s published.sample
      then (record s { delivered = some published.sample }, insert s.slot published slots)
      else (s, slots)

  unfoldable pub new : ℕ → Subscriptions S
  new every = record {
    demand = idle every ∷ [];
    idle = every;
    subscribers = [];
    slots = [];
    wakes = 0;
  }

  unfoldable pub any_reads : List (MetricSpec S) → Bool
  any_reads [] = false
  any_reads (spec ∷ specs) = reads_processes spec || any_reads specs

  abbrev pub specs_of : List (Subscriber S) → List (MetricSpec S)
  specs_of = map (λ s. s.spec)

  unfoldable pub wanted : Subscriptions S → List (MetricSpec S)
  wanted subs =
      let specs = specs_of subs.subscribers in
      if negb (any_reads specs) then specs ++ idle subs.idle ∷ [] else specs

  -- `retain` of the subscribers of other slots.
  unfoldable pub leave : ℕ → List (Subscriber S) → List (Subscriber S)
  leave slot [] = []
  leave slot (s ∷ subscribers) =
      let rest = leave slot subscribers in if s.slot == slot then rest else s ∷ rest

  -- The `match` of `handle`.
  unfoldable pub handle_request : Request S → Published S → Subscriptions S → Subscriptions S
  handle_request (subscribe spec slot) latest subs =
      let (s, slots) =
        deliver_one latest (record { spec = spec; slot = slot; delivered = none }) subs.slots in
      record subs { subscribers = subs.subscribers ++ s ∷ []; slots = slots }
  handle_request (unsubscribe slot) latest subs = record subs {
    subscribers = leave slot subs.subscribers;
  }
  handle_request (idle_every interval) latest subs = record subs { idle = interval }

  unfoldable pub handle : Request S → Published S → Subscriptions S → Subscriptions S
  handle request latest subs =
      let next = handle_request request latest subs in
      record next { demand = wanted next; wakes = suc next.wakes }

  unfoldable pub deliver_all :
      Published S → List (Subscriber S) → Slots S → List (Subscriber S) × Slots S
  deliver_all published [] slots = ([], slots)
  deliver_all published (s ∷ subscribers) slots =
      let (s', slots') = deliver_one published s slots in
      let (rest, slots'') = deliver_all published subscribers slots' in (s' ∷ rest, slots'')

  unfoldable pub deliver : Published S → Subscriptions S → Subscriptions S
  deliver published subs =
      let (subscribers, slots) = deliver_all published subs.subscribers subs.slots in
      record subs { subscribers = subscribers; slots = slots }
